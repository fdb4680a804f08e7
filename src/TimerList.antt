-- ===== src/TimerList.antt =====
-- 11-2 lst_timer.h: timers in a doubly linked list, in the order of their time of expiry. The nodes
-- stand in a memory where `delete` leaves nothing at their address.
pub mod Lists
pub mod Add
pub mod Unlink
pub mod Delete
pub mod Adjust
pub mod Sorted
pub mod Tick
use you_shuang.Base.{
  ℕ, zero, suc, ◌+◌, ◌*◌, Bool, true, false, List, [], ◌∷◌, ◌++◌, Option, none, some, ltb, leb,
  ◌==◌, if◌then◌else◌, Run, ok, fault, ◌>>=◌, or_fault,
}
use you_shuang.Nodes.{Node, NodeMemory, at, set_next, set_prev, delete, points_to}

-- What a timer is for; the callback is named by a number, and `none` is a null pointer.
pub record Task : Type 0 where
  pub expire : ℕ
  pub cb_func : Option ℕ
  pub user_data : ℕ

abbrev UtilTimer : Type 0
UtilTimer = Node Task

abbrev pub Memory : Type 0
Memory = NodeMemory Task

pub record TimerList : Type 0 where
  pub head : Option ℕ
  pub tail : Option ℕ
  pub memory : Memory

-- The timer goes between `prev` and `tmp`.
link_before : Memory → ℕ → ℕ → ℕ → Run Memory
link_before m timer prev tmp = do
  a ← set_next m (some prev) (some timer)
  b ← set_next a (some timer) (some tmp)
  c ← set_prev b (some tmp) (some timer)
  set_prev c (some timer) (some prev)

-- The timer goes behind `prev`, which is the last.
link_last : TimerList → ℕ → ℕ → Run TimerList
link_last l timer prev = do
  a ← set_next l.memory (some prev) (some timer)
  b ← set_prev a (some timer) (some prev)
  c ← set_next b (some timer) none
  ok (record l { memory = c; tail = some timer })

-- The loop of the private add_timer, with the rounds that may be left.
pub add_loop : ℕ → TimerList → ℕ → ℕ → Option ℕ → Run TimerList
add_loop zero l timer prev tmp = fault
add_loop (suc fuel) l timer prev none = link_last l timer prev
add_loop (suc fuel) l timer prev (some tmp) = do
  t ← at l.memory (some timer)
  n ← at l.memory (some tmp)
  let go_on = add_loop fuel l timer tmp n.next
  let here = (do m ← link_before l.memory timer prev tmp; ok (record l { memory = m }))
  if ltb t.task.expire n.task.expire then here else go_on

-- The private add_timer, behind `lst_head`. `fuel` bounds the nodes of the list.
add_behind : ℕ → TimerList → ℕ → Option ℕ → Run TimerList
add_behind fuel l timer none = fault
add_behind fuel l timer (some p) = do n ← at l.memory (some p); add_loop fuel l timer p n.next

add_front : TimerList → ℕ → Run TimerList
add_front l timer = do
  a ← set_next l.memory (some timer) l.head
  b ← set_prev a l.head (some timer)
  ok (record l { memory = b; head = some timer })

add_to : ℕ → TimerList → ℕ → Option ℕ → Run TimerList
add_to fuel l timer none = ok (record l { head = some timer; tail = some timer })
add_to fuel l timer (some p) = do
  t ← at l.memory (some timer)
  n ← at l.memory (some p)
  if ltb t.task.expire n.task.expire then add_front l timer else add_behind fuel l timer (some p)

unfoldable pub add_timer : ℕ → TimerList → Option ℕ → Run TimerList
unfolding add_to add_front add_behind add_loop link_last link_before
add_timer fuel l none = ok l
add_timer fuel l (some timer) = add_to fuel l timer l.head

-- The branch of adjust_timer for the head of the list.
adjust_head : ℕ → TimerList → ℕ → Run TimerList
adjust_head fuel l timer = do
  h ← at l.memory l.head
  a ← set_prev l.memory h.next none
  b ← set_next a (some timer) none
  add_behind fuel (record l { head = h.next; memory = b }) timer h.next

-- `timer->prev->next = timer->next; timer->next->prev = timer->prev`
pub unlink : Memory → ℕ → Run Memory
unlink m timer = do
  t ← at m (some timer)
  a ← set_next m t.prev t.next
  u ← at a (some timer)
  set_prev a u.next u.prev

adjust_inner : ℕ → TimerList → ℕ → Run TimerList
adjust_inner fuel l timer = do
  m ← unlink l.memory timer
  t ← at m (some timer)
  add_behind fuel (record l { memory = m }) timer t.next

adjust_before : ℕ → TimerList → ℕ → Option ℕ → Run TimerList
adjust_before fuel l timer none = ok l
adjust_before fuel l timer (some tmp) = do
  t ← at l.memory (some timer)
  n ← at l.memory (some tmp)
  let move = if points_to l.head timer then adjust_head fuel l timer else adjust_inner fuel l timer
  if ltb t.task.expire n.task.expire then ok l else move

pub adjust_timer : ℕ → TimerList → Option ℕ → Run TimerList
unfolding adjust_before
adjust_timer fuel l none = ok l
adjust_timer fuel l (some timer) = do
  t ← at l.memory (some timer)
  adjust_before fuel l timer t.next

del_only : TimerList → ℕ → Run TimerList
del_only l timer = do
  m ← delete l.memory timer
  ok (record { head = none; tail = none; memory = m })

del_head : TimerList → ℕ → Run TimerList
del_head l timer = do
  h ← at l.memory l.head
  a ← set_prev l.memory h.next none
  m ← delete a timer
  ok (record l { head = h.next; memory = m })

del_tail : TimerList → ℕ → Run TimerList
del_tail l timer = do
  t ← at l.memory l.tail
  a ← set_next l.memory t.prev none
  m ← delete a timer
  ok (record l { tail = t.prev; memory = m })

del_inner : TimerList → ℕ → Run TimerList
del_inner l timer = do a ← unlink l.memory timer; m ← delete a timer; ok (record l { memory = m })

unfoldable pub del_timer : TimerList → Option ℕ → Run TimerList
unfolding del_only del_head del_tail del_inner unlink
del_timer l none = ok l
del_timer l (some timer) =
    if points_to l.head timer
    then (if points_to l.tail timer then del_only l timer else del_head l timer)
    else (if points_to l.tail timer then del_tail l timer else del_inner l timer)

-- The calls of callbacks: the function and its argument.
abbrev pub Calls : Type 0
Calls = List (ℕ × ℕ)

-- `head = tmp->next`, whose `prev` becomes null if it is there.
advance : Memory → Option ℕ → Run Memory
advance m none = ok m
advance m (some p) = set_prev m (some p) none

-- The loop of tick, with the rounds that may be left. A null callback is a fault.
tick_loop : ℕ → ℕ → Calls → TimerList → Option ℕ → Run (TimerList × Calls)
tick_loop zero cur log l tmp = fault
tick_loop (suc fuel) cur log l none = ok (l, log)
tick_loop (suc fuel) cur log l (some tmp) = do
  n ← at l.memory (some tmp)
  let round = (do
    f ← or_fault n.task.cb_func
    a ← advance l.memory n.next
    m ← delete a tmp
    tick_loop fuel cur (log ++ ((f, n.task.user_data) ∷ []))
        (record l { head = n.next; memory = m }) n.next)
  if ltb cur n.task.expire then ok (l, log) else round

unfoldable pub tick : ℕ → TimerList → ℕ → Run (TimerList × Calls)
unfolding tick_loop advance
tick fuel l cur = tick_loop fuel cur [] l l.head

-- The loop of the destructor.
destroy_loop : ℕ → TimerList → Option ℕ → Run TimerList
destroy_loop zero l tmp = fault
destroy_loop (suc fuel) l none = ok l
destroy_loop (suc fuel) l (some tmp) = do
  n ← at l.memory (some tmp)
  m ← delete l.memory tmp
  destroy_loop fuel (record l { head = n.next; memory = m }) n.next

unfoldable pub destroy : ℕ → TimerList → Run TimerList
unfolding destroy_loop
destroy fuel l = destroy_loop fuel l l.head
