-- ===== src/TimeWheel.antt =====
-- 11-5 time_wheel_timer.h: timers in the slots of a wheel, each slot with a doubly linked list.
pub mod Sweep
pub mod Inner
pub mod Behind
pub mod Loop
pub mod Front
pub mod Wheel
pub mod Dangling
pub mod Add
pub mod Rising
pub mod Members
pub mod Only
pub mod Fires
use you_shuang.Base.{
  ℕ, zero, suc, ◌+◌, ◌-◌, ◌*◌, ◌/◌, ◌%◌, Bool, true, false, List, [], ◌∷◌, ◌++◌, Option, none, some,
  ltb, leb, ◌==◌, if◌then◌else◌, Run, ok, fault, ◌>>=◌, or_fault, update, replicate, load, store,
}
use you_shuang.Base.Int.{ℤ, pos, negsuc}
use you_shuang.Nodes.{Node, NodeMemory, at, set_next, set_prev, delete, points_to}

-- The constants N and SI.
abbrev pub slot_count : ℕ
slot_count = 60

abbrev pub slot_interval : ℕ
slot_interval = 1

-- What a timer is for; the callback is named by a number. The constructor leaves it and its argument
-- unset, which is `none`.
pub record TwTask : Type 0 where
  pub rotation : ℕ
  pub time_slot : ℕ
  pub cb_func : Option ℕ
  pub user_data : Option ℕ

abbrev pub TwTimer : Type 0
TwTimer = Node TwTask

abbrev pub Memory : Type 0
Memory = NodeMemory TwTask

pub record TimeWheel : Type 0 where
  pub slots : List (Option ℕ)
  pub cur_slot : ℕ
  pub memory : Memory

-- The constructor, in a memory.
abbrev new_wheel : Memory → TimeWheel
new_wheel m = record { slots = replicate slot_count none; cur_slot = 0; memory = m }

abbrev pub new_task : ℕ → ℕ → TwTask
new_task rot ts = record { rotation = rot; time_slot = ts; cb_func = none; user_data = none }

-- `o->prev = v` if `o` is not null.
pub relink : Memory → Option ℕ → Option ℕ → Run Memory
relink m none v = ok m
relink m (some p) v = set_prev m (some p) v

-- The number of ticks for a time-out.
abbrev pub ticks_for : ℕ → ℕ
ticks_for timeout = if ltb timeout slot_interval then 1 else timeout / slot_interval

-- The timer goes to the front of the slot `ts`.
pub insert_front : TimeWheel → ℕ → ℕ → Option ℕ → Run TimeWheel
insert_front w timer ts none = do
  slots ← store w.slots ts (some timer)
  ok (record w { slots = slots })
insert_front w timer ts (some p) = do
  a ← set_next w.memory (some timer) (some p)
  b ← set_prev a (some p) (some timer)
  slots ← store w.slots ts (some timer)
  ok (record w { slots = slots; memory = b })

-- `new` gives the address `timer`.
unfoldable pub add_timer : ℕ → ℤ → TimeWheel → Run (TimeWheel × Option ℕ)
unfolding insert_front
add_timer timer (negsuc n) w = ok (w, none)
add_timer timer (pos timeout) w =
    let ticks = ticks_for timeout in
    let ts = (w.cur_slot + ticks % slot_count) % slot_count in
    let fresh : TwTimer = record {
      task = new_task (ticks / slot_count) ts;
      prev = none;
      next = none;
    } in
    do
      head ← load w.slots ts
      v ← insert_front (record w { memory = update w.memory timer (some fresh) }) timer ts head
      ok (v, some timer)

del_first : TimeWheel → ℕ → ℕ → Option ℕ → Run TimeWheel
del_first w timer ts head = do
  h ← at w.memory head
  slots ← store w.slots ts h.next
  a ← relink w.memory h.next none
  m ← delete a timer
  ok (record w { slots = slots; memory = m })

-- `timer->prev->next = timer->next`, and back if there is a next one.
pub unlink : Memory → ℕ → Run Memory
unlink m timer = do
  t ← at m (some timer)
  a ← set_next m t.prev t.next
  u ← at a (some timer)
  relink a u.next u.prev

del_inner : TimeWheel → ℕ → Run TimeWheel
del_inner w timer = do a ← unlink w.memory timer; m ← delete a timer; ok (record w { memory = m })

unfoldable pub del_timer : TimeWheel → Option ℕ → Run TimeWheel
unfolding del_first del_inner
del_timer w none = ok w
del_timer w (some timer) = do
  t ← at w.memory (some timer)
  head ← load w.slots t.task.time_slot
  if points_to head timer then del_first w timer t.task.time_slot head else del_inner w timer

abbrev pub Calls : Type 0
Calls = List (ℕ × ℕ)

-- `delete` of a pointer that may be null.
pub delete_pointer : Memory → Option ℕ → Run Memory
delete_pointer m none = ok m
delete_pointer m (some p) = delete m p

-- A timer has expired: the head of the current slot, or one behind it. Either gives the state and
-- the timer that the loop of tick goes on with.
pub expire_head : TimeWheel → ℕ → Run (TimeWheel × Option ℕ)
expire_head w tmp = do
  t ← at w.memory (some tmp)
  slots ← store w.slots w.cur_slot t.next
  a ← delete w.memory tmp
  head ← load slots w.cur_slot
  b ← relink a head none
  ok (record w { slots = slots; memory = b }, head)

pub expire_inner : TimeWheel → ℕ → Run (TimeWheel × Option ℕ)
expire_inner w tmp = do
  a ← unlink w.memory tmp
  t ← at a (some tmp)
  b ← delete a tmp
  c ← delete_pointer b t.next
  ok (record w { memory = c }, t.next)

pub expire : TimeWheel → ℕ → Run (TimeWheel × Option ℕ)
expire w tmp = do
  head ← load w.slots w.cur_slot
  if points_to head tmp then expire_head w tmp else expire_inner w tmp

abbrev pub turn_back : TwTimer → TwTimer
turn_back t = record t { task = record t.task { rotation = t.task.rotation - 1 } }

-- The loop of tick, with the rounds that may be left.
pub tick_loop : ℕ → TimeWheel → Calls → Option ℕ → Run (TimeWheel × Calls)
tick_loop zero w log tmp = fault
tick_loop (suc fuel) w log none = ok (w, log)
tick_loop (suc fuel) w log (some tmp) = do
  t ← at w.memory (some tmp)
  let waits =
      tick_loop fuel (record w { memory = update w.memory tmp (some (turn_back t)) }) log t.next
  let expires = (do
    f ← or_fault t.task.cb_func
    d ← or_fault t.task.user_data
    r ← expire w tmp
    tick_loop fuel r.0 (log ++ ((f, d) ∷ [])) r.1)
  if ltb 0 t.task.rotation then waits else expires

unfoldable pub tick : ℕ → TimeWheel → Run (TimeWheel × Calls)
unfolding tick_loop expire expire_head expire_inner unlink relink delete_pointer
tick fuel w = do
  head ← load w.slots w.cur_slot
  r ← tick_loop fuel w [] head
  ok (record r.0 { cur_slot = (r.0.cur_slot + 1) % slot_count }, r.1)

-- The loop of the destructor over the timers of the slot `i`.
destroy_slot : ℕ → ℕ → TimeWheel → Option ℕ → Run TimeWheel
destroy_slot zero i w tmp = fault
destroy_slot (suc fuel) i w none = ok w
destroy_slot (suc fuel) i w (some tmp) = do
  t ← at w.memory (some tmp)
  slots ← store w.slots i t.next
  m ← delete w.memory tmp
  head ← load slots i
  destroy_slot fuel i (record w { slots = slots; memory = m }) head

-- The loop over the slots from `i`, `n` of them.
destroy_slots : ℕ → ℕ → ℕ → TimeWheel → Run TimeWheel
unfolding destroy_slot
destroy_slots fuel zero i w = ok w
destroy_slots fuel (suc n) i w = do
  head ← load w.slots i
  v ← destroy_slot fuel i w head
  destroy_slots fuel n (i + 1) v

destroy : ℕ → TimeWheel → Run TimeWheel
unfolding destroy_slots
destroy fuel w = destroy_slots fuel slot_count 0 w
