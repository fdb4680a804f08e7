-- ===== src/TimeHeap.antt =====
-- 11-6 timeHeap.h: timers in a binary heap by their time of expiry. The array holds pointers, and
-- the timers stand in a memory where `delete` leaves nothing at their address.
pub mod Order
pub mod Down
pub mod Add
pub mod Resize
pub mod Pop
pub mod Tick
pub mod Build
use you_shuang.Base.{
  update, ℕ, zero, suc, ◌+◌, ◌-◌, ◌*◌, ◌/◌, Bool, true, false, List, [], ◌∷◌, ◌++◌, Option, none,
  some, ltb, leb, ◌==◌, if◌then◌else◌, Run, ok, fault, ◌>>=◌, or_fault, length, replicate, load,
  store,
}

-- The callback is named by a number, and `none` is a null pointer.
pub record Timer : Type 0 where
  pub expire : ℕ
  pub cb_func : Option ℕ
  pub user_data : ℕ

-- What stands at an address; `none` where nothing was allocated or it was deleted.
abbrev pub Memory : Type 0
Memory = ℕ → Option Timer

abbrev pub Array : Type 0
Array = List (Option ℕ)

pub record TimeHeap : Type 0 where
  pub array : Array
  pub capacity : ℕ
  pub cur_size : ℕ
  pub memory : Memory

-- `p->expire`
unfoldable pub expire_of : Memory → Option ℕ → Run ℕ
expire_of m o = do p ← or_fault o; t ← or_fault (m p); ok t.expire

-- `array[i]->expire`
unfoldable pub expire_at : Memory → Array → ℕ → Run ℕ
expire_at m a i = load a i >>= expire_of m

abbrev pub parent : ℕ → ℕ
parent c = (c - 1) / 2

-- The child with the earlier expiry; the right one is read only if it is there.
choose_child : Memory → ℕ → Array → ℕ → Run ℕ
choose_child m n a child =
    if ltb (child + 1) n
    then (do
      r ← expire_at m a (child + 1)
      l ← expire_at m a child
      ok (if ltb r l then child + 1 else child))
    else ok child

-- The test `hole * 2 + 1 <= cur_size - 1`, on ints, is `hole * 2 + 1 < cur_size`.
percolate_loop : ℕ → Memory → ℕ → Option ℕ → Array → ℕ → Run Array
percolate_loop zero m n temp a hole = fault
percolate_loop (suc fuel) m n temp a hole =
    let settle = store a hole temp in
    let round = (do
      child ← choose_child m n a (hole * 2 + 1)
      c ← expire_at m a child
      t ← expire_of m temp
      let sink = (do
        moved ← load a child
        b ← store a hole moved
        percolate_loop fuel m n temp b child)
      if ltb c t then sink else settle) in
    if ltb (hole * 2 + 1) n then round else settle

unfoldable pub percolate_down : Memory → ℕ → Array → ℕ → Run Array
unfolding percolate_loop choose_child expire_at expire_of
percolate_down m n a hole = load a hole >>= λ temp. percolate_loop (n + 1) m n temp a hole

-- Constructor 1: an empty heap.
unfoldable pub new : Memory → ℕ → TimeHeap
new m cap = record { array = replicate cap none; capacity = cap; cur_size = 0; memory = m }

-- The `for` of constructor 2 from `i` down to 0, with `i + 1` rounds left.
heapify : Memory → ℕ → ℕ → Array → Run Array
heapify m n zero a = ok a
heapify m n (suc i) a = percolate_down m n a i >>= heapify m n i

copy_into : Array → ℕ → Array → Run Array
copy_into a i [] = ok a
copy_into a i (p ∷ ps) = store a i p >>= λ b. copy_into b (i + 1) ps

-- Constructor 2: a heap of the timers of an array. `none` is the exception that it throws.
unfoldable pub from_array : Memory → Array → ℕ → Run (Option TimeHeap)
unfolding copy_into heapify
from_array m init_array capacity =
    let size = length init_array in
    if ltb capacity size then ok none else (do
      filled ← copy_into (replicate capacity none) 0 init_array
      array ← if size == 0 then ok filled else heapify m size ((size - 1) / 2 + 1) filled
      ok (some (record { array = array; capacity = capacity; cur_size = size; memory = m })))

-- `delete` of a pointer; of a null pointer it does nothing, of a dangling one it is a fault.
delete : Memory → Option ℕ → Run Memory
delete m none = ok m
delete m (some p) = or_fault (m p) >>= λ t. ok (update m p none)

-- Each of the first `n` pointers is copied, and then what it points to is deleted.
move_and_delete : ℕ → ℕ → Memory → Array → Array → Run (Memory × Array)
move_and_delete zero i m a temp = ok (m, temp)
move_and_delete (suc n) i m a temp = do
  p ← load a i
  temp' ← store temp i p
  m' ← delete m p
  move_and_delete n (i + 1) m' a temp'

unfoldable pub resize : TimeHeap → Run TimeHeap
unfolding move_and_delete delete
resize h = do
  (m, temp) ← move_and_delete h.cur_size 0 h.memory h.array (replicate (2 * h.capacity) none)
  ok (record { array = temp; capacity = 2 * h.capacity; cur_size = h.cur_size; memory = m })

-- The walk from the new hole towards the root; the timer is put in where it ends.
rise : ℕ → Memory → ℕ → Array → ℕ → Run Array
rise zero m timer a hole = fault
rise (suc fuel) m timer a hole =
    let settle = store a hole (some timer) in
    let round = (do
      e ← expire_at m a (parent hole)
      t ← expire_of m (some timer)
      let up = (do
        moved ← load a (parent hole)
        b ← store a hole moved
        rise fuel m timer b (parent hole))
      if leb e t then settle else up) in
    if ltb 0 hole then round else settle

insert_timer : TimeHeap → ℕ → Run TimeHeap
insert_timer h timer = do
  a ← rise (h.cur_size + 1) h.memory timer h.array h.cur_size
  ok (record h { array = a; cur_size = h.cur_size + 1 })

unfoldable pub add_timer : TimeHeap → Option ℕ → Run TimeHeap
unfolding insert_timer rise expire_at expire_of
add_timer h none = ok h
add_timer h (some timer) =
    (if leb h.capacity h.cur_size then resize h else ok h) >>= λ g. insert_timer g timer

unfoldable pub del_timer : TimeHeap → Option ℕ → Run TimeHeap
del_timer h none = ok h
del_timer h (some p) = do
  t ← or_fault (h.memory p)
  ok (record h { memory = update h.memory p (some (record t { cb_func = none })) })

unfoldable pub top : TimeHeap → Run (Option ℕ)
top h = if h.cur_size == 0 then ok none else load h.array 0

pop_first : TimeHeap → Option ℕ → Run TimeHeap
pop_first h none = ok h
pop_first h (some p) = do
  m ← delete h.memory (some p)
  last ← load h.array (h.cur_size - 1)
  a ← store h.array 0 last
  b ← percolate_down m (h.cur_size - 1) a 0
  ok (record { array = b; capacity = h.capacity; cur_size = h.cur_size - 1; memory = m })

unfoldable pub pop_timer : TimeHeap → Run TimeHeap
unfolding pop_first delete
pop_timer h = if h.cur_size == 0 then ok h else load h.array 0 >>= pop_first h

-- The calls of callbacks: the function and its argument.
abbrev pub Calls : Type 0
Calls = List (ℕ × ℕ)

call : Calls → Timer → Option ℕ → Calls
call log t none = log
call log t (some f) = log ++ ((f, t.user_data) ∷ [])

-- The body of the loop, and how the loop goes on after it.
tick_body :
    (TimeHeap → Option ℕ → Calls → Run (TimeHeap × Calls))
    → ℕ
    → Calls
    → TimeHeap
    → Option ℕ
    → Run (TimeHeap × Calls)
tick_body go_on cur log h none = ok (h, log)
tick_body go_on cur log h (some p) = do
  t ← or_fault (h.memory p)
  let round = (do g ← pop_timer h; next ← load g.array 0; go_on g next (call log t t.cb_func))
  if ltb cur t.expire then ok (h, log) else round

-- The loop of tick; to run out of fuel is a fault here.
tick_loop : ℕ → ℕ → Calls → TimeHeap → Option ℕ → Run (TimeHeap × Calls)
tick_loop zero cur log h tmp = if h.cur_size == 0 then ok (h, log) else fault
tick_loop (suc n) cur log h tmp =
    let body = tick_body (λ g next calls. tick_loop n cur calls g next) cur log h tmp in
    if h.cur_size == 0 then ok (h, log) else body

unfoldable pub tick : TimeHeap → ℕ → Run (TimeHeap × Calls)
unfolding tick_loop tick_body call
tick h cur = load h.array 0 >>= tick_loop h.cur_size cur [] h
