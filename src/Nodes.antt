-- ===== src/Nodes.antt =====
-- The nodes of the doubly linked lists of timers in 11-2 lst_timer.h and 11-5 time_wheel_timer.h. They
-- stand in a memory where `delete` leaves nothing at their address.
pub mod Chain
use you_shuang.Base.{
  ℕ, Bool, false, Option, none, some, ◌==◌, if◌then◌else◌, Run, ok, fault, ◌>>=◌, or_fault, update,
}

-- A timer with its links; a null pointer is `none`.
pub record Node (A : Type 0) : Type 0 where
  pub task : A
  pub prev : Option ℕ
  pub next : Option ℕ

abbrev pub NodeMemory : Type 0 → Type 0
NodeMemory A = ℕ → Option (Node A)

module _ {A : Type 0} where
  -- `*p`; a null or dangling pointer is a fault.
  unfoldable pub at : NodeMemory A → Option ℕ → Run (Node A)
  at m o = do p ← or_fault o; or_fault (m p)

  -- `p->next = v` and `p->prev = v`
  unfoldable pub set_next : NodeMemory A → Option ℕ → Option ℕ → Run (NodeMemory A)
  set_next m o v = do
    p ← or_fault o
    n ← or_fault (m p)
    ok (update m p (some (record n { next = v })))

  unfoldable pub set_prev : NodeMemory A → Option ℕ → Option ℕ → Run (NodeMemory A)
  set_prev m o v = do
    p ← or_fault o
    n ← or_fault (m p)
    ok (update m p (some (record n { prev = v })))

  unfoldable pub delete : NodeMemory A → ℕ → Run (NodeMemory A)
  delete m p = do n ← or_fault (m p); ok (update m p none)

-- `o == p` for a pointer `p` that is not null.
unfoldable pub points_to : Option ℕ → ℕ → Bool
points_to none p = false
points_to (some q) p = q == p
