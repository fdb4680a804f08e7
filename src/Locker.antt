-- ===== src/Locker.antt =====
-- 14-2 locker.h: the classes that wrap a semaphore and a mutex of pthreads.
use you_shuang.Base.{◌≡◌, Bool, true, false, Option, none, some, if◌then◌else◌}

-- What pthreads gives; a new semaphore is one that sem_init sets to 0. A call that would block gives
-- nothing.
pub record Pthreads : Type 1 where
  pub Mutex : Type 0
  pub new_mutex : Mutex
  pub lock_mutex : Mutex → Option Mutex
  pub unlock_mutex : Mutex → Mutex
  pub Semaphore : Type 0
  pub new_semaphore : Semaphore
  pub wait_semaphore : Semaphore → Option Semaphore
  pub post_semaphore : Semaphore → Semaphore

-- What its manual says: a mutex starts free, to lock it makes it held, and to lock it while it is held
-- blocks the caller, also the one that holds it; a wait on a semaphore that stands at 0 blocks.
pub record IsPthreads (P : Pthreads) : Type 0 where
  pub is_held : P.Mutex → Bool
  pub new_free : is_held P.new_mutex ≡ false
  pub lock_free :
      (m m' : P.Mutex) → is_held m ≡ false → P.lock_mutex m ≡ some m' → is_held m' ≡ true
  pub lock_held : (m : P.Mutex) → is_held m ≡ true → P.lock_mutex m ≡ none
  pub new_blocks : P.wait_semaphore P.new_semaphore ≡ none

module _ (P : Pthreads) where
  -- The members of `locker`.
  unfoldable pub lock : P.Mutex → Option P.Mutex
  lock m = P.lock_mutex m

  unfoldable pub unlock : P.Mutex → Option P.Mutex
  unlock m = P.lock_mutex m

  waited : Option P.Semaphore → Option (P.Semaphore × Bool)
  waited none = none
  waited (some s) = some (s, true)

  -- The members of `sem`. sem_wait fails, and leaves the semaphore, if the handler of a signal
  -- interrupts it.
  unfoldable pub wait : Bool → P.Semaphore → Option (P.Semaphore × Bool)
  unfolding waited
  wait interrupted s = if interrupted then some (s, false) else waited (P.wait_semaphore s)

  unfoldable pub post : P.Semaphore → P.Semaphore
  post s = P.post_semaphore s
