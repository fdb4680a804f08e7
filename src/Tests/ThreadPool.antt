-- ===== src/Tests/ThreadPool.antt =====
-- Tests of ThreadPool.
use you_shuang.Base.{
  ℕ, zero, suc, ◌≤◌, ◌≡◌, ◌≢◌, refl, Bool, true, false, [], Option, none, some, length,
  if◌then◌else◌, ◌==◌,
}
use you_shuang.Locker.{Pthreads, IsPthreads, lock}
use you_shuang.ThreadPool.{
  returned, at_lock, at_push, State, new_pool, Reachable, begun, step, client_moves, append_step,
  at_test,
}
use you_shuang.ThreadPool.Stuck.{threads-block}

-- A mutex that is a flag, and a semaphore that is a number.
abbrev take_flag : Bool → Option Bool
take_flag false = some true
take_flag true = none

abbrev count_down : ℕ → Option ℕ
count_down zero = none
count_down (suc n) = some n

abbrev flags : Pthreads
flags = record {
  Mutex = Bool;
  new_mutex = false;
  lock_mutex = take_flag;
  unlock_mutex = λ m. false;
  Semaphore = ℕ;
  new_semaphore = 0;
  wait_semaphore = count_down;
  post_semaphore = suc;
}

flags-IsPthreads : IsPthreads flags
flags-IsPthreads = record {
  is_held = λ m. m;
  new_free = refl;
  lock_free = lock_free;
  lock_held = lock_held;
  new_blocks = refl;
}
  where
    lock_free : (m n : Bool) → m ≡ false → take_flag m ≡ some n → n ≡ true
    lock_free false n e f = cc
    lock_free true n e f = cc

    lock_held : (m : Bool) → m ≡ true → take_flag m ≡ none
    lock_held true e = refl
    lock_held false e = cc

abbrev first_state : State flags
first_state = record {
  pool = new_pool flags 10;
  clients = λ i. at_lock (some i);
  workers = λ i. at_test;
}

-- The first thread has the mutex.
abbrev locked : State flags
locked = record {
  pool = record (new_pool flags 10) { queuelocker = true };
  clients = λ i. if 0 == i then at_push (some 0) else at_lock (some i);
  workers = λ i. at_test;
}

locked-Reachable : Reachable flags 10 some locked
unfolding append_step lock
locked-Reachable =
    step first_state locked begun
      (client_moves 0 (record (new_pool flags 10) { queuelocker = true }) (at_push (some 0)) refl)

threads-block_example :
    ((i : ℕ) (b : Bool) → locked.clients i ≢ returned b)
    × (locked.pool.processed ≡ [])
    × (length locked.pool.workqueue ≤ 1)
threads-block_example = threads-block flags flags-IsPthreads 10 some locked locked-Reachable
