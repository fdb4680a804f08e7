-- ===== src/ThreadPool.antt =====
-- 15-3 threadpool.h: the threads that append requests to the queue, and the workers that take them.
-- Between two steps of a thread any other thread may take steps.
pub mod Moves
pub mod Clients
pub mod Workers
pub mod Stuck
use you_shuang.Base.{
  ℕ, ◌+◌, ◌<◌, ◌≡◌, Bool, true, false, List, [], ◌∷◌, ◌++◌, Option, none, some, ltb, ◌==◌,
  if◌then◌else◌, length,
}
use you_shuang.Locker.{Pthreads, lock, unlock, wait, post}

-- Where a thread stands in append(request).
pub data Append : Type 0 where
  at_lock at_push : Option ℕ → Append
  at_refuse at_unlock at_post : Append
  returned : Bool → Append

-- Where a worker stands in run().
pub data Worker : Type 0 where
  at_test at_wait at_worker_lock at_take at_skip ended : Worker
  at_release at_process : Option ℕ → Worker

module _ (P : Pthreads) where
  -- A request is a pointer, which may be null; `processed` are those whose process() was called.
  pub record Pool : Type 0 where
    pub max_requests : ℕ
    pub stop : Bool
    pub queuestat : P.Semaphore
    pub queuelocker : P.Mutex
    pub workqueue : List (Option ℕ)
    pub processed : List ℕ

  -- The constructor, with the queue that it leaves; the threads that it creates are workers of the
  -- state below.
  abbrev pub new_pool : ℕ → Pool
  new_pool max_requests = record {
    max_requests = max_requests;
    stop = false;
    queuestat = P.new_semaphore;
    queuelocker = P.new_mutex;
    workqueue = [];
    processed = [];
  }

  -- A thread moves on behind a call of the locker, if the call does not block.
  behind_call : {A : Type 0} → Pool → A → Option P.Mutex → Option (Pool × A)
  behind_call p next none = none
  behind_call p next (some m) = some (record p { queuelocker = m }, next)

  -- One step of append, which is nothing where the thread blocks or has returned.
  unfoldable pub append_step : Pool → Append → Option (Pool × Append)
  unfolding behind_call
  append_step p (at_lock request) = behind_call p (at_push request) (lock P p.queuelocker)
  append_step p (at_push request) =
      if ltb p.max_requests (length p.workqueue)
      then some (p, at_refuse)
      else some (record p { workqueue = p.workqueue ++ (request ∷ []) }, at_unlock)
  append_step p at_refuse = behind_call p (returned false) (unlock P p.queuelocker)
  append_step p at_unlock = behind_call p at_post (unlock P p.queuelocker)
  append_step p at_post = some (record p { queuestat = post P p.queuestat }, returned true)
  append_step p (returned b) = none

  -- What wait() returns is not looked at.
  behind_wait : Pool → Option (P.Semaphore × Bool) → Option (Pool × Worker)
  behind_wait p none = none
  behind_wait p (some (s, waited)) = some (record p { queuestat = s }, at_worker_lock)

  -- The request is taken from the front of the queue, if there is one.
  take_request : Pool → List (Option ℕ) → Pool × Worker
  take_request p [] = (p, at_skip)
  take_request p (request ∷ rest) = (record p { workqueue = rest }, at_release request)

  next_of : Option ℕ → Worker
  next_of none = at_test
  next_of (some request) = at_process (some request)

  call_process : Pool → Option ℕ → Pool
  call_process p none = p
  call_process p (some request) = record p { processed = p.processed ++ (request ∷ []) }

  -- One step of run, which says whether a signal interrupts it in wait().
  unfoldable pub run_step : Bool → Pool → Worker → Option (Pool × Worker)
  unfolding behind_call behind_wait take_request next_of call_process
  run_step interrupted p at_test = if p.stop then some (p, ended) else some (p, at_wait)
  run_step interrupted p at_wait = behind_wait p (wait P interrupted p.queuestat)
  run_step interrupted p at_worker_lock = behind_call p at_take (lock P p.queuelocker)
  run_step interrupted p at_take = some (take_request p p.workqueue)
  run_step interrupted p at_skip = behind_call p at_test (unlock P p.queuelocker)
  run_step interrupted p (at_release request) =
      behind_call p (next_of request) (unlock P p.queuelocker)
  run_step interrupted p (at_process request) = some (call_process p request, at_test)
  run_step interrupted p ended = none

  -- The pool, the threads that append, and the workers, both by number.
  pub record State : Type 0 where
    pub pool : Pool
    pub clients : ℕ → Append
    pub workers : ℕ → Worker

  abbrev pub at_thread : {A : Type 0} → (ℕ → A) → ℕ → A → ℕ → A
  at_thread f i a j = if i == j then a else f j

  -- A thread takes a step, a thread whose call has returned calls append again, or the destructor
  -- stops the workers.
  pub data Step (s : State) : State → Type 0 where
    client_moves :
        (i : ℕ) (p : Pool) (c : Append)
        → append_step s.pool (s.clients i) ≡ some (p, c)
        → Step s (record { pool = p; clients = at_thread s.clients i c; workers = s.workers })
    worker_moves :
        (i : ℕ) (interrupted : Bool) (p : Pool) (c : Worker)
        → run_step interrupted s.pool (s.workers i) ≡ some (p, c)
        → Step s (record { pool = p; clients = s.clients; workers = at_thread s.workers i c })
    appends_again :
        (i : ℕ) (b : Bool) (request : Option ℕ)
        → s.clients i ≡ returned b
        → Step s (record {
          pool = s.pool;
          clients = at_thread s.clients i (at_lock request);
          workers = s.workers;
        })
    stops :
        Step s (record {
          pool = record s.pool { stop = true };
          clients = s.clients;
          workers = s.workers;
        })

  -- What comes of a new pool, with a request for each thread that appends.
  pub data Reachable (max_requests : ℕ) (requests : ℕ → Option ℕ) : State → Type 0 where
    begun : Reachable max_requests requests (record {
      pool = new_pool max_requests;
      clients = λ i. at_lock (requests i);
      workers = λ i. at_test;
    })
    step :
        (s t : State)
        → Reachable max_requests requests s
        → Step s t
        → Reachable max_requests requests t
