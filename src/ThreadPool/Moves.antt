-- ===== src/ThreadPool/Moves.antt =====
-- What a thread of 15-3 threadpool.h can do where the mutex is free, or held for ever.
use mathlib.Core.Path.{subst}
use mathlib.Core.Option.{some_inj}
use you_shuang.Base.{
  ℕ, ◌≤◌, ◌≡◌, refl, ap, ◌∙◌, Bool, true, false, ◌⊎◌, inl, inr, List, [], ◌∷◌, ◌++◌, Option, none,
  some, arith, ltb, if◌then◌else◌, length, Option-cases,
}
use you_shuang.Locker.{Pthreads, IsPthreads, lock, unlock, wait}
use you_shuang.ThreadPool.{
  Append, at_lock, at_push, at_refuse, at_unlock, at_post, returned, Worker, at_test, at_wait,
  at_worker_lock, at_take, at_skip, ended, at_release, at_process, Pool, append_step, run_step,
}

abbrev pub IsStarting : Append → Type 0
IsStarting (at_lock request) = Unit {0}
IsStarting _ = ⊥

-- Where a thread holds the mutex, with the queue.
abbrev pub IsHolder : Append → List (Option ℕ) → Type 0
IsHolder (at_push request) queue = queue ≡ []
IsHolder at_unlock queue = (request : Option ℕ) × (queue ≡ request ∷ [])
IsHolder _ queue = ⊥

abbrev pub IsIdle : Worker → Type 0
IsIdle at_test = Unit {0}
IsIdle at_wait = Unit {0}
IsIdle at_worker_lock = Unit {0}
IsIdle ended = Unit {0}
IsIdle _ = ⊥

-- Where a worker holds the mutex, when the queue is empty.
abbrev pub IsKeeper : Worker → Type 0
IsKeeper at_take = Unit {0}
IsKeeper at_skip = Unit {0}
IsKeeper _ = ⊥

pub idle_not-IsKeeper : (c : Worker) → IsIdle c → ¬ IsKeeper c
idle_not-IsKeeper at_test a k = k
idle_not-IsKeeper at_wait a k = k
idle_not-IsKeeper at_worker_lock a k = k
idle_not-IsKeeper ended a k = k
idle_not-IsKeeper at_take a k = a
idle_not-IsKeeper at_skip a k = a
idle_not-IsKeeper (at_release request) a k = a
idle_not-IsKeeper (at_process request) a k = a

pub holder-short : (c : Append) (queue : List (Option ℕ)) → IsHolder c queue → length queue ≤ 1
holder-short (at_push request) queue a = let e : length queue ≡ 0 = ap length a in omega arith
holder-short at_unlock queue a = let e : length queue ≡ 1 = ap length a.1 in omega arith
holder-short (at_lock request) queue a = absurd a
holder-short at_refuse queue a = absurd a
holder-short at_post queue a = absurd a
holder-short (returned b) queue a = absurd a

module _ (P : Pthreads) (laws : IsPthreads P) where
  abbrev pub held : Pool P → Bool
  held p = laws.is_held p.queuelocker

  pub start-blocks :
      (p : Pool P) (c : Append) → held p ≡ true → IsStarting c → append_step P p c ≡ none
  unfolding append_step lock
  start-blocks p (at_lock request) h a = rw (laws.lock_held p.queuelocker h)
  start-blocks p (at_push request) h a = absurd a
  start-blocks p at_refuse h a = absurd a
  start-blocks p at_unlock h a = absurd a
  start-blocks p at_post h a = absurd a
  start-blocks p (returned b) h a = absurd a

  -- A thread at the start locks the mutex.
  pub record Locks (p : Pool P) (r : Pool P × Append) : Type 0 where
    pub mutex : P.Mutex
    pub pool : r.0 ≡ record p { queuelocker = mutex }
    pub now : laws.is_held mutex ≡ true
    pub next : (q : List (Option ℕ)) → q ≡ [] → IsHolder r.1 q

  pub start-Locks :
      (p : Pool P) (c : Append) (r : Pool P × Append)
      → held p ≡ false
      → IsStarting c
      → append_step P p c ≡ some r
      → Locks p r
  unfolding append_step lock
  start-Locks p (at_lock request) r h a e = elim (Option-cases (P.lock_mutex p.queuelocker)) [
    | inl z ↦ let y : none ≡ some r = rw z at e in cc
    | inr (m, z) ↦
        let y : some (record p { queuelocker = m }, at_push request) ≡ some r = rw z at e in
        subst (Locks p) (some_inj.0 y) (record {
          mutex = m;
          pool = refl;
          now = laws.lock_free p.queuelocker m h z;
          next = λ q i. i;
        })
  ]
  start-Locks p (at_push request) r h a e = absurd a
  start-Locks p at_refuse r h a e = absurd a
  start-Locks p at_unlock r h a e = absurd a
  start-Locks p at_post r h a e = absurd a
  start-Locks p (returned b) r h a e = absurd a

  -- The holder puts its request into the queue, and then blocks.
  pub record Pushes (p : Pool P) (r : Pool P × Append) : Type 0 where
    pub pool : r.0 ≡ record p { workqueue = r.0.workqueue }
    pub next : IsHolder r.1 r.0.workqueue

  pub holder-Pushes :
      (p : Pool P) (c : Append) (r : Pool P × Append)
      → held p ≡ true
      → IsHolder c p.workqueue
      → append_step P p c ≡ some r
      → Pushes p r
  unfolding append_step unlock
  holder-Pushes p (at_lock request) r h a e = absurd a
  holder-Pushes p (at_push request) r h a e =
      let no : ltb p.max_requests (length p.workqueue) ≡ false = ground (arith, ap length a) in
      let y : some (record p { workqueue = p.workqueue ++ (request ∷ []) }, at_unlock) ≡ some r =
        rw no at e in
      subst (Pushes p) (some_inj.0 y)
        (record { pool = refl; next = (request, ap (λ q. q ++ (request ∷ [])) a) })
  holder-Pushes p at_refuse r h a e = absurd a
  holder-Pushes p at_unlock r h a e =
      let y : none ≡ some r = rw (laws.lock_held p.queuelocker h) at e in cc
  holder-Pushes p at_post r h a e = absurd a
  holder-Pushes p (returned b) r h a e = absurd a

  -- A worker that does not hold the mutex tests whether to stop, or comes out of wait() by a signal.
  pub record Idles (p : Pool P) (r : Pool P × Worker) : Type 0 where
    pub pool : r.0 ≡ p
    pub next : IsIdle r.1

  -- It locks the mutex.
  pub record Takes (p : Pool P) (r : Pool P × Worker) : Type 0 where
    pub mutex : P.Mutex
    pub pool : r.0 ≡ record p { queuelocker = mutex }
    pub now : laws.is_held mutex ≡ true
    pub next : IsKeeper r.1

  -- It holds the mutex, and finds the queue empty.
  pub record Keeps (p : Pool P) (r : Pool P × Worker) : Type 0 where
    pub pool : r.0 ≡ p
    pub next : IsKeeper r.1

  test-Idles :
      (p : Pool P) (b : Bool) (r : Pool P × Worker)
      → (if b then some (p, ended) else some (p, at_wait)) ≡ some r
      → Idles p r
  test-Idles p true r e = subst (Idles p) (some_inj.0 e) (record { pool = refl; next = tt })
  test-Idles p false r e = subst (Idles p) (some_inj.0 e) (record { pool = refl; next = tt })

  wait-Idles :
      (interrupted : Bool) (p : Pool P) (r : Pool P × Worker)
      → p.queuestat ≡ P.new_semaphore
      → run_step P interrupted p at_wait ≡ some r
      → Idles p r
  unfolding run_step wait
  wait-Idles true p r u e = subst (Idles p) (some_inj.0 e) (record { pool = refl; next = tt })
  wait-Idles false p r u e =
      let b : P.wait_semaphore p.queuestat ≡ none = ap P.wait_semaphore u ∙ laws.new_blocks in
      let y : none ≡ some r = rw b at e in cc

  -- Where another thread holds the mutex.
  pub worker-Idles :
      (interrupted : Bool) (p : Pool P) (c : Worker) (r : Pool P × Worker)
      → p.queuestat ≡ P.new_semaphore
      → held p ≡ true
      → IsIdle c
      → run_step P interrupted p c ≡ some r
      → Idles p r
  unfolding run_step lock
  worker-Idles interrupted p at_test r u h a e = test-Idles p p.stop r e
  worker-Idles interrupted p at_wait r u h a e = wait-Idles interrupted p r u e
  worker-Idles interrupted p at_worker_lock r u h a e =
      let y : none ≡ some r = rw (laws.lock_held p.queuelocker h) at e in cc
  worker-Idles interrupted p ended r u h a e = cc
  worker-Idles interrupted p at_take r u h a e = absurd a
  worker-Idles interrupted p at_skip r u h a e = absurd a
  worker-Idles interrupted p (at_release request) r u h a e = absurd a
  worker-Idles interrupted p (at_process request) r u h a e = absurd a

  -- Where the mutex is free.
  pub worker-Takes :
      (interrupted : Bool) (p : Pool P) (c : Worker) (r : Pool P × Worker)
      → p.queuestat ≡ P.new_semaphore
      → held p ≡ false
      → IsIdle c
      → run_step P interrupted p c ≡ some r
      → Idles p r ⊎ Takes p r
  unfolding run_step lock
  worker-Takes interrupted p at_test r u h a e = inl (test-Idles p p.stop r e)
  worker-Takes interrupted p at_wait r u h a e = inl (wait-Idles interrupted p r u e)
  worker-Takes interrupted p at_worker_lock r u h a e =
      elim (Option-cases (P.lock_mutex p.queuelocker)) [
        | inl z ↦ let y : none ≡ some r = rw z at e in cc
        | inr (m, z) ↦
            let y : some (record p { queuelocker = m }, at_take) ≡ some r = rw z at e in
            inr (
              subst (Takes p) (some_inj.0 y) (record {
                mutex = m;
                pool = refl;
                now = laws.lock_free p.queuelocker m h z;
                next = tt;
              }))
      ]
  worker-Takes interrupted p ended r u h a e = cc
  worker-Takes interrupted p at_take r u h a e = absurd a
  worker-Takes interrupted p at_skip r u h a e = absurd a
  worker-Takes interrupted p (at_release request) r u h a e = absurd a
  worker-Takes interrupted p (at_process request) r u h a e = absurd a

  pub keeper-Keeps :
      (interrupted : Bool) (p : Pool P) (c : Worker) (r : Pool P × Worker)
      → held p ≡ true
      → p.workqueue ≡ []
      → IsKeeper c
      → run_step P interrupted p c ≡ some r
      → Keeps p r
  unfolding run_step unlock
  keeper-Keeps interrupted p at_take r h q a e =
      let y : some (p, at_skip) ≡ some r = simp q at e in
      subst (Keeps p) (some_inj.0 y) (record { pool = refl; next = tt })
  keeper-Keeps interrupted p at_skip r h q a e =
      let y : none ≡ some r = rw (laws.lock_held p.queuelocker h) at e in cc
  keeper-Keeps interrupted p at_test r h q a e = absurd a
  keeper-Keeps interrupted p at_wait r h q a e = absurd a
  keeper-Keeps interrupted p at_worker_lock r h q a e = absurd a
  keeper-Keeps interrupted p ended r h q a e = absurd a
  keeper-Keeps interrupted p (at_release request) r h q a e = absurd a
  keeper-Keeps interrupted p (at_process request) r h q a e = absurd a
