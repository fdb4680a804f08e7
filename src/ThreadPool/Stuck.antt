-- ===== src/ThreadPool/Stuck.antt =====
-- What the threads of 15-3 threadpool.h come to with the locker of 14-2 locker.h.
use you_shuang.Base.{
  ℕ, ◌≤◌, ◌≡◌, ◌≢◌, refl, sym, ap, ◌∙◌, Bool, true, inl, inr, [], Option, arith, length,
  same_or_not,
}
use you_shuang.Locker.{Pthreads, IsPthreads}
use you_shuang.ThreadPool.{
  returned, State, Step, client_moves, worker_moves, appends_again, stops, Reachable, begun, step,
}
use you_shuang.ThreadPool.Moves.{holder-short}
use you_shuang.ThreadPool.Clients.{Stuck, client-Stuck}
use you_shuang.ThreadPool.Workers.{worker-Stuck}

module _ (P : Pthreads) (laws : IsPthreads P) where
  stopped-Stuck :
      (s : State P)
      → Stuck P laws s
      → Stuck P laws (record s { pool = record s.pool { stop = true } })
  stopped-Stuck s k = record {
    unposted = k.unposted;
    nothing = k.nothing;
    threads = elim k.threads [
      | inl f ↦ inl (record { free = f.free; empty = f.empty; all = f.all; idle = f.idle })
      | inr (inl h) ↦ inr (
          inl (record {
            not_free = h.not_free;
            holder = h.holder;
            holds = h.holds;
            others = h.others;
            idle = h.idle;
          }))
      | inr (inr w) ↦ inr (
          inr (record {
            not_free = w.not_free;
            empty = w.empty;
            all = w.all;
            keeper = w.keeper;
            keeps = w.keeps;
            others = w.others;
          }))
    ];
  }

  not_returned : (s : State P) (i : ℕ) (b : Bool) → Stuck P laws s → s.clients i ≢ returned b
  not_returned s i b k e = elim k.threads [
    | inl f ↦ rw e at (f.all i)
    | inr (inl h) ↦ elim (same_or_not h.holder i) [
      | inl same ↦
          let here : s.clients h.holder ≡ returned b = ap s.clients (sym same) ∙ e in
          rw here at (h.holds)
      | inr other ↦ rw e at (h.others i other)
    ]
    | inr (inr w) ↦ rw e at (w.all i)
  ]

  moved-Stuck : (s t : State P) → Stuck P laws s → Step P s t → Stuck P laws t
  moved-Stuck s t k (client_moves i p c e) = client-Stuck P laws s i p c k e
  moved-Stuck s t k (worker_moves i interrupted p c e) = worker-Stuck P laws s i interrupted p c k e
  moved-Stuck s t k (appends_again i b request e) = absurd (not_returned s i b k e)
  moved-Stuck s t k stops = stopped-Stuck s k

  reachable-Stuck :
      (max_requests : ℕ) (requests : ℕ → Option ℕ) (s : State P)
      → Reachable P max_requests requests s
      → Stuck P laws s
  reachable-Stuck max_requests requests _ begun = record {
    unposted = refl;
    nothing = refl;
    threads = inl (record { free = laws.new_free; empty = refl; all = λ i. tt; idle = λ i. tt });
  }
  reachable-Stuck max_requests requests _ (step r t r-Reachable e) =
      moved-Stuck r t (reachable-Stuck max_requests requests r r-Reachable) e

  queue-short : (s : State P) → Stuck P laws s → length s.pool.workqueue ≤ 1
  queue-short s k = elim k.threads [
    | inl f ↦ let e : length s.pool.workqueue ≡ 0 = ap length f.empty in omega arith
    | inr (inl h) ↦ holder-short (s.clients h.holder) s.pool.workqueue h.holds
    | inr (inr w) ↦ let e : length s.pool.workqueue ≡ 0 = ap length w.empty in omega arith
  ]

-- In every order of steps of the threads, where the mutex and the semaphore do what their manual
-- says and any wait may be interrupted by a signal: no call of append returns, no request is processed, and the queue never holds more than one.
pub threads-block :
    (P : Pthreads) (laws : IsPthreads P) (max_requests : ℕ) (requests : ℕ → Option ℕ) (s : State P)
    → Reachable P max_requests requests s
    → ((i : ℕ) (b : Bool) → s.clients i ≢ returned b)
      × (s.pool.processed ≡ [])
      × (length s.pool.workqueue ≤ 1)
threads-block P laws max_requests requests s r =
    let k = reachable-Stuck P laws max_requests requests s r in
    (λ i b. not_returned P laws s i b k, k.nothing, queue-short P laws s k)
