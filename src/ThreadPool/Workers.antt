-- ===== src/ThreadPool/Workers.antt =====
-- A worker of 15-3 threadpool.h among the other threads.
use mathlib.Core.Path.{subst}
use you_shuang.Base.{
  ℕ, ◌≡◌, ◌≢◌, sym, ap, ◌∙◌, Bool, true, false, inl, inr, [], some, arith, ◌==◌, same_or_not,
}
use you_shuang.Locker.{Pthreads, IsPthreads}
use you_shuang.ThreadPool.{Worker, Pool, run_step, State, at_thread}
use you_shuang.ThreadPool.Moves.{
  IsStarting, IsIdle, IsKeeper, idle_not-IsKeeper, held, worker-Idles, worker-Takes, keeper-Keeps,
}
use you_shuang.ThreadPool.Clients.{Kept, Stuck, at_thread-all}

module _ (P : Pthreads) (laws : IsPthreads P) where
  -- A worker moves, and the pool is as it was.
  idle-Stuck :
      (s : State P) (i : ℕ) (p : Pool P) (c : Worker)
      → Stuck P laws s
      → p ≡ s.pool
      → IsIdle c
      → ((w : Kept P laws s) → i ≢ w.keeper)
      → Stuck P laws (record { pool = p; clients = s.clients; workers = at_thread P s.workers i c })
  idle-Stuck s i p c k same a other = record {
    unposted = ap (λ x. x.queuestat) same ∙ k.unposted;
    nothing = ap (λ x. x.processed) same ∙ k.nothing;
    threads =
        let locked = ap (λ x. laws.is_held x.queuelocker) same in
        let queue = ap (λ x. x.workqueue) same in
        elim k.threads [
          | inl f ↦ inl (record {
            free = locked ∙ f.free;
            empty = queue ∙ f.empty;
            all = f.all;
            idle = at_thread-all P laws (λ j x. IsIdle x) s.workers i c a (λ j ne. f.idle j);
          })
          | inr (inl h) ↦ inr (
              inl (record {
                not_free = locked ∙ h.not_free;
                holder = h.holder;
                holds = simp queue (h.holds);
                others = h.others;
                idle = at_thread-all P laws (λ j x. IsIdle x) s.workers i c a (λ j ne. h.idle j);
              }))
          | inr (inr w) ↦ inr (
              inr (record {
                not_free = locked ∙ w.not_free;
                empty = queue ∙ w.empty;
                all = w.all;
                keeper = w.keeper;
                keeps =
                    let t : (i == w.keeper) ≡ false = let ne = other w in ground arith in
                    rw t w.keeps;
                others =
                    at_thread-all P laws (λ j x. j ≢ w.keeper → IsIdle x) s.workers i c (λ ne. a)
                      (λ j ne. w.others j);
              }))
        ];
  }

  -- The worker `i` holds the mutex.
  keeper-Stuck :
      (s : State P) (i : ℕ) (p : Pool P) (c : Worker)
      → p.queuestat ≡ P.new_semaphore
      → p.processed ≡ []
      → held P laws p ≡ true
      → p.workqueue ≡ []
      → ((j : ℕ) → IsStarting (s.clients j))
      → IsKeeper c
      → ((j : ℕ) → j ≢ i → IsIdle (s.workers j))
      → Stuck P laws (record { pool = p; clients = s.clients; workers = at_thread P s.workers i c })
  keeper-Stuck s i p c unposted nothing not_free empty all keeps others = record {
    unposted = unposted;
    nothing = nothing;
    threads = inr (
        inr (record {
          not_free = not_free;
          empty = empty;
          all = all;
          keeper = i;
          keeps = let t : (i == i) ≡ true = ground arith in rw t keeps;
          others = λ j ne. let t : (i == j) ≡ false = ground arith in rw t (others j ne);
        }));
  }

  -- A worker moves.
  pub worker-Stuck :
      (s : State P) (i : ℕ) (interrupted : Bool) (p : Pool P) (c : Worker)
      → Stuck P laws s
      → run_step P interrupted s.pool (s.workers i) ≡ some (p, c)
      → Stuck P laws (record { pool = p; clients = s.clients; workers = at_thread P s.workers i c })
  worker-Stuck s i interrupted p c k e = elim k.threads [
    | inl f ↦
        elim (worker-Takes P laws interrupted s.pool (s.workers i) (p, c) k.unposted f.free
          (f.idle i) e) [
            | inl l ↦
                idle-Stuck s i p c k l.pool l.next
                  (λ w z. let no : true ≡ false = sym w.not_free ∙ f.free in cc)
            | inr l ↦
                keeper-Stuck s i p c (ap (λ x. x.queuestat) l.pool ∙ k.unposted)
                  (ap (λ x. x.processed) l.pool ∙ k.nothing)
                  (ap (λ x. laws.is_held x.queuelocker) l.pool ∙ l.now)
                  (ap (λ x. x.workqueue) l.pool ∙ f.empty) f.all l.next (λ j ne. f.idle j)
          ]
    | inr (inl h) ↦
        let l =
          worker-Idles P laws interrupted s.pool (s.workers i) (p, c) k.unposted h.not_free
            (h.idle i) e in
        idle-Stuck s i p c k l.pool l.next
          (λ w z. idle_not-IsKeeper (s.workers w.keeper) (h.idle w.keeper) w.keeps)
    | inr (inr w) ↦ elim (same_or_not w.keeper i) [
      | inl same ↦
          let now : IsKeeper (s.workers i) =
            subst (λ x. IsKeeper (s.workers x)) (sym same) w.keeps in
          let l =
            keeper-Keeps P laws interrupted s.pool (s.workers i) (p, c) w.not_free w.empty now e in
          keeper-Stuck s i p c (ap (λ x. x.queuestat) l.pool ∙ k.unposted)
            (ap (λ x. x.processed) l.pool ∙ k.nothing)
            (ap (λ x. laws.is_held x.queuelocker) l.pool ∙ w.not_free)
            (ap (λ x. x.workqueue) l.pool ∙ w.empty) w.all l.next
            (λ j ne. w.others j (λ z. ne (z ∙ sym same)))
      | inr other ↦
          let l =
            worker-Idles P laws interrupted s.pool (s.workers i) (p, c) k.unposted w.not_free
              (w.others i other) e in
          idle-Stuck s i p c k l.pool l.next (λ v z.
            idle_not-IsKeeper (s.workers i) (w.others i other)
              (subst (λ x. IsKeeper (s.workers x)) (sym z) v.keeps))
    ]
  ]
