-- ===== src/ThreadPool/Clients.antt =====
-- Where the threads of 15-3 threadpool.h stand, and a thread that appends.
use mathlib.Core.Path.{subst}
use you_shuang.Base.{
  ℕ, ◌≡◌, ◌≢◌, ◌⊎◌, sym, ap, ◌∙◌, true, false, inl, inr, [], Option, none, some, arith, ◌==◌,
  same_or_not, Bool-cases,
}
use you_shuang.Locker.{Pthreads, IsPthreads}
use you_shuang.ThreadPool.{Append, Pool, append_step, State, at_thread}
use you_shuang.ThreadPool.Moves.{
  IsStarting, IsHolder, IsIdle, IsKeeper, held, start-blocks, start-Locks, holder-Pushes,
}

module _ (P : Pthreads) (laws : IsPthreads P) where
  -- The mutex is free, or a thread that appends holds it for ever, or a worker does that a signal
  -- woke up.
  pub record Free (s : State P) : Type 0 where
    pub free : held P laws s.pool ≡ false
    pub empty : s.pool.workqueue ≡ []
    pub all : (i : ℕ) → IsStarting (s.clients i)
    pub idle : (i : ℕ) → IsIdle (s.workers i)

  pub record Held (s : State P) : Type 0 where
    pub not_free : held P laws s.pool ≡ true
    pub holder : ℕ
    pub holds : IsHolder (s.clients holder) s.pool.workqueue
    pub others : (i : ℕ) → i ≢ holder → IsStarting (s.clients i)
    pub idle : (i : ℕ) → IsIdle (s.workers i)

  pub record Kept (s : State P) : Type 0 where
    pub not_free : held P laws s.pool ≡ true
    pub empty : s.pool.workqueue ≡ []
    pub all : (i : ℕ) → IsStarting (s.clients i)
    pub keeper : ℕ
    pub keeps : IsKeeper (s.workers keeper)
    pub others : (i : ℕ) → i ≢ keeper → IsIdle (s.workers i)

  pub record Stuck (s : State P) : Type 0 where
    pub unposted : s.pool.queuestat ≡ P.new_semaphore
    pub nothing : s.pool.processed ≡ []
    pub threads : Free s ⊎ (Held s ⊎ Kept s)

  -- The thread `i` moves to `c`, and the others stay.
  pub at_thread-all :
      {A : Type 0} (Q : ℕ → A → Type 0) (f : ℕ → A) (i : ℕ) (c : A)
      → Q i c
      → ((j : ℕ) → j ≢ i → Q j (f j))
      → (j : ℕ) → Q j (at_thread P f i c j)
  at_thread-all Q f i c q rest j = elim (Bool-cases (i == j)) [
    | inl e ↦ let same : i ≡ j = ground arith in rw e (subst (λ x. Q x c) same q)
    | inr e ↦ rw e (rest j (ground arith))
  ]

  -- A thread that appends moves.
  pub client-Stuck :
      (s : State P) (i : ℕ) (p : Pool P) (c : Append)
      → Stuck s
      → append_step P s.pool (s.clients i) ≡ some (p, c)
      → Stuck (record { pool = p; clients = at_thread P s.clients i c; workers = s.workers })
  client-Stuck s i p c k e = elim k.threads [
    | inl f ↦
        let l = start-Locks P laws s.pool (s.clients i) (p, c) f.free (f.all i) e in
        record {
          unposted = ap (λ x. x.queuestat) l.pool ∙ k.unposted;
          nothing = ap (λ x. x.processed) l.pool ∙ k.nothing;
          threads = inr (
              inl (record {
                idle = f.idle;
                not_free = ap (λ x. laws.is_held x.queuelocker) l.pool ∙ l.now;
                holder = i;
                holds =
                    let t : (i == i) ≡ true = ground arith in
                    rw t (l.next p.workqueue (ap (λ x. x.workqueue) l.pool ∙ f.empty));
                others = λ j ne. let t : (i == j) ≡ false = ground arith in rw t (f.all j);
              }));
        }
    | inr (inl h) ↦ elim (same_or_not h.holder i) [
      | inl same ↦
          let now : IsHolder (s.clients i) s.pool.workqueue =
            subst (λ x. IsHolder (s.clients x) s.pool.workqueue) (sym same) h.holds in
          let l = holder-Pushes P laws s.pool (s.clients i) (p, c) h.not_free now e in
          record {
            unposted = ap (λ x. x.queuestat) l.pool ∙ k.unposted;
            nothing = ap (λ x. x.processed) l.pool ∙ k.nothing;
            threads = inr (
                inl (record {
                  idle = h.idle;
                  not_free = ap (λ x. laws.is_held x.queuelocker) l.pool ∙ h.not_free;
                  holder = i;
                  holds = let t : (i == i) ≡ true = ground arith in rw t l.next;
                  others = λ j ne.
                      let t : (i == j) ≡ false = ground arith in
                      rw t (h.others j (λ z. ne (z ∙ sym same)));
                }));
          }
      | inr other ↦
          let z : ◌≡◌ {A = Option (Pool P × Append)} none (some (p, c)) =
            sym (start-blocks P laws s.pool (s.clients i) h.not_free (h.others i other)) ∙ e in
          cc
    ]
    | inr (inr w) ↦
        let z : ◌≡◌ {A = Option (Pool P × Append)} none (some (p, c)) =
          sym (start-blocks P laws s.pool (s.clients i) w.not_free (w.all i)) ∙ e in
        cc
  ]
