-- ===== src/ProcessPool/Signals.antt =====
-- What the parent of 15-1 processpool.h does when children have ended.
use mathlib.Core.Logic.{⊎_elim, ◌↔◌}
use mathlib.Core.Bool.{true, false}
use mathlib.Core.List.{Memᴰ}
use mathlib.Core.List.Memᴰ
use you_shuang.Base.{
  ℕ, zero, suc, ◌<◌, ◌≡◌, ◌≢◌, ◌⊎◌, inl, inr, refl, sym, ap, ◌∙◌, List, [], ◌∷◌, ◌++◌, Option, none,
  some, arith, Bool-cases, same_or_not, length, get_or,
}
use you_shuang.ProcessPool.{
  Process, Pool, Act, close_pipe, sigchld, is_alive, on_signal, reap, join, join_all, has_pid,
  is_pid, closed_by, all_ended,
}
use you_shuang.ProcessPool.Dispatch.{at}

length-join_all : (p : ℕ) (cs : List Process) → length (join_all p cs) ≡ length cs
unfolding join_all
length-join_all p [] = refl
length-join_all p (c ∷ cs) = ap suc (length-join_all p cs)

at-join_all : (p : ℕ) (cs : List Process) (k : ℕ) → at (join_all p cs) k ≡ join p (at cs k)
unfolding join_all join has_pid is_pid get_or
at-join_all p [] k = refl
at-join_all p (c ∷ cs) zero = refl
at-join_all p (c ∷ cs) (suc k) = at-join_all p cs k

-- The child has one of the pids.
abbrev pub IsAmong : List ℕ → Process → Type 0
IsAmong pids c = (p : ℕ) × (c.pid ≡ some p) × Memᴰ p pids

has_pid-some : (p : ℕ) (c : Process) → c.pid ≡ some p → has_pid p c ≡ true
unfolding has_pid is_pid
has_pid-some p c e = rw e (ground arith)

has_pid-inv : (p : ℕ) (o : Option ℕ) → is_pid p o ≡ true → o ≡ some p
unfolding is_pid
has_pid-inv p none e = cc
has_pid-inv p (some q) e = ap some (ground arith)

join-same : (p : ℕ) (c : Process) → (c.pid ≢ some p) → join p c ≡ c
unfolding join has_pid
join-same p c ne = elim (Bool-cases (has_pid p c)) [
  | inl f ↦ absurd (ne (has_pid-inv p c.pid f))
  | inr f ↦ rw f refl
]

has_pid-eq : (p : ℕ) (c : Process) → has_pid p c ≡ true → c.pid ≡ some p
unfolding has_pid
has_pid-eq p c e = has_pid-inv p c.pid e

join-kept : (p : ℕ) (c : Process) → has_pid p c ≡ false → join p c ≡ c
unfolding join
join-kept p c f = rw f refl

join-ended : (p : ℕ) (c : Process) → c.pid ≡ some p → (join p c).pid ≡ none
unfolding join
join-ended p c e = rw (has_pid-some p c e) refl

closed_by-closed :
    (p : ℕ) (cs : List Process) (k : ℕ)
    → k < length cs
    → (at cs k).pid ≡ some p
    → Memᴰ (close_pipe (at cs k).pipefd.0) (closed_by p cs)
unfolding closed_by get_or
closed_by-closed p [] k h e = absurd (omega arith)
closed_by-closed p (c ∷ cs) zero h e = rw (has_pid-some p c e) (Memᴰ.head refl)
closed_by-closed p (c ∷ cs) (suc k) h e = elim (Bool-cases (has_pid p c)) [
  | inl f ↦ rw f (Memᴰ.tail (closed_by-closed p cs k (omega arith) e))
  | inr f ↦ rw f (closed_by-closed p cs k (omega arith) e)
]

closed_by-only :
    (p : ℕ) (cs : List Process) (a : Act)
    → Memᴰ a (closed_by p cs)
    → (k : ℕ) × (k < length cs) × ((at cs k).pid ≡ some p) × (a ≡ close_pipe (at cs k).pipefd.0)
unfolding closed_by get_or has_pid
closed_by-only p [] a m = absurd (Memᴰ.not-nil m)
closed_by-only p (c ∷ cs) a m = elim (Bool-cases (is_pid p c.pid)) [
  | inl f ↦
      ⊎_elim (λ e. (0, omega arith, has_pid-inv p c.pid f, e))
        (λ n. let (k, h, i, e) = closed_by-only p cs a n in (suc k, omega arith, i, e))
        (Memᴰ.cases_cons (rw f at m))
  | inr f ↦ let (k, h, i, e) = closed_by-only p cs a (rw f at m) in (suc k, omega arith, i, e)
]

-- The children with a pid of the list have ended and their pipes are closed, and no others; the other
-- children, and what stood in the log, are kept, and nothing else is asked for.
pub record Reaped (pids : List ℕ) (s t : Pool) : Type 0 where
  pub counter_same : t.sub_process_counter ≡ s.sub_process_counter
  pub count : length t.sub_process ≡ length s.sub_process
  pub ended : (k : ℕ) → IsAmong pids (at s.sub_process k) → (at t.sub_process k).pid ≡ none
  pub kept : (k : ℕ) → ¬ IsAmong pids (at s.sub_process k) → at t.sub_process k ≡ at s.sub_process k
  pub closed :
      (k : ℕ)
      → k < length s.sub_process
      → IsAmong pids (at s.sub_process k)
      → Memᴰ (close_pipe (at s.sub_process k).pipefd.0) t.acts
  pub only :
      (a : Act)
      → Memᴰ a t.acts
      → Memᴰ a s.acts
        ⊎ ((k : ℕ) × (k < length s.sub_process)
            × IsAmong pids (at s.sub_process k)
            × (a ≡ close_pipe (at s.sub_process k).pipefd.0))
  pub before : (a : Act) → Memᴰ a s.acts → Memᴰ a t.acts

later : (p q : ℕ) (ps : List ℕ) → q ≢ p → Memᴰ q (p ∷ ps) → Memᴰ q ps
later p q ps other m = ⊎_elim (λ same. absurd (other same)) (λ n. n) (Memᴰ.cases_cons m)

-- A child that has a pid behind the loop is as it was.
alive_same :
    (p : ℕ) (cs : List Process) (k q : ℕ)
    → (at (join_all p cs) k).pid ≡ some q
    → at (join_all p cs) k ≡ at cs k
alive_same p cs k q e = elim (Bool-cases (has_pid p (at cs k))) [
  | inl f ↦
      let gone =
        ap (λ c. c.pid) (at-join_all p cs k) ∙ join-ended p (at cs k) (has_pid-eq p (at cs k) f) in
      absurd (let z : none ≡ some q = sym gone ∙ e in cc)
  | inr f ↦ at-join_all p cs k ∙ join-kept p (at cs k) f
]

reap-Reaped : (pids : List ℕ) (s : Pool) → Reaped pids s (reap pids s)
unfolding reap
reap-Reaped [] s = record {
  counter_same = refl;
  count = refl;
  ended = λ k i. absurd (Memᴰ.not-nil i.2);
  kept = λ k n. refl;
  closed = λ k h i. absurd (Memᴰ.not-nil i.2);
  only = λ a m. inl m;
  before = λ a m. m;
}
reap-Reaped (p ∷ ps) s =
    let cs = s.sub_process in
    let mid = record s { sub_process = join_all p cs; acts = s.acts ++ closed_by p cs } in
    let w = reap-Reaped ps mid in
    let z = at-join_all p cs in
    let alike = λ (k : ℕ) (ne : (at cs k).pid ≢ some p). z k ∙ join-same p (at cs k) ne in
    let joined =
      λ (k : ℕ) (e : (at cs k).pid ≡ some p). ap (λ c. c.pid) (z k) ∙ join-ended p (at cs k) e in
    record {
      counter_same = w.counter_same;
      count = w.count ∙ length-join_all p cs;
      ended = λ k (q, e, m). elim (same_or_not p q) [
        | inl same ↦
            let gone = joined k (e ∙ ap some same) in
            ap (λ c. c.pid) (w.kept k (λ (r, f, _). let b : none ≡ some r = sym gone ∙ f in cc))
            ∙ gone
        | inr other ↦
            w.ended k
              (q, ap (λ c. c.pid) (alike k (unlike q other (at cs k) e)) ∙ e, later p q ps other m)
      ];
      kept = λ k n.
          let same = alike k (λ e. n (p, e, Memᴰ.head refl)) in
          w.kept k (λ (q, e, m). n (q, ap (λ c. c.pid) (sym same) ∙ e, Memᴰ.tail m)) ∙ same;
      closed = λ k h (q, e, m). elim (same_or_not p q) [
        | inl same ↦
            w.before _ (Memᴰ.append_right s.acts (closed_by-closed p cs k h (e ∙ ap some same)))
        | inr other ↦
            let same = alike k (unlike q other (at cs k) e) in
            Memᴰ.cast (ap (λ c. close_pipe c.pipefd.0) (sym same)) (
              w.closed k (omega (arith, length-join_all p cs))
                (q, ap (λ c. c.pid) same ∙ e, later p q ps other m))
      ];
      only = λ a m.
          ⊎_elim
            (λ n.
              ⊎_elim inl
                (λ c.
                  let (k, h, e, q) = closed_by-only p cs a c in
                  inr (k, h, (p, e, Memᴰ.head refl), q))
                (Memᴰ.append_cases s.acts n))
            (λ (k, h, (q, e, m'), y).
              let same = alive_same p cs k q e in
              inr (
                k,
                omega (arith, h, length-join_all p cs),
                (q, ap (λ c. c.pid) (sym same) ∙ e, Memᴰ.tail m'),
                y ∙ ap (λ c. close_pipe c.pipefd.0) same,
              ))
            (w.only a m);
      before = λ a m. w.before a (Memᴰ.append_left _ m);
    }
  where
    unlike : (q : ℕ) → q ≢ p → (c : Process) → c.pid ≡ some q → c.pid ≢ some p
    unlike q other c e f = other (let z : some q ≡ some p = sym e ∙ f in cc)

all_ended-false : (cs : List Process) → all_ended false cs ≡ false
unfolding all_ended
all_ended-false [] = refl
all_ended-false (c ∷ cs) = elim (Bool-cases (is_alive c)) [
  | inl f ↦ rw f (all_ended-false cs)
  | inr f ↦ rw f (all_ended-false cs)
]

all_ended-inv :
    (cs : List Process) (k : ℕ)
    → k < length cs
    → all_ended true cs ≡ true
    → is_alive (at cs k) ≡ false
unfolding all_ended get_or
all_ended-inv [] k h e = absurd (omega arith)
all_ended-inv (c ∷ cs) zero h e = elim (Bool-cases (is_alive c)) [
  | inl f ↦ absurd (let z : true ≡ false = sym (rw f at e) ∙ all_ended-false cs in cc)
  | inr f ↦ f
]
all_ended-inv (c ∷ cs) (suc k) h e = elim (Bool-cases (is_alive c)) [
  | inl f ↦ absurd (let z : true ≡ false = sym (rw f at e) ∙ all_ended-false cs in cc)
  | inr f ↦ all_ended-inv cs k (omega arith) (rw f at e)
]

all_ended-none :
    (cs : List Process)
    → ((k : ℕ) → k < length cs → is_alive (at cs k) ≡ false)
    → all_ended true cs ≡ true
unfolding all_ended get_or
all_ended-none [] h = refl
all_ended-none (c ∷ cs) h =
    rw (h 0 (omega arith)) (all_ended-none cs (λ k p. h (suc k) (omega arith)))

-- After SIGCHLD the children whose pids waitpid gives have ended, with their pipes closed and no
-- others, and the other children are kept; the parent stops if and only if no child is alive.
pub sigchld-Reaped :
    (pids : List ℕ) (s : Pool)
    → Reaped pids s (on_signal (sigchld pids) s)
      × (((on_signal (sigchld pids) s).stop ≡ true) ↔ (
          (k : ℕ)
          → k < length s.sub_process
          → is_alive (at (on_signal (sigchld pids) s).sub_process k) ≡ false))
unfolding on_signal
sigchld-Reaped pids s =
    let w = reap-Reaped pids s in
    let t = reap pids s in
    (
      record {
        counter_same = w.counter_same;
        count = w.count;
        ended = w.ended;
        kept = w.kept;
        closed = w.closed;
        only = w.only;
        before = w.before;
      },
      (
        λ e k h. all_ended-inv t.sub_process k (omega (arith, w.count)) e,
        λ h. all_ended-none t.sub_process (λ k p. h k (omega (arith, w.count))),
      ),
    )
