-- ===== src/TimeHeap/Tick.antt =====
-- tick of 11-6 timeHeap.h.
use mathlib.Core.Bool.{true}
use mathlib.Core.Logic.{⊎_elim}
use mathlib.Core.List.{Memᴰ}
use mathlib.Core.List.Memᴰ
use you_shuang.Base.{
  ℕ, zero, suc, ◌≤◌, ◌<◌, ◌≡◌, ◌≢◌, ◌⊎◌, inl, inr, refl, sym, ap, ◌∙◌, [], Option, none, some,
  arith, ltb, ◌==◌, Bool-cases, same_or_not, Returns, Returns-bind, Returns-map, length, load-ok,
}
use you_shuang.TimeHeap.{Timer, TimeHeap, pop_timer, Calls, call, tick_body, tick_loop, tick}
use you_shuang.TimeHeap.Order.{at, key, expire_in}
use you_shuang.TimeHeap.Add.{IsTimeHeap}
use you_shuang.TimeHeap.Pop.{Popped, pop_timer-Popped, root_least, IsLive-some}

-- The pointer is in the heap.
abbrev pub IsIn : TimeHeap → ℕ → Type 0
IsIn h p = (i : ℕ) × (i < h.cur_size) × (at h.array i ≡ some p)

-- The call is that of a timer of the heap which has expired.
pub record IsDue (h : TimeHeap) (cur : ℕ) (c : ℕ × ℕ) : Type 0 where
  pub pointer : ℕ
  pub timer : Timer
  pub inside : IsIn h pointer
  pub there : h.memory pointer ≡ some timer
  pub expired : timer.expire ≤ cur
  pub calls : timer.cb_func ≡ some c.0
  pub with_data : timer.user_data ≡ c.1

-- What tick leaves: the timers that have not expired, in a heap; the others are deleted, and the
-- calls that were made are theirs.
pub record Ticked (cur : ℕ) (log : Calls) (h : TimeHeap) (r : TimeHeap × Calls) : Type 0 where
  pub valid : IsTimeHeap r.0
  pub unexpired : (q : ℕ) (t : Timer) → IsIn r.0 q → r.0.memory q ≡ some t → cur < t.expire
  pub kept :
      (q : ℕ) (t : Timer)
      → IsIn h q
      → h.memory q ≡ some t
      → cur < t.expire
      → IsIn r.0 q × (r.0.memory q ≡ some t)
  pub deleted :
      (q : ℕ) (t : Timer) → IsIn h q → h.memory q ≡ some t → t.expire ≤ cur → r.0.memory q ≡ none
  pub untouched : (q : ℕ) → ¬ IsIn h q → r.0.memory q ≡ h.memory q
  pub called : (c : ℕ × ℕ) → IsDue h cur c → Memᴰ c r.1
  pub before : (c : ℕ × ℕ) → Memᴰ c log → Memᴰ c r.1
  pub only : (c : ℕ × ℕ) → Memᴰ c r.1 → Memᴰ c log ⊎ IsDue h cur c

-- The loop ends where no timer of the heap has expired.
none_due-Ticked :
    (cur : ℕ) (log : Calls) (h : TimeHeap)
    → IsTimeHeap h
    → ((q : ℕ) (t : Timer) → IsIn h q → h.memory q ≡ some t → cur < t.expire)
    → Ticked cur log h (h, log)
none_due-Ticked cur log h v late = record {
  valid = v;
  unexpired = late;
  kept = λ q t i e f. (i, e);
  deleted = λ q t i e f. absurd (omega (arith, late q t i e));
  untouched = λ q n. refl;
  called = λ c d. absurd (omega (arith, d.expired, late d.pointer d.timer d.inside d.there));
  before = λ c m. m;
  only = λ c m. inl m;
}

late_top :
    (cur : ℕ) (h : TimeHeap) (p : ℕ) (t : Timer)
    → IsTimeHeap h
    → at h.array 0 ≡ some p
    → h.memory p ≡ some t
    → cur < t.expire
    → (q : ℕ) (u : Timer) → IsIn h q
    → h.memory q ≡ some u
    → cur < u.expire
unfolding key expire_in
late_top cur h p t v top_is there late q u (i, inside, at_i) there_q =
    omega (arith, late, rw (top_is, there, at_i, there_q) at (root_least h i v inside))

-- The log after a round.
call-called :
    (log : Calls) (t : Timer) (o : Option ℕ) (c : ℕ × ℕ)
    → o ≡ some c.0
    → t.user_data ≡ c.1
    → Memᴰ c (call log t o)
unfolding call
call-called log t none c e f = absurd cc
call-called log t (some a) (x, y) e f = Memᴰ.append_right log (Memᴰ.head cc)

call-before :
    (log : Calls) (t : Timer) (o : Option ℕ) (c : ℕ × ℕ) → Memᴰ c log → Memᴰ c (call log t o)
unfolding call
call-before log t none c m = m
call-before log t (some a) c m = Memᴰ.append_left _ m

call-only :
    (log : Calls) (t : Timer) (o : Option ℕ) (c : ℕ × ℕ)
    → Memᴰ c (call log t o)
    → Memᴰ c log ⊎ ((o ≡ some c.0) × (t.user_data ≡ c.1))
unfolding call
call-only log t none c m = inl m
call-only log t (some a) c m =
    ⊎_elim inl
      (λ last.
        let e = Memᴰ.eq_of_singleton last in
        inr (ap (λ d. some d.0) (sym e), ap (λ d. d.1) (sym e)))
      (Memᴰ.append_cases log m)

module _ (h g : TimeHeap) (p : ℕ) (v : IsTimeHeap h) (top_is : at h.array 0 ≡ some p)
    (s : Popped h g) where
  some_timers : 0 < h.cur_size
  some_timers = omega (arith, s.count)

  was_in : (q : ℕ) → IsIn g q → IsIn h q × (q ≢ p)
  was_in q (i, inside, e) =
      let (j, pos, in_h, f) = s.comes_from i inside in
      (
        (j, in_h, sym f ∙ e),
        λ same.
            absurd
              (omega (arith, v.apart j 0 in_h some_timers (sym f ∙ e ∙ ap some same ∙ sym top_is))),
      )

  still_in : (q : ℕ) → IsIn h q → q ≢ p → IsIn g q
  still_in q (zero, inside, e) ne = absurd (ne (ground (arith, e, top_is)))
  still_in q (suc j, inside, e) ne =
      let (i, in_g, f) = s.goes_to (suc j) (omega arith) inside in (i, in_g, sym f ∙ e)

  memory_at : (q : ℕ) → q ≢ p → g.memory q ≡ h.memory q
  memory_at q ne = ap (λ m. m q) (s.deleted p top_is) ∙ ground arith

  memory_top : g.memory p ≡ none
  memory_top = ap (λ m. m p) (s.deleted p top_is) ∙ ground arith

  popped-IsDue : (cur : ℕ) (c : ℕ × ℕ) → IsDue g cur c → IsDue h cur c
  popped-IsDue cur c d =
      let (inside, other) = was_in d.pointer d.inside in
      record {
        pointer = d.pointer;
        timer = d.timer;
        inside = inside;
        there = sym (memory_at d.pointer other) ∙ d.there;
        expired = d.expired;
        calls = d.calls;
        with_data = d.with_data;
      }

  other-IsDue : (cur : ℕ) (c : ℕ × ℕ) (d : IsDue h cur c) → d.pointer ≢ p → IsDue g cur c
  other-IsDue cur c d other = record {
    pointer = d.pointer;
    timer = d.timer;
    inside = still_in d.pointer d.inside other;
    there = memory_at d.pointer other ∙ d.there;
    expired = d.expired;
    calls = d.calls;
    with_data = d.with_data;
  }

  -- A round that calls the timer at the top and pops it.
  round-Ticked :
      (cur : ℕ) (log : Calls) (t : Timer) (r : TimeHeap × Calls)
      → h.memory p ≡ some t
      → t.expire ≤ cur
      → Ticked cur (call log t t.cb_func) g r
      → Ticked cur log h r
  round-Ticked cur log t r there due w = record {
    valid = w.valid;
    unexpired = w.unexpired;
    kept = λ q u i e f. elim (same_or_not p q) [
      | inl same ↦ absurd (omega (arith, due, f, ap (λ x. x.expire) (same_timer q u same e)))
      | inr other ↦ w.kept q u (still_in q i other) (memory_at q other ∙ e) f
    ];
    deleted = λ q u i e f. elim (same_or_not p q) [
      | inl same ↦ rw same (w.untouched p not_in ∙ memory_top)
      | inr other ↦ w.deleted q u (still_in q i other) (memory_at q other ∙ e) f
    ];
    untouched = λ q n.
        let other : q ≢ p = λ same. n (0, some_timers, top_is ∙ ap some (sym same)) in
        w.untouched q (λ i. n (was_in q i).0) ∙ memory_at q other;
    called = λ c d. elim (same_or_not p d.pointer) [
      | inl same ↦
          let z = same_timer d.pointer d.timer same d.there in
          w.before c (
            call-called log t t.cb_func c (ap (λ u. u.cb_func) (sym z) ∙ d.calls)
              (ap (λ u. u.user_data) (sym z) ∙ d.with_data))
      | inr other ↦ w.called c (other-IsDue cur c d other)
    ];
    before = λ c m. w.before c (call-before log t t.cb_func c m);
    only = λ c m. elim (w.only c m) [
      | inr d ↦ inr (popped-IsDue cur c d)
      | inl n ↦ elim (call-only log t t.cb_func c n) [
        | inl l ↦ inl l
        | inr (e, f) ↦ inr (record {
          pointer = p;
          timer = t;
          inside = (0, some_timers, top_is);
          there = there;
          expired = due;
          calls = e;
          with_data = f;
        })
      ]
    ];
  }
    where
      same_timer : (q : ℕ) (u : Timer) → q ≡ p → h.memory q ≡ some u → u ≡ t
      same_timer q u same e = let z : some u ≡ some t = sym e ∙ ap h.memory same ∙ there in cc

      not_in : ¬ IsIn g p
      not_in i = (was_in p i).1 refl

tick_loop-Ticked :
    (n cur : ℕ) (log : Calls) (h : TimeHeap)
    → IsTimeHeap h
    → 0 < h.capacity
    → h.cur_size ≤ n
    → Returns (Ticked cur log h) (tick_loop n cur log h (at h.array 0))
unfolding tick_loop tick_body
tick_loop-Ticked zero cur log h v room fuel =
    let empty : (h.cur_size == 0) ≡ true = ground arith in
    rw empty (none_due-Ticked cur log h v (λ q t i. absurd (omega (arith, i.1))))
tick_loop-Ticked (suc n) cur log h v room fuel = elim (Bool-cases (h.cur_size == 0)) [
  | inl e ↦
      let empty : h.cur_size ≡ 0 = ground arith in
      rw e (none_due-Ticked cur log h v (λ q t i. absurd (omega (arith, i.1))))
  | inr e ↦
      let some_timers : 0 < h.cur_size = ground arith in
      let (p, t, top_is, there) = IsLive-some h.memory (at h.array 0) (v.live 0 some_timers) in
      rw (e, top_is, there)
        (elim (Bool-cases (ltb cur t.expire)) [
          | inl late ↦
              rw late
                (none_due-Ticked cur log h v (late_top cur h p t v top_is there (ground arith)))
          | inr due ↦ rw due (
              Returns-bind (Popped h) (Ticked cur log h) (pop_timer h) _
                (pop_timer-Popped h v some_timers)
                (λ g s.
                  let in_array : 0 < length g.array =
                    omega (arith, s.valid.size, s.capacity_same, room) in
                  rw (load-ok g.array 0 none in_array) (
                    Returns-map (Ticked cur (call log t t.cb_func) g) (Ticked cur log h) _
                      (tick_loop-Ticked n cur (call log t t.cb_func) g s.valid
                        (omega (arith, s.capacity_same, room)) (omega (arith, s.count, fuel)))
                      (λ r w. round-Ticked h g p v top_is s cur log t r there (ground arith) w))))
        ])
]

-- tick on a heap whose array has room for a timer comes to an end. It leaves the timers that have
-- not expired by `cur`, in a heap; it deletes those that have, and touches no others; it calls the
-- callbacks that they have with their data, and no others.
pub tick-Ticked :
    (h : TimeHeap) (cur : ℕ)
    → IsTimeHeap h
    → 0 < h.capacity
    → Returns (Ticked cur [] h) (tick h cur)
unfolding tick
tick-Ticked h cur v room =
    rw (load-ok h.array 0 none (omega (arith, v.size)))
      (tick_loop-Ticked h.cur_size cur [] h v room (omega arith))
