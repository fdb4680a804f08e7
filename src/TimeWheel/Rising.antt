-- ===== src/TimeWheel/Rising.antt =====
-- Slots of the wheel of 11-5 time_wheel_timer.h that tick always sweeps without a fault.
use you_shuang.Base.{
  ℕ, ◌-◌, ◌≤◌, ◌<◌, ◌≡◌, refl, true, inl, inr, [], ◌∷◌, arith, ◌==◌, Bool-cases, length,
}
use you_shuang.TimeWheel.{slot_count, TimeWheel}
use you_shuang.TimeWheel.Sweep.{Timers, waits, kept, is_safe_behind, is_safe, AllCallable}
use you_shuang.TimeWheel.Wheel.{after}

abbrev pub IsFrom : ℕ → Timers → Type 0
IsFrom r [] = Unit {0}
IsFrom r ((a, k) ∷ xs) = (r ≤ k.rotation) × IsFrom r xs

-- No timer has less turns to wait than one in front of it.
abbrev pub IsRising : Timers → Type 0
IsRising [] = Unit {0}
IsRising ((a, k) ∷ xs) = IsFrom k.rotation xs × IsRising xs

-- The timers of all slots rise and have callbacks, and are less than `fuel`.
pub record AllRising (fuel : ℕ) (lists : ℕ → Timers) : Type 0 where
  pub rising : (i : ℕ) → i < slot_count → IsRising (lists i)
  pub callable : (i : ℕ) → i < slot_count → AllCallable (lists i)
  pub short : (i : ℕ) → i < slot_count → length (lists i) < fuel

IsFrom-is_safe_behind : (r : ℕ) (xs : Timers) → 0 < r → IsFrom r xs → is_safe_behind xs ≡ true
unfolding is_safe_behind
IsFrom-is_safe_behind r [] p h = refl
IsFrom-is_safe_behind r ((a, k) ∷ []) p h = refl
IsFrom-is_safe_behind r ((a, k) ∷ c ∷ xs) p h =
    let e : waits k ≡ true = ground (arith, h.0) in rw e (IsFrom-is_safe_behind r (c ∷ xs) p h.1)

pub IsRising-is_safe : (xs : Timers) → IsRising xs → is_safe xs ≡ true
unfolding is_safe
IsRising-is_safe [] h = refl
IsRising-is_safe ((a, k) ∷ xs) h = elim (Bool-cases (waits k)) [
  | inl e ↦ rw e (IsFrom-is_safe_behind k.rotation xs (ground arith) h.0)
  | inr e ↦ rw e (IsRising-is_safe xs h.1)
]

kept-IsFrom : (r : ℕ) (xs : Timers) → IsFrom r xs → IsFrom (r - 1) (kept xs)
unfolding kept
kept-IsFrom r [] h = tt
kept-IsFrom r ((a, k) ∷ xs) h = elim (Bool-cases (waits k)) [
  | inl e ↦ rw e (omega (arith, h.0), kept-IsFrom r xs h.1)
  | inr e ↦ rw e (kept-IsFrom r xs h.1)
]

kept-IsRising : (xs : Timers) → IsRising xs → IsRising (kept xs)
unfolding kept
kept-IsRising [] h = tt
kept-IsRising ((a, k) ∷ xs) h = elim (Bool-cases (waits k)) [
  | inl e ↦ rw e (kept-IsFrom k.rotation xs h.0, kept-IsRising xs h.1)
  | inr e ↦ rw e (kept-IsRising xs h.1)
]

kept-AllCallable : (xs : Timers) → AllCallable xs → AllCallable (kept xs)
unfolding kept
kept-AllCallable [] f = tt
kept-AllCallable ((a, k) ∷ xs) f = elim (Bool-cases (waits k)) [
  | inl e ↦ rw e (f.0, f.1, kept-AllCallable xs f.2)
  | inr e ↦ rw e (kept-AllCallable xs f.2)
]

length-kept : (xs : Timers) → length (kept xs) ≤ length xs
unfolding kept
length-kept [] = omega arith
length-kept ((a, k) ∷ xs) = ground (arith, length-kept xs)

pub after-AllRising :
    (fuel : ℕ) (w : TimeWheel) (lists : ℕ → Timers)
    → AllRising fuel lists
    → AllRising fuel (after w lists)
after-AllRising fuel w lists g = record {
  rising = λ i h. elim (Bool-cases (w.cur_slot == i)) [
    | inl e ↦ rw e (kept-IsRising (lists i) (g.rising i h))
    | inr e ↦ rw e (g.rising i h)
  ];
  callable = λ i h. elim (Bool-cases (w.cur_slot == i)) [
    | inl e ↦ rw e (kept-AllCallable (lists i) (g.callable i h))
    | inr e ↦ rw e (g.callable i h)
  ];
  short = λ i h. ground (arith, g.short i h, length-kept (lists i));
}
