-- ===== src/TimeWheel/Members.antt =====
-- A timer among those of a slot of the wheel of 11-5 time_wheel_timer.h.
use mathlib.Core.List.{Memᴰ}
use mathlib.Core.List.Memᴰ
use you_shuang.Base.{
  ℕ, ◌≡◌, ◌≢◌, refl, sym, ap, ◌∙◌, true, false, ◌⊎◌, inl, inr, List, [], ◌∷◌, Option, none, some,
  arith, Bool-cases,
}
use you_shuang.Nodes.Chain.{has, Chain}
use you_shuang.TimeWheel.{TwTask}
use you_shuang.TimeWheel.Sweep.{Timers, waits, turned, kept, expired, calls, AllCallable}

-- The timer at `a` with these turns stands among the timers.
pub kept-Memᴰ :
    (a : ℕ) (k : TwTask) (xs : Timers)
    → waits k ≡ true
    → Memᴰ (a, k) xs
    → Memᴰ (a, turned k) (kept xs)
unfolding kept
kept-Memᴰ a k [] e m = absurd (Memᴰ.not-nil m)
kept-Memᴰ a k ((b, c) ∷ xs) e (Memᴰ.head s) =
    let same : waits c ≡ true = ap (λ x. waits x.1) (sym s) ∙ e in
    rw same (Memᴰ.head (ap (λ x. (x.0, turned x.1)) s))
kept-Memᴰ a k ((b, c) ∷ xs) e (Memᴰ.tail m) = elim (Bool-cases (waits c)) [
  | inl w ↦ rw w (Memᴰ.tail (kept-Memᴰ a k xs e m))
  | inr w ↦ rw w (kept-Memᴰ a k xs e m)
]

pub has-Memᴰ : (a : ℕ) (k : TwTask) (xs : Timers) → Memᴰ (a, k) xs → has a xs ≡ true
has-Memᴰ a k [] m = absurd (Memᴰ.not-nil m)
has-Memᴰ a k ((b, c) ∷ xs) (Memᴰ.head s) = let e : a ≡ b = ap (λ x. x.0) s in ground arith
has-Memᴰ a k ((b, c) ∷ xs) (Memᴰ.tail m) = ground (arith, has-Memᴰ a k xs m)

pub expired-Memᴰ :
    (a : ℕ) (k : TwTask) (xs : Timers) → waits k ≡ false → Memᴰ (a, k) xs → Memᴰ (a, k) (expired xs)
unfolding expired
expired-Memᴰ a k [] e m = absurd (Memᴰ.not-nil m)
expired-Memᴰ a k ((b, c) ∷ xs) e (Memᴰ.head s) =
    let same : waits c ≡ false = ap (λ x. waits x.1) (sym s) ∙ e in rw same (Memᴰ.head s)
expired-Memᴰ a k ((b, c) ∷ xs) e (Memᴰ.tail m) = elim (Bool-cases (waits c)) [
  | inl w ↦ rw w (expired-Memᴰ a k xs e m)
  | inr w ↦ rw w (Memᴰ.tail (expired-Memᴰ a k xs e m))
]

pub calls-Memᴰ :
    (a : ℕ) (k : TwTask) (f d : ℕ) (xs : Timers)
    → k.cb_func ≡ some f
    → k.user_data ≡ some d
    → Memᴰ (a, k) xs
    → Memᴰ (f, d) (calls xs)
unfolding calls
calls-Memᴰ a k f d [] p q m = absurd (Memᴰ.not-nil m)
calls-Memᴰ a k f d ((b, c) ∷ xs) p q (Memᴰ.head s) =
    let p' : c.cb_func ≡ some f = ap (λ x. x.1.cb_func) (sym s) ∙ p in
    let q' : c.user_data ≡ some d = ap (λ x. x.1.user_data) (sym s) ∙ q in
    simp (p', q') (Memᴰ.head refl)
calls-Memᴰ a k f d ((b, c) ∷ xs) p q (Memᴰ.tail m) = Memᴰ.tail (calls-Memᴰ a k f d xs p q m)

pub node_of-Memᴰ :
    (m : ℕ → Option _) (prev : Option ℕ) (a : ℕ) (k : TwTask) (xs : Timers)
    → Chain m prev xs
    → Memᴰ (a, k) xs
    → m a ≢ none
node_of-Memᴰ m prev a k [] c h = absurd (Memᴰ.not-nil h)
node_of-Memᴰ m prev a k ((b, j) ∷ xs) c (Memᴰ.head s) = λ e.
    let same : a ≡ b = ap (λ x. x.0) s in
    let z : m b ≡ none = ap m (sym same) ∙ e in ground (arith, c.0, z)
node_of-Memᴰ m prev a k ((b, j) ∷ xs) c (Memᴰ.tail h) = node_of-Memᴰ m (some b) a k xs c.2 h

Memᴰ-cases : {A : Type 0} {x y : A} {xs : List A} → Memᴰ x (y ∷ xs) → (x ≡ y) ⊎ Memᴰ x xs
Memᴰ-cases (Memᴰ.head e) = inl e
Memᴰ-cases (Memᴰ.tail m) = inr m

-- A timer that is kept was there, with a turn more.
pub Memᴰ-kept :
    (a : ℕ) (k : TwTask) (xs : Timers)
    → Memᴰ (a, k) (kept xs)
    → (j : TwTask) × Memᴰ (a, j) xs × (k ≡ turned j)
unfolding kept
Memᴰ-kept a k [] m = absurd (Memᴰ.not-nil m)
Memᴰ-kept a k ((b, c) ∷ xs) m = elim (Bool-cases (waits c)) [
  | inl w ↦ elim (Memᴰ-cases (rw w at m)) [
    | inl e ↦ (c, Memᴰ.head (ap (λ x. (x.0, c)) e), ap (λ x. x.1) e)
    | inr t ↦ let (j, t', e) = Memᴰ-kept a k xs t in (j, Memᴰ.tail t', e)
  ]
  | inr w ↦ let (j, t', e) = Memᴰ-kept a k xs (rw w at m) in (j, Memᴰ.tail t', e)
]

-- A call that a tick makes is that of a timer that has no turns left.
pub Memᴰ-calls :
    (f d : ℕ) (xs : Timers)
    → AllCallable xs
    → Memᴰ (f, d) (calls (expired xs))
    → (a : ℕ) × (k : TwTask) × Memᴰ (a, k) xs
      × (waits k ≡ false)
      × (k.cb_func ≡ some f)
      × (k.user_data ≡ some d)
unfolding calls expired
Memᴰ-calls f d [] c m = absurd (Memᴰ.not-nil m)
Memᴰ-calls f d ((b, j) ∷ xs) c m = elim (Bool-cases (waits j)) [
  | inl w ↦
      let (a, k, t, n, p, q) = Memᴰ-calls f d xs c.2 (rw w at m) in (a, k, Memᴰ.tail t, n, p, q)
  | inr w ↦
      let ((g, on_g), (e, on_e), later) = c in
      elim (Memᴰ-cases (rw (w, on_g, on_e) at m)) [
        | inl same ↦ (
          b,
          j,
          Memᴰ.head refl,
          w,
          on_g ∙ ap (λ x. some x.0) (sym same),
          on_e ∙ ap (λ x. some x.1) (sym same),
        )
        | inr t ↦
            let (a, k, t', n, p, q) = Memᴰ-calls f d xs later t in (a, k, Memᴰ.tail t', n, p, q)
      ]
]
