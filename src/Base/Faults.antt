-- ===== src/Base/Faults.antt =====
-- Runs of C++ code: a value, or a fault where the behaviour is undefined or a contract of the
-- library is broken (an index out of bounds, a dangling pointer, a signed overflow).
use Prim.Native.Nat.{ℕ, zero, suc, ◌+◌, ◌<◌, ◌≤◌}
use mathlib.Core.Path.{◌≡◌, refl}
use mathlib.Core.Logic.{◌⊎◌, inl, inr}
use mathlib.Core.Option.{Option, none, some}
use mathlib.Core.List.{List, [], ◌∷◌, ◌++◌}
use native.Mathlib.Omega.{arith}
use you_shuang.Base.Test.{ltb, ◌==◌, if◌then◌else◌}
use you_shuang.Base.Lists.{
  length, get_elem?, drop, get_or, set, get_elem?-get_or, get_elem?-append_right, set-append_right,
  length-append, length-set,
}

pub data Run {ℓ} (A : Type ℓ) : Type ℓ where
  ok : A → Run A
  fault : Run A

infixl 5 ◌>>=◌
abbrev pub ◌>>=◌ {ℓ κ} : {A : Type ℓ} {B : Type κ} → Run A → (A → Run B) → Run B
ok a >>= f = f a
fault >>= f = fault

abbrev pub or_fault {ℓ} : {A : Type ℓ} → Option A → Run A
or_fault (some a) = ok a
or_fault none = fault

-- A memory with another content at `p`; `none` is what was never allocated, or was deleted.
abbrev pub update {ℓ} : {A : Type ℓ} → (ℕ → Option A) → ℕ → Option A → ℕ → Option A
update m p v q = if p == q then v else m q

pub Run-cases {ℓ} : {A : Type ℓ} (r : Run A) → (r ≡ fault) ⊎ ((a : A) × (r ≡ ok a))
Run-cases (ok a) = inr (a, refl)
Run-cases fault = inl refl

module _ {ℓ} {A : Type ℓ} where
  -- `a[i]` as a value, and as the target of an assignment.
  unfoldable pub load : List A → ℕ → Run A
  load a i = or_fault (get_elem? a i)

  unfoldable pub store : List A → ℕ → A → Run (List A)
  store a i v = if ltb i (length a) then ok (set a i v) else fault

  pub load-ok : (a : List A) (i : ℕ) (d : A) → i < length a → load a i ≡ ok (get_or a i d)
  unfolding load
  load-ok a i d h = rw (get_elem?-get_or a i d h)

  pub load-fault : (a : List A) (i : ℕ) → length a ≤ i → load a i ≡ fault
  unfolding load
  load-fault [] i h = refl
  load-fault (x ∷ a) zero h = elim h [ ]
  load-fault (x ∷ a) (suc i) h = load-fault a i (omega arith)

  pub load-append_right : (xs ys : List A) (i : ℕ) → load (xs ++ ys) (length xs + i) ≡ load ys i
  unfolding load
  load-append_right xs ys i = rw (get_elem?-append_right xs ys i)

  pub store-append_right :
      (xs ys : List A) (i : ℕ) (v : A)
      → i < length ys
      → store (xs ++ ys) (length xs + i) v ≡ ok (xs ++ set ys i v)
  unfolding store
  store-append_right xs ys i v h =
      rw (set-append_right xs ys i v) (ground (arith, length-append xs ys))

  -- Behind the lists `a` and `b`.
  pub store-behind :
      (a b t : List A) (x v : A)
      → store (a ++ (b ++ (x ∷ t))) (length a + length b) v ≡ ok (a ++ (b ++ (v ∷ t)))
  unfolding store set
  store-behind a b t x v =
      let z : length b + 0 ≡ length b = omega arith in
      rw (set-append_right a (b ++ (x ∷ t)) (length b) v, rw z at (set-append_right b (x ∷ t) 0 v))
        (ground (arith, length-append a (b ++ (x ∷ t)), length-append b (x ∷ t)))

  pub load-drop : (a t : List A) (i : ℕ) (x : A) → drop i a ≡ x ∷ t → load a i ≡ ok x
  unfolding load
  load-drop [] t zero x e = cc
  load-drop [] t (suc i) x e = cc
  load-drop (y ∷ a) t zero x e = cc
  load-drop (y ∷ a) t (suc i) x e = load-drop a t i x e

  pub store-ok : (a : List A) (i : ℕ) (v : A) → i < length a → store a i v ≡ ok (set a i v)
  unfolding store
  store-ok a i v h = ground arith

  pub store-fault : (a : List A) (i : ℕ) (v : A) → length a ≤ i → store a i v ≡ fault
  unfolding store
  store-fault a i v h = ground arith

-- The run does not fault, and its value satisfies `P`.
abbrev pub Returns {ℓ} : {A : Type ℓ} → (A → Type 0) → Run A → Type 0
Returns P (ok a) = P a
Returns P fault = ⊥

module _ {ℓ} {A : Type ℓ} where
  pub Returns-bind {κ} :
      {B : Type κ} (P : A → Type 0) (Q : B → Type 0) (r : Run A) (f : A → Run B)
      → Returns P r
      → ((a : A) → P a → Returns Q (f a))
      → Returns Q (r >>= f)
  Returns-bind P Q (ok a) f p k = k a p
  Returns-bind P Q fault f p k = absurd p

  pub Returns-map :
      (P Q : A → Type 0) (r : Run A) → Returns P r → ((a : A) → P a → Q a) → Returns Q r
  Returns-map P Q (ok a) p k = k a p
  Returns-map P Q fault p k = absurd p

  pub Returns-and :
      (P Q : A → Type 0) (r : Run A) → Returns P r → Returns Q r → Returns (λ a. P a × Q a) r
  Returns-and P Q (ok a) p q = (p, q)
  Returns-and P Q fault p q = p

  pub Returns-inv : (P : A → Type 0) (r : Run A) → Returns P r → (a : A) × (r ≡ ok a) × P a
  Returns-inv P (ok a) p = (a, refl, p)
  Returns-inv P fault p = absurd p

-- The value satisfies `P`, or the run faults, which it does only for the reason `B`.
abbrev pub Unless {ℓ} : {A : Type ℓ} → Type 0 → (A → Type 0) → Run A → Type 0
Unless B P (ok a) = P a
Unless B P fault = B

Unless-mono {ℓ} :
    {A : Type ℓ} (B C : Type 0) (P : A → Type 0) (r : Run A) → (B → C) → Unless B P r → Unless C P r
Unless-mono B C P (ok a) g p = p
Unless-mono B C P fault g p = g p

module _ {ℓ} {A : Type ℓ} where
  pub Unless-bind {κ} :
      {B : Type κ} (C D E : Type 0) (P : A → Type 0) (Q : B → Type 0) (r : Run A) (f : A → Run B)
      → Unless C P r
      → (C → E)
      → (D → E)
      → ((a : A) → r ≡ ok a → P a → Unless D Q (f a))
      → Unless E Q (r >>= f)
  Unless-bind C D E P Q (ok a) f p c d k = Unless-mono D E Q (f a) d (k a refl p)
  Unless-bind C D E P Q fault f p c d k = c p

  pub Unless-Returns : (B : Type 0) (P : A → Type 0) (r : Run A) → Returns P r → Unless B P r
  Unless-Returns B P (ok a) p = p
  Unless-Returns B P fault p = absurd p

-- If the run does not fault, its value satisfies `P`.
abbrev pub IfReturns {ℓ} : {A : Type ℓ} → (A → Type 0) → Run A → Type 0
IfReturns P (ok a) = P a
IfReturns P fault = Unit

module _ {ℓ} {A : Type ℓ} where
  pub IfReturns-bind {κ} :
      {B : Type κ} (P : A → Type 0) (Q : B → Type 0) (r : Run A) (f : A → Run B)
      → IfReturns P r
      → ((a : A) → P a → IfReturns Q (f a))
      → IfReturns Q (r >>= f)
  IfReturns-bind P Q (ok a) f p k = k a p
  IfReturns-bind P Q fault f p k = tt

  pub IfReturns-any : (r : Run A) → IfReturns (λ _. Unit {0}) r
  IfReturns-any (ok a) = tt
  IfReturns-any fault = tt

  pub Returns-if : (P : A → Type 0) (r : Run A) → Returns P r → IfReturns P r
  Returns-if P (ok a) p = p
  Returns-if P fault p = tt

  pub length-store :
      (a : List A) (i : ℕ) (v : A) → IfReturns (λ b. length b ≡ length a) (store a i v)
  unfolding store
  length-store a i v = ground (arith, length-set a i v)
