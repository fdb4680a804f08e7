-- ===== src/Http/Text/Bounds.antt =====
-- The string functions of the parsers stay in front of the NUL that ends their string.
use you_shuang.Base.{
  ℕ, zero, suc, ◌+◌, ◌-◌, ◌≤◌, ◌<◌, ◌≡◌, inl, inr, true, false, List, [], ◌∷◌, Option, none, some,
  arith, ◌==◌, Bool-cases, ok, Returns, Returns-bind, Returns-map, length, get_or, drop,
  get_or-drop,
}
use you_shuang.Http.Text.{
  contains, lower, find_in, strpbrk, span_in, strspn, has_prefix, strncasecmp_eq, equals,
  strcasecmp_eq,
}

-- A NUL stands at `z`, at or behind `at`, in the buffer.
pub record IsString (buf : List ℕ) (at z : ℕ) : Type 0 where
  pub behind : at ≤ z
  pub inside : z < length buf
  pub nul : get_or buf z 0 ≡ 0

pub IsString-from :
    (buf : List ℕ) (at next z : ℕ) → IsString buf at z → next ≤ z → IsString buf next z
IsString-from buf at next z s h = record { behind = h; inside = s.inside; nul = s.nul }

-- The same of the bytes from `at` on.
record Ends (cs : List ℕ) (k : ℕ) : Type 0 where
  inside : k < length cs
  nul : get_or cs k 0 ≡ 0

Ends-drop :
    (buf : List ℕ) (at k : ℕ)
    → at + k < length buf
    → get_or buf (at + k) 0 ≡ 0
    → Ends (drop at buf) k
unfolding get_or
Ends-drop buf zero k h e =
    let s : 0 + k ≡ k = omega arith in record { inside = omega arith; nul = rw s at e }
Ends-drop [] (suc at) k h e = elim h [ ]
Ends-drop (c ∷ cs) (suc at) k h e =
    let s : suc at + k ≡ suc (at + k) = omega arith in Ends-drop cs at k (omega arith) (rw s at e)

Ends-string : (buf : List ℕ) (at z : ℕ) → IsString buf at z → Ends (drop at buf) (z - at)
Ends-string buf at z s =
    let e : at + (z - at) ≡ z = omega (arith, s.behind) in
    Ends-drop buf at (z - at) (omega (arith, s.inside, s.behind)) (rw e s.nul)

Ends-tail : (c : ℕ) (cs : List ℕ) (k : ℕ) → Ends (c ∷ cs) (suc k) → Ends cs k
unfolding get_or
Ends-tail c cs k e = record { inside = omega (arith, e.inside); nul = e.nul }

abbrev pub FoundBelow : ℕ → ℕ → Option ℕ → Type 0
FoundBelow at z none = Unit
FoundBelow at z (some j) = (at ≤ j) × (j < z)

find_in_bounds :
    (set cs : List ℕ) (at k : ℕ) → Ends cs k → Returns (FoundBelow at (at + k)) (find_in set cs at)
unfolding find_in get_or
find_in_bounds set [] at k e = absurd (omega (arith, e.inside))
find_in_bounds set (c ∷ cs) at zero e = let z = e.nul in ground arith
find_in_bounds set (c ∷ cs) at (suc k) e = elim (Bool-cases (c == 0)) [
  | inl h ↦ rw h tt
  | inr h ↦ rw h (elim (Bool-cases (contains set c)) [
    | inl g ↦ rw g (omega arith)
    | inr g ↦ rw g (
        Returns-map (FoundBelow (at + 1) (at + 1 + k)) (FoundBelow at (at + suc k))
          (find_in set cs (at + 1)) (find_in_bounds set cs (at + 1) k (Ends-tail c cs k e))
          (elim [ none ↦ λ _. tt | some j ↦ λ q. omega arith ]))
  ])
]

pub strpbrk_bounds :
    (buf : List ℕ) (at z : ℕ) (set : List ℕ)
    → IsString buf at z
    → Returns (FoundBelow at z) (strpbrk buf at set)
unfolding strpbrk
strpbrk_bounds buf at z set s =
    let e : at + (z - at) ≡ z = omega (arith, s.behind) in
    rw e at (find_in_bounds set (drop at buf) at (z - at) (Ends-string buf at z s))

-- What is found is a byte of the set.
abbrev Member : List ℕ → List ℕ → ℕ → Option ℕ → Type 0
Member set cs at none = Unit
Member set cs at (some j) = (m : ℕ) × (j ≡ at + m) × (contains set (get_or cs m 0) ≡ true)

find_in-Member :
    (set cs : List ℕ) (at k : ℕ) → Ends cs k → Returns (Member set cs at) (find_in set cs at)
unfolding find_in get_or
find_in-Member set [] at k e = absurd (omega (arith, e.inside))
find_in-Member set (c ∷ cs) at zero e = let z = e.nul in ground arith
find_in-Member set (c ∷ cs) at (suc k) e = elim (Bool-cases (c == 0)) [
  | inl h ↦ rw h tt
  | inr h ↦ rw h (elim (Bool-cases (contains set c)) [
    | inl g ↦ rw g (0, omega arith, g)
    | inr g ↦ rw g (
        Returns-map (Member set cs (at + 1)) (Member set (c ∷ cs) at) _
          (find_in-Member set cs (at + 1) k (Ends-tail c cs k e))
          (elim [ none ↦ λ _. tt | some j ↦ λ q. (suc q.0, omega (arith, q.1), q.2) ]))
  ])
]

abbrev pub IsMember : List ℕ → List ℕ → ℕ → Option ℕ → Type 0
IsMember set buf at none = Unit
IsMember set buf at (some j) = (at ≤ j) × (contains set (get_or buf j 0) ≡ true)

pub strpbrk-IsMember :
    (buf : List ℕ) (at z : ℕ) (set : List ℕ)
    → IsString buf at z
    → Returns (IsMember set buf at) (strpbrk buf at set)
unfolding strpbrk
strpbrk-IsMember buf at z set s =
    Returns-map (Member set (drop at buf) at) (IsMember set buf at) _
      (find_in-Member set (drop at buf) at (z - at) (Ends-string buf at z s))
      (elim [
        | none ↦ λ _. tt
        | some j ↦
            λ q. let byte = get_or-drop buf at q.0 0 in (omega (arith, q.1), rw (q.1, ← byte) q.2)
      ])

span_in_bounds :
    (set cs : List ℕ) (k : ℕ)
    → contains set 0 ≡ false
    → Ends cs k
    → Returns (λ n. n ≤ k) (span_in set cs)
unfolding span_in get_or
span_in_bounds set [] k h e = absurd (omega (arith, e.inside))
span_in_bounds set (c ∷ cs) zero h e = let z : c ≡ 0 = e.nul in rw (z, h) (omega arith)
span_in_bounds set (c ∷ cs) (suc k) h e = elim (Bool-cases (contains set c)) [
  | inr g ↦ rw g (omega arith)
  | inl g ↦ rw g (
      Returns-bind (λ n. n ≤ k) (λ n. n ≤ suc k) (span_in set cs) (λ n. ok (suc n))
        (span_in_bounds set cs k h (Ends-tail c cs k e)) (λ n q. omega arith))
]

pub strspn_bounds :
    (buf : List ℕ) (at z : ℕ) (set : List ℕ)
    → contains set 0 ≡ false
    → IsString buf at z
    → Returns (λ n. at + n ≤ z) (strspn buf at set)
unfolding strspn
strspn_bounds buf at z set h s =
    Returns-map (λ n. n ≤ z - at) (λ n. at + n ≤ z) (strspn buf at set)
      (span_in_bounds set (drop at buf) (z - at) h (Ends-string buf at z s))
      (λ n q. omega (arith, s.behind))

lower-ne-zero : (l : ℕ) (ls : List ℕ) → contains (l ∷ ls) 0 ≡ false → (lower 0 == lower l) ≡ false
lower-ne-zero l ls h = ground arith

has_prefix_bounds :
    (cs ls : List ℕ) (k : ℕ)
    → contains ls 0 ≡ false
    → Ends cs k
    → Returns (λ b. b ≡ true → length ls ≤ k) (has_prefix cs ls)
unfolding has_prefix get_or
has_prefix_bounds cs [] k h e = λ _. omega arith
has_prefix_bounds [] (l ∷ ls) k h e = absurd (omega (arith, e.inside))
has_prefix_bounds (c ∷ cs) (l ∷ ls) zero h e =
    let z : c ≡ 0 = e.nul in rw (z, lower-ne-zero l ls h) (λ q. cc)
has_prefix_bounds (c ∷ cs) (l ∷ ls) (suc k) h e = elim (Bool-cases (lower c == lower l)) [
  | inr g ↦ rw g (λ q. cc)
  | inl g ↦ rw g (
      Returns-map (λ b. b ≡ true → length ls ≤ k) (λ b. b ≡ true → suc (length ls) ≤ suc k)
        (has_prefix cs ls) (has_prefix_bounds cs ls k (ground arith) (Ends-tail c cs k e))
        (λ b q r. omega (arith, q r)))
]

pub strncasecmp_bounds :
    (buf : List ℕ) (at z : ℕ) (literal : List ℕ)
    → contains literal 0 ≡ false
    → IsString buf at z
    → Returns (λ b. b ≡ true → at + length literal ≤ z) (strncasecmp_eq buf at literal)
unfolding strncasecmp_eq
strncasecmp_bounds buf at z literal h s =
    Returns-map (λ b. b ≡ true → length literal ≤ z - at) (λ b. b ≡ true → at + length literal ≤ z)
      (strncasecmp_eq buf at literal)
      (has_prefix_bounds (drop at buf) literal (z - at) h (Ends-string buf at z s))
      (λ b q r. omega (arith, q r, s.behind))

equals_bounds :
    (cs ls : List ℕ) (k : ℕ)
    → contains ls 0 ≡ false
    → Ends cs k
    → Returns (λ b. Unit) (equals cs ls)
unfolding equals get_or
equals_bounds [] ls k h e = absurd (omega (arith, e.inside))
equals_bounds (c ∷ cs) [] k h e = tt
equals_bounds (c ∷ cs) (l ∷ ls) zero h e = let z : c ≡ 0 = e.nul in rw (z, lower-ne-zero l ls h) tt
equals_bounds (c ∷ cs) (l ∷ ls) (suc k) h e = elim (Bool-cases (lower c == lower l)) [
  | inr g ↦ rw g tt
  | inl g ↦ rw g (equals_bounds cs ls k (ground arith) (Ends-tail c cs k e))
]

pub strcasecmp_bounds :
    (buf : List ℕ) (at z : ℕ) (literal : List ℕ)
    → contains literal 0 ≡ false
    → IsString buf at z
    → Returns (λ b. Unit) (strcasecmp_eq buf at literal)
unfolding strcasecmp_eq
strcasecmp_bounds buf at z literal h s =
    equals_bounds (drop at buf) literal (z - at) h (Ends-string buf at z s)
