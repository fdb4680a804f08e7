-- ===== src/Base/Bytes.antt =====
-- Bytes written into an array from an index on, as recv, vsnprintf and memset do.
use Prim.Native.Nat.{ℕ, zero, suc, ◌+◌, ◌-◌, ◌≤◌, ◌<◌}
use mathlib.Core.Path.{◌≡◌, refl, sym, ap, ◌∙◌}
use mathlib.Core.List.{List, [], ◌∷◌, ◌++◌, append_assoc, append-nil}
use mathlib.Core.Logic.{◌⊎◌, inl, inr}
use native.Mathlib.Omega.{arith}
use you_shuang.Base.Test.{◌==◌, if◌then◌else◌, Bool-cases}
use you_shuang.Base.Faults.{Run, ok, fault, ◌>>=◌, Returns, Returns-bind}
use you_shuang.Base.Lists.{
  length, length-append, replicate, take, drop, set, set-append_right, get_or, get_or-set,
  length-set,
}

-- An answer of recv: EAGAIN or EWOULDBLOCK, another error, or bytes (none where the other side
-- has closed).
pub data Received : Type 0 where
  again : Received
  error : Received
  bytes : List ℕ → Received

-- The string at the front, without its NUL.
unfoldable pub c_string : List ℕ → Run (List ℕ)
c_string [] = fault
c_string (c ∷ cs) = let rest = c_string cs >>= λ s. ok (c ∷ s) in if c == 0 then ok [] else rest

-- Bytes written one after another from an index on.
unfoldable pub overwrite : List ℕ → ℕ → List ℕ → List ℕ
overwrite buf at [] = buf
overwrite buf at (c ∷ cs) = overwrite (set buf at c) (at + 1) cs

pub length-overwrite :
    (buf : List ℕ) (at : ℕ) (cs : List ℕ) → length (overwrite buf at cs) ≡ length buf
unfolding overwrite
length-overwrite buf at [] = refl
length-overwrite buf at (c ∷ cs) = length-overwrite (set buf at c) (at + 1) cs ∙ length-set buf at c

take-set :
    (buf : List ℕ) (at c : ℕ)
    → at < length buf
    → take (at + 1) (set buf at c) ≡ take at buf ++ (c ∷ [])
unfolding set
take-set [] at c h = elim h [ ]
take-set (x ∷ buf) zero c h = refl
take-set (x ∷ buf) (suc at) c h =
    let e : suc at + 1 ≡ suc (at + 1) = omega arith in
    rw e (ap (◌∷◌ x) (take-set buf at c (omega arith)))

take-set_above : (buf : List ℕ) (n at c : ℕ) → n ≤ at → take n (set buf at c) ≡ take n buf
unfolding set
take-set_above [] n at c h = refl
take-set_above (x ∷ buf) zero at c h = refl
take-set_above (x ∷ buf) (suc n) zero c h = elim h [ ]
take-set_above (x ∷ buf) (suc n) (suc at) c h = ap (◌∷◌ x) (take-set_above buf n at c (omega arith))

pub take-overwrite_above :
    (buf : List ℕ) (n at : ℕ) (cs : List ℕ) → n ≤ at → take n (overwrite buf at cs) ≡ take n buf
unfolding overwrite
take-overwrite_above buf n at [] h = refl
take-overwrite_above buf n at (c ∷ cs) h =
    take-overwrite_above (set buf at c) n (at + 1) cs (omega arith) ∙ take-set_above buf n at c h

pub take-overwrite :
    (buf : List ℕ) (at : ℕ) (cs rest : List ℕ)
    → at + length cs ≤ length buf
    → take (at + length cs) (overwrite buf at (cs ++ rest)) ≡ take at buf ++ cs
unfolding overwrite
take-overwrite buf at [] rest h =
    let e : at + 0 ≡ at = omega arith in
    rw e (take-overwrite_above buf at at rest (omega arith) ∙ rw append-nil)
take-overwrite buf at (c ∷ cs) rest h =
    let e : at + suc (length cs) ≡ at + 1 + length cs = omega arith in
    rw e (
      take-overwrite (set buf at c) (at + 1) cs rest (omega (arith, length-set buf at c))
      ∙ rw (take-set buf at c (omega arith), append_assoc))

-- Outside of the bytes that are written the array is the same.
pub get_or-overwrite :
    (buf : List ℕ) (at : ℕ) (cs : List ℕ) (i d : ℕ)
    → at + length cs ≤ length buf
    → (i < at) ⊎ (at + length cs ≤ i)
    → get_or (overwrite buf at cs) i d ≡ get_or buf i d
unfolding overwrite
get_or-overwrite buf at [] i d h out = refl
get_or-overwrite buf at (c ∷ cs) i d h out =
    let later : (i < at + 1) ⊎ (at + 1 + length cs ≤ i) = elim out [
      | inl below ↦ inl (omega arith)
      | inr above ↦ inr (omega (arith, above))
    ] in
    get_or-overwrite (set buf at c) (at + 1) cs i d (omega (arith, length-set buf at c)) later
    ∙ ground (arith, get_or-set buf at i c d, out)

-- The bytes in front of the first NUL.
unfoldable pub until_nul : List ℕ → List ℕ
until_nul [] = []
until_nul (c ∷ cs) = if c == 0 then [] else c ∷ until_nul cs

pub c_string-until_nul : (xs ys : List ℕ) → c_string (xs ++ (0 ∷ ys)) ≡ ok (until_nul xs)
unfolding c_string until_nul
c_string-until_nul [] ys = refl
c_string-until_nul (x ∷ xs) ys = elim (Bool-cases (x == 0)) [
  | inl e ↦ rw e refl
  | inr e ↦ rw (e, c_string-until_nul xs ys) refl
]

-- Written behind `xs`, over what is there.
pub overwrite-append :
    (xs ys bs : List ℕ)
    → length bs ≤ length ys
    → overwrite (xs ++ ys) (length xs) bs ≡ xs ++ (bs ++ drop (length bs) ys)
unfolding overwrite set
overwrite-append xs ys [] h = refl
overwrite-append xs [] (b ∷ bs) h = absurd (omega arith)
overwrite-append xs (y ∷ ys) (b ∷ bs) h =
    let z : length xs + 0 ≡ length xs = omega arith in
    let e : set (xs ++ (y ∷ ys)) (length xs) b ≡ (xs ++ (b ∷ [])) ++ ys =
      (rw z at (set-append_right xs (y ∷ ys) 0 b)) ∙ sym (append_assoc xs (b ∷ []) ys) in
    let n : length xs + 1 ≡ length (xs ++ (b ∷ [])) = sym (length-append xs (b ∷ [])) in
    rw (e, n)
      (overwrite-append (xs ++ (b ∷ [])) ys bs (omega arith)
        ∙ append_assoc xs (b ∷ []) (bs ++ drop (length bs) ys))

pub drop-replicate : (n m : ℕ) (v : ℕ) → n ≤ m → drop n (replicate m v) ≡ replicate (m - n) v
drop-replicate zero m v h = ap (λ k. replicate k v) (omega arith)
drop-replicate (suc n) zero v h = absurd (omega arith)
drop-replicate (suc n) (suc m) v h =
    drop-replicate n m v (omega arith) ∙ ap (λ k. replicate k v) (omega arith)

-- A NUL in the array ends the string at its front.
pub c_string-Returns :
    (buf : List ℕ) (i : ℕ)
    → i < length buf
    → get_or buf i 1 ≡ 0
    → Returns (λ s. Unit {0}) (c_string buf)
unfolding c_string get_or
c_string-Returns [] i h e = absurd (omega arith)
c_string-Returns (c ∷ cs) zero h e = rw e tt
c_string-Returns (c ∷ cs) (suc i) h e = elim (Bool-cases (c == 0)) [
  | inl z ↦ rw z tt
  | inr z ↦ rw z (
      Returns-bind (λ s. Unit {0}) (λ s. Unit {0}) (c_string cs) (λ s. ok (c ∷ s))
        (c_string-Returns cs i (omega arith) e) (λ s u. tt))
]
