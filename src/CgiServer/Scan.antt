-- ===== src/CgiServer/Scan.antt =====
-- The search for "\r\n" in 15-2 pool_CGIServer.cpp.
use mathlib.Core.Path.{subst}
use you_shuang.Base.{
  ℕ, zero, suc, ◌+◌, ◌≤◌, ◌<◌, ◌≡◌, sym, ◌∙◌, Bool, true, false, inl, inr, List, ◌++◌, arith, ◌==◌,
  Bool-cases, if◌then◌else◌, ok, length, get_or, get_or-append_left, load-ok, Returns, Returns-map,
  Returns-bind,
}
use you_shuang.CgiServer.{cr, lf, ends_at, find_end}

-- "\r\n" ends at this index.
abbrev pub IsEnd : List ℕ → ℕ → Type 0
IsEnd buf zero = ⊥
IsEnd buf (suc i) = (get_or buf i 0 ≡ cr) × (get_or buf (suc i) 0 ≡ lf)

pub IsEnd-append : (xs ys : List ℕ) (j : ℕ) → j < length xs → IsEnd (xs ++ ys) j → IsEnd xs j
IsEnd-append xs ys zero h e = e
IsEnd-append xs ys (suc i) h e = (
  sym (get_or-append_left xs ys i 0 (omega arith)) ∙ e.0,
  sym (get_or-append_left xs ys (suc i) 0 h) ∙ e.1,
)

pub append-IsEnd : (xs ys : List ℕ) (j : ℕ) → j < length xs → IsEnd xs j → IsEnd (xs ++ ys) j
append-IsEnd xs ys zero h e = e
append-IsEnd xs ys (suc i) h e =
    (get_or-append_left xs ys i 0 (omega arith) ∙ e.0, get_or-append_left xs ys (suc i) 0 h ∙ e.1)

abbrev Tested : List ℕ → ℕ → Bool → Type 0
Tested buf i true = IsEnd buf i
Tested buf i false = ¬ IsEnd buf i

ends_at-Tested : (buf : List ℕ) (i : ℕ) → i < length buf → Returns (Tested buf i) (ends_at buf i)
unfolding ends_at
ends_at-Tested buf zero h = λ e. e
ends_at-Tested buf (suc i) h =
    rw (load-ok buf i 0 (omega arith), load-ok buf (suc i) 0 h)
      (elim (Bool-cases (get_or buf i 0 == cr)) [
        | inl a ↦ elim (Bool-cases (get_or buf (suc i) 0 == lf)) [
          | inl b ↦ rw (a, b) (ground arith, ground arith)
          | inr b ↦ rw (a, b) (λ e. ground (arith, e.1))
        ]
        | inr a ↦ rw a (λ e. ground (arith, e.0))
      ])

-- The search has stopped at the first end, or behind the bytes.
pub record Found (buf : List ℕ) (lo hi r : ℕ) : Type 0 where
  pub from : lo ≤ r
  pub upto : r ≤ hi
  pub none_before : (j : ℕ) → lo ≤ j → j < r → ¬ IsEnd buf j
  pub at_end : r < hi → IsEnd buf r

pub find_end-Found :
    (left : ℕ) (buf : List ℕ) (idx hi : ℕ)
    → idx + left ≡ hi
    → hi ≤ length buf
    → Returns (Found buf idx hi) (find_end left buf idx)
unfolding find_end
find_end-Found zero buf idx hi e h = record {
  from = omega arith;
  upto = omega arith;
  none_before = λ j p q. absurd (omega arith);
  at_end = λ p. absurd (omega arith);
}
find_end-Found (suc left) buf idx hi e h =
    Returns-bind (Tested buf idx) (Found buf idx hi) (ends_at buf idx) _
      (ends_at-Tested buf idx (omega arith))
      (go (find_end-Found left buf (idx + 1) hi (omega arith) h))
  where
    go :
        Returns (Found buf (idx + 1) hi) (find_end left buf (idx + 1))
        → (b : Bool) → Tested buf idx b
        → Returns (Found buf idx hi) (if b then ok idx else find_end left buf (idx + 1))
    go rest true t = record {
      from = omega arith;
      upto = omega arith;
      none_before = λ j p q. absurd (omega arith);
      at_end = λ p. t;
    }
    go rest false t =
        Returns-map (Found buf (idx + 1) hi) (Found buf idx hi) (find_end left buf (idx + 1)) rest
          (λ r f. record {
            from = omega (arith, f.from);
            upto = f.upto;
            none_before = λ j p q. elim (Bool-cases (idx == j)) [
              | inl s ↦ let same : idx ≡ j = ground arith in subst (λ x. ¬ IsEnd buf x) same t
              | inr s ↦ f.none_before j (ground arith) q
            ];
            at_end = f.at_end;
          })
