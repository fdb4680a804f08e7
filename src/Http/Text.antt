-- ===== src/Http/Text.antt =====
-- The functions of the C library's <string.h>, <strings.h> and <stdlib.h> that the parsers call,
-- on a NUL-terminated string at an offset of the read buffer. A string that runs off the end of
-- the buffer is a fault.
pub mod Bounds
use you_shuang.Base.{
  ℕ, suc, ◌+◌, ◌-◌, ◌*◌, ◌^◌, Bool, true, false, ◌&&◌, ◌||◌, List, [], ◌∷◌, Option, none, some, ltb,
  leb, ◌==◌, if◌then◌else◌, Run, ok, fault, ◌>>=◌, drop,
}
use you_shuang.Base.Int.{ℤ, pos, sub_ℕ}

abbrev pub contains : List ℕ → ℕ → Bool
contains [] c = false
contains (d ∷ ds) c = d == c || contains ds c

-- strpbrk: the offset of the first byte that is in the set.
unfoldable pub find_in : List ℕ → List ℕ → ℕ → Run (Option ℕ)
find_in set [] at = fault
find_in set (c ∷ cs) at =
    let rest = find_in set cs (at + 1) in
    if c == 0 then ok none else if contains set c then ok (some at) else rest

unfoldable pub strpbrk : List ℕ → ℕ → List ℕ → Run (Option ℕ)
strpbrk buf at set = find_in set (drop at buf) at

-- strchr for a byte other than NUL.
unfoldable pub strchr : List ℕ → ℕ → ℕ → Run (Option ℕ)
strchr buf at c = strpbrk buf at (c ∷ [])

-- strspn: how many bytes at the front are in the set.
unfoldable pub span_in : List ℕ → List ℕ → Run ℕ
span_in set [] = fault
span_in set (c ∷ cs) =
    let rest = span_in set cs >>= λ n. ok (suc n) in if contains set c then rest else ok 0

unfoldable pub strspn : List ℕ → ℕ → List ℕ → Run ℕ
strspn buf at set = span_in set (drop at buf)

abbrev pub lower : ℕ → ℕ
lower c = if leb b'A' c && leb c b'Z' then c + 32 else c

-- strncasecmp against a literal, at the literal's length, is 0.
unfoldable pub has_prefix : List ℕ → List ℕ → Run Bool
has_prefix cs [] = ok true
has_prefix [] (l ∷ ls) = fault
has_prefix (c ∷ cs) (l ∷ ls) =
    let rest = has_prefix cs ls in if lower c == lower l then rest else ok false

unfoldable pub strncasecmp_eq : List ℕ → ℕ → List ℕ → Run Bool
strncasecmp_eq buf at literal = has_prefix (drop at buf) literal

-- strcasecmp against a literal is 0.
unfoldable pub equals : List ℕ → List ℕ → Run Bool
equals [] ls = fault
equals (c ∷ cs) [] = ok (c == 0)
equals (c ∷ cs) (l ∷ ls) = let rest = equals cs ls in if lower c == lower l then rest else ok false

unfoldable pub strcasecmp_eq : List ℕ → ℕ → List ℕ → Run Bool
strcasecmp_eq buf at literal = equals (drop at buf) literal

abbrev is_digit : ℕ → Bool
is_digit c = leb b'0' c && leb c b'9'

abbrev is_space : ℕ → Bool
is_space c = c == b' ' || leb 9 c && leb c 13

digits_value : ℕ → List ℕ → Run ℕ
digits_value n [] = fault
digits_value n (c ∷ cs) =
    let rest = digits_value (n * 10 + (c - b'0')) cs in if is_digit c then rest else ok n

-- A value that does not fit a long is undefined for atol.
long_of : Bool → ℕ → Run ℤ
long_of negative n =
    if negative
    then (if leb n (2 ^ 63) then ok (sub_ℕ 0 n) else fault)
    else if ltb n (2 ^ 63)
    then ok (pos n)
    else fault

signed_value : List ℕ → Run ℤ
signed_value [] = fault
signed_value (c ∷ cs) =
    if c == b'-'
    then (digits_value 0 cs >>= long_of true)
    else if c == b'+'
    then (digits_value 0 cs >>= long_of false)
    else (digits_value 0 (c ∷ cs) >>= long_of false)

skip_space : List ℕ → Run ℤ
unfolding signed_value digits_value long_of
skip_space [] = fault
skip_space (c ∷ cs) = let rest = skip_space cs in if is_space c then rest else signed_value (c ∷ cs)

unfoldable pub atol : List ℕ → ℕ → Run ℤ
unfolding skip_space
atol buf at = skip_space (drop at buf)
