-- ===== src/Http/Line/Cuts.antt =====
-- The line that parse_line has cut, as a string: 15-5 http_conn.cpp and 8-3 parse_line.cpp.
use you_shuang.Base.{ℕ, ◌+◌, ◌≤◌, ◌≡◌, ◌∙◌, List, arith, length, set, length-set, get_or-set}
use you_shuang.Http.Text.Bounds.{IsString}

-- From its start, the line ends with the second of the two NULs.
pub cut-IsString :
    (buf : List ℕ) (start k : ℕ)
    → start ≤ k + 1
    → k + 2 ≤ length buf
    → (length (set (set buf k 0) (k + 1) 0) ≡ length buf)
      × IsString (set (set buf k 0) (k + 1) 0) start (k + 1)
cut-IsString buf start k p q =
    let size : length (set (set buf k 0) (k + 1) 0) ≡ length buf =
      length-set (set buf k 0) (k + 1) 0 ∙ length-set buf k 0 in
    (
      size,
      record {
        behind = p;
        inside = omega (arith, size);
        nul = ground (arith, get_or-set (set buf k 0) (k + 1) (k + 1) 0 0, length-set buf k 0);
      },
    )
