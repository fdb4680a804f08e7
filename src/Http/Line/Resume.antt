-- ===== src/Http/Line/Resume.antt =====
-- Calls of parse_line as data arrives, and on one whole line: 15-5 http_conn.cpp and
-- 8-3 parse_line.cpp.
use you_shuang.Base.{
  ℕ, ◌+◌, ◌-◌, ◌≤◌, ◌<◌, ◌≡◌, ap, ◌∙◌, List, ◌∷◌, ◌++◌, arith, ok, Returns, length, get_or, set,
  get_or-append_left, get_or-append_right, set-append_right,
}
use you_shuang.Http.Line.{line_ok, cr, lf, parse_line}
use you_shuang.Http.Line.Outcome.{byte, IsClean}
use you_shuang.Http.Line.Skip.{parse_line-skip, parse_line-crlf}
use you_shuang.Http.Line.Pieces.{Resumes, parse_line-Resumes}

-- Data may arrive in any pieces. Let `part` be the buffer when the bytes up to `hi` have come, and
-- `whole` when those up to `later` have come: both have the same bytes up to `hi`, and any bytes
-- behind. Where a call on the part answers LINE_OPEN, it leaves the buffer as it was, and the call
-- on the whole from the index that it leaves does what a call on the whole from the first index
-- does. Where it answers LINE_OK or LINE_BAD, that call on the whole ends in the same way, with the
-- same bytes up to `hi`, and does not touch those behind.
pub parse_line-resume :
    (part whole : List ℕ) (lo hi later : ℕ)
    → lo ≤ hi
    → hi ≤ later
    → later ≤ length whole
    → hi ≤ length part
    → ((j : ℕ) → j < hi → byte whole j ≡ byte part j)
    → Returns (Resumes part whole hi later (parse_line whole lo later)) (parse_line part lo hi)
parse_line-resume part whole lo hi later h longer fits room same =
    parse_line-Resumes part whole hi later longer fits room same lo h

byte-behind :
    (before line t : List ℕ) (j : ℕ)
    → byte (before ++ (line ++ t)) (length before + length line + j) ≡ byte t j
byte-behind before line t j =
    let e : length before + length line + j ≡ length before + (length line + j) = omega arith in
    rw (
      e,
      get_or-append_right before (line ++ t) (length line + j) 0,
      get_or-append_right line t j 0,
    )

set-behind :
    (before line t : List ℕ) (j v : ℕ)
    → set (before ++ (line ++ t)) (length before + length line + j) v
      ≡ before ++ (line ++ set t j v)
set-behind before line t j v =
    let e : length before + length line + j ≡ length before + (length line + j) = omega arith in
    rw (e, set-append_right before (line ++ t) (length line + j) v, set-append_right line t j v)

byte-inside :
    (before line t : List ℕ) (j : ℕ)
    → j < length line
    → byte (before ++ (line ++ t)) (length before + j) ≡ byte line j
byte-inside before line t j h =
    rw (get_or-append_right before (line ++ t) j 0, get_or-append_left line t j 0 h)

set-crlf :
    (before line rest : List ℕ)
    → set
        (set (before ++ (line ++ (cr ∷ lf ∷ rest))) (length before + length line) 0)
        (length before + length line + 1)
        0
      ≡ before ++ (line ++ (0 ∷ 0 ∷ rest))
unfolding set
set-crlf before line rest =
    let e : length before + length line + 0 ≡ length before + length line = omega arith in
    let first = rw e at (set-behind before line (cr ∷ lf ∷ rest) 0 0) in
    rw (first, set-behind before line (0 ∷ lf ∷ rest) 1 0)

IsClean-inside :
    (before line t : List ℕ)
    → IsClean line 0 (length line)
    → IsClean (before ++ (line ++ t)) (length before) (length before + length line)
IsClean-inside before line t clean j p q =
    let k = j - length before in
    let e : j ≡ length before + k = omega arith in
    let here = ap (byte (before ++ (line ++ t))) e ∙ byte-inside before line t k (omega arith) in
    rw here (clean k (omega arith) (omega arith))

-- A line of bytes other than '\r' and '\n', with "\r\n" behind it, is cut off whole: the status is
-- LINE_OK, both terminators are NUL and the index is behind them. What stands before and behind
-- the line is as it was.
pub parse_line-line :
    (before line rest : List ℕ) (hi : ℕ)
    → IsClean line 0 (length line)
    → length before + length line + 2 ≤ hi
    → hi ≤ length (before ++ (line ++ (cr ∷ lf ∷ rest)))
    → parse_line (before ++ (line ++ (cr ∷ lf ∷ rest))) (length before) hi
      ≡ ok (record {
        status = line_ok;
        buf = before ++ (line ++ (0 ∷ 0 ∷ rest));
        checked = length before + length line + 2;
      })
unfolding get_or
parse_line-line before line rest hi clean inside fits =
    let buf = before ++ (line ++ (cr ∷ lf ∷ rest)) in
    let at = length before + length line in
    let same : at + 0 ≡ at = omega arith in
    parse_line-skip buf hi fits (length before) at (omega arith) (omega arith)
      (IsClean-inside before line (cr ∷ lf ∷ rest) clean)
    ∙ parse_line-crlf buf hi fits at inside
        (rw same at (byte-behind before line (cr ∷ lf ∷ rest) 0))
        (byte-behind before line (cr ∷ lf ∷ rest) 1)
    ∙ ap (λ b. ok (record { status = line_ok; buf = b; checked = at + 2 }))
        (set-crlf before line rest)
