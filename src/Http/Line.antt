-- ===== src/Http/Line.antt =====
-- The slave state machine, which cuts lines out of the read buffer: http_conn::parse_line of
-- 15-5 http_conn.cpp and prase_line of 8-3 parse_line.cpp, which are one function.
pub mod Outcome
pub mod Skip
pub mod Pieces
pub mod Resume
pub mod Cuts
use you_shuang.Base.{
  ℕ, zero, suc, ◌+◌, ◌-◌, List, ltb, ◌==◌, if◌then◌else◌, Run, ok, ◌>>=◌, load, store,
}

pub data LineStatus : Type 0 where
  line_ok line_bad line_open : LineStatus

-- The status, with the buffer and m_checked_idx after the call.
pub record Parsed : Type 0 where
  pub status : LineStatus
  pub buf : List ℕ
  pub checked : ℕ

abbrev pub cr : ℕ
cr = b'\r'

abbrev pub lf : ℕ
lf = b'\n'

-- Both terminators become NUL, and the index moves to `next`.
end_line : List ℕ → ℕ → ℕ → Run Parsed
end_line buf at next = do
  cut ← store buf at 0
  both ← store cut (at + 1) 0
  ok (record { status = line_ok; buf = both; checked = next })

stop : LineStatus → List ℕ → ℕ → Run Parsed
stop status buf i = ok (record { status = status; buf = buf; checked = i })

-- The byte at `i` is '\r'.
at_cr : List ℕ → ℕ → ℕ → Run Parsed
at_cr buf i read = if i + 1 == read then stop line_open buf i else (do
  next ← load buf (i + 1)
  if next == lf then end_line buf i (i + 2) else stop line_bad buf i)

-- The byte at `i` is '\n'.
at_lf : List ℕ → ℕ → Run Parsed
at_lf buf i =
    if ltb 1 i
    then (do
      before ← load buf (i - 1)
      if before == cr then end_line buf (i - 1) (i + 1) else stop line_bad buf i)
    else stop line_bad buf i

-- The `for` loop, with the number of rounds that are left, `read - i`.
parse_line_loop : ℕ → List ℕ → ℕ → ℕ → Run Parsed
parse_line_loop zero buf i read = stop line_open buf i
parse_line_loop (suc n) buf i read = do
  temp ← load buf i
  let rest = parse_line_loop n buf (i + 1) read
  if temp == cr then at_cr buf i read else if temp == lf then at_lf buf i else rest

unfoldable pub parse_line : List ℕ → ℕ → ℕ → Run Parsed
unfolding parse_line_loop at_cr at_lf end_line stop
parse_line buf checked read = parse_line_loop (read - checked) buf checked read
