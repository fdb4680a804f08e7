-- ===== src/Tests/HttpLine.antt =====
-- Tests of Http.Line.
use you_shuang.Base.{
  ℕ, zero, suc, ◌<◌, ◌≡◌, refl, List, ◌∷◌, ◌++◌, arith, codes, ok, Returns, get_or, set, replicate,
  load, store,
}
use you_shuang.Http.Line.{line_ok, line_bad, cr, lf, parse_line}
use you_shuang.Http.Line.Outcome.{byte, Outcome, parse_line-Outcome}
use you_shuang.Http.Line.Pieces.{Resumes}
use you_shuang.Http.Line.Resume.{parse_line-resume, parse_line-line}

-- "GE\r\nHo\r" in a buffer of ten bytes.
abbrev two_lines : List ℕ
two_lines = codes "GE" ++ (cr ∷ lf ∷ codes "Ho" ++ (cr ∷ replicate 3 0))

first_line :
    parse_line two_lines 0 7
    ≡ ok (record {
      status = line_ok;
      buf = codes "GE" ++ (0 ∷ 0 ∷ codes "Ho" ++ (cr ∷ replicate 3 0));
      checked = 4;
    })
unfolding parse_line load store set
first_line = refl

bad_line :
    parse_line (codes "a" ++ (cr ∷ codes "b")) 0 3
    ≡ ok (record { status = line_bad; buf = codes "a" ++ (cr ∷ codes "b"); checked = 1 })
unfolding parse_line load store set
bad_line = refl

parse_line-Outcome_example : Returns (Outcome two_lines 4 7) (parse_line two_lines 4 7)
parse_line-Outcome_example = parse_line-Outcome two_lines 4 7 (omega arith) (omega arith)

-- Its first three bytes, which end between '\r' and '\n', with other bytes behind.
abbrev cut_line : List ℕ
cut_line = codes "GE" ++ (cr ∷ replicate 7 1)

same_start : (j : ℕ) → j < 3 → byte two_lines j ≡ byte cut_line j
unfolding get_or
same_start zero h = refl
same_start (suc zero) h = refl
same_start (suc (suc zero)) h = refl
same_start (suc (suc (suc j))) h = absurd (omega arith)

parse_line-resume_example :
    Returns (Resumes cut_line two_lines 3 7 (parse_line two_lines 0 7)) (parse_line cut_line 0 3)
parse_line-resume_example =
    parse_line-resume cut_line two_lines 0 3 7 (omega arith) (omega arith) (omega arith)
      (omega arith) same_start

parse_line-line_example :
    parse_line (codes "x" ++ (codes "GE" ++ (cr ∷ lf ∷ codes "Ho"))) 1 6
    ≡ ok (record {
      status = line_ok;
      buf = codes "x" ++ (codes "GE" ++ (0 ∷ 0 ∷ codes "Ho"));
      checked = 5;
    })
unfolding get_or
parse_line-line_example =
    parse_line-line (codes "x") (codes "GE") (codes "Ho") 6 (λ j p q. grind arith) (omega arith)
      (omega arith)
