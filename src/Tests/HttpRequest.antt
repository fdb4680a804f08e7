-- ===== src/Tests/HttpRequest.antt =====
-- Tests of Http.Request.
use you_shuang.Base.{
  ℕ, ◌≡◌, refl, true, List, [], ◌∷◌, ◌++◌, none, some, arith, codes, ok, Returns, get_or,
}
use you_shuang.Http.Text.Bounds.{IsString}
use you_shuang.Http.Request.{no_request, parse_request_line}
use you_shuang.Http.Request.Bounds.{Keeps, parse_request_line-Keeps}
use you_shuang.Http.Request.Accepts.{request_text, cut_text, parse_request_line-accepts}
use you_shuang.Http.Request.Rejects.{IsRejected, parse_request_line-rejects}

abbrev separators : List ℕ
separators = b' ' ∷ b'\t' ∷ []

-- A request line with spaces only, as browsers send it, and its NULs.
abbrev spaced : List ℕ
spaced = codes "GET /a HTTP/1.1" ++ (0 ∷ 0 ∷ [])

spaced-IsString : IsString spaced 0 15
unfolding get_or
spaced-IsString = record { behind = omega arith; inside = omega arith; nul = refl }

parse_request_line-Keeps_example :
    Returns (Keeps 17 0 15) (parse_request_line separators none spaced 0)
parse_request_line-Keeps_example =
    parse_request_line-Keeps separators none spaced 0 15 spaced-IsString

parse_request_line-rejects_example :
    Returns IsRejected (parse_request_line separators none spaced 0)
unfolding get_or
parse_request_line-rejects_example =
    parse_request_line-rejects separators none spaced 0 15 spaced-IsString (λ j p q. grind arith)

parse_request_line-accepts_example :
    parse_request_line separators none (codes "ab" ++ request_text b' ' (codes "x.html") []) 2
    ≡ ok (record {
      buf = codes "ab" ++ cut_text (codes "x.html") [];
      url = some 6;
      version = some 14;
      is_get = true;
      code = no_request;
    })
parse_request_line-accepts_example =
    parse_request_line-accepts separators b' ' none (codes "ab") (codes "x.html") [] (ground arith)
      (omega arith) refl (ground arith)
