-- ===== src/Http/Request/Rejects.antt =====
-- Which request lines are refused: parse_request_line of 15-5 http_conn.cpp and
-- parse_requestline of 8-3 parse_line.cpp.
use you_shuang.Base.{
  ℕ, ◌+◌, ◌≤◌, ◌<◌, ◌≡◌, ◌≢◌, refl, true, false, List, Option, none, some, arith, codes, Returns,
  Returns-bind, Returns-and, get_or, set, get_or-set, store-ok,
}
use you_shuang.Http.Text.{strpbrk}
use you_shuang.Http.Text.Bounds.{
  IsString, IsString-from, FoundBelow, IsMember, strpbrk_bounds, strpbrk-IsMember, strspn_bounds,
  strcasecmp_bounds,
}
use you_shuang.Http.Request.{
  bad_request, tab, RequestLine, reject, line_version, line_method, parse_request_line,
}
use you_shuang.Http.Request.Bounds.{IsString-set}

abbrev pub IsRejected : RequestLine → Type 0
IsRejected r = r.code ≡ bad_request

-- No tab stands in the range.
abbrev pub HasNoTab : List ℕ → ℕ → ℕ → Type 0
HasNoTab buf lo hi = (j : ℕ) → lo ≤ j → j < hi → get_or buf j 0 ≢ b'\t'

line_version-rejects :
    (buf : List ℕ) (url z : ℕ)
    → IsString buf url z
    → HasNoTab buf url z
    → Returns IsRejected (line_version buf url)
unfolding line_version reject
line_version-rejects buf url z s free =
    Returns-bind (λ n. url + n ≤ z) IsRejected _ _ (strspn_bounds buf url z tab refl s)
      λ n q.
        let t = IsString-from buf url (url + n) z s q in
        Returns-bind (λ o. FoundBelow (url + n) z o × IsMember tab buf (url + n) o) IsRejected
          (strpbrk buf (url + n) tab) _
          (Returns-and (FoundBelow (url + n) z) (IsMember tab buf (url + n)) _
            (strpbrk_bounds buf (url + n) z tab t) (strpbrk-IsMember buf (url + n) z tab t))
          (elim [
            | none ↦ λ _. refl
            | some at ↦ λ f. absurd (free at (omega arith) (omega arith) (ground arith))
          ])

-- A request line with no tab in it is refused, whatever separates the method: the target must be
-- ended by a tab. So a line whose parts stand apart by spaces, as HTTP has it, is BAD_REQUEST.
pub parse_request_line-rejects :
    (separators : List ℕ) (version : Option ℕ) (buf : List ℕ) (text z : ℕ)
    → IsString buf text z
    → HasNoTab buf text z
    → Returns IsRejected (parse_request_line separators version buf text)
unfolding parse_request_line line_method reject
parse_request_line-rejects separators version buf text z s free =
    Returns-bind (FoundBelow text z) IsRejected _ _ (strpbrk_bounds buf text z separators s) (elim [
      | none ↦ λ _. refl
      | some at ↦ λ f.
          let cut = set buf at 0 in
          let t = IsString-set buf text at z s f.1 in
          rw (store-ok buf at 0 (omega (arith, s.inside))) (
            Returns-bind (λ b. Unit {0}) IsRejected _ _
              (strcasecmp_bounds cut text z (codes "GET") refl t)
              (elim [
                | true ↦ λ _.
                    line_version-rejects cut (at + 1) z
                      (IsString-from cut text (at + 1) z t (omega arith))
                      (λ j p q. ground (arith, get_or-set buf at j 0 0, s.inside, free j))
                | false ↦ λ _. refl
              ]))
    ])
