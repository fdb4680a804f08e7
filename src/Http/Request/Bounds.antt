-- ===== src/Http/Request/Bounds.antt =====
-- The request line never leaves its string: parse_request_line of 15-5 http_conn.cpp and
-- parse_requestline of 8-3 parse_line.cpp.
use you_shuang.Base.{
  ℕ, suc, ◌+◌, ◌≤◌, ◌<◌, ◌≡◌, ◌⊎◌, inl, inr, refl, ◌∙◌, Bool, true, false, List, [], ◌∷◌, Option,
  none, some, arith, ◌==◌, Bool-cases, codes, if◌then◌else◌, ok, Returns, Returns-bind, Returns-map,
  length, get_or, set, length-set, get_or-set, load-ok, store-ok,
}
use you_shuang.Http.Text.{strchr}
use you_shuang.Http.Text.Bounds.{
  IsString, IsString-from, FoundBelow, strpbrk_bounds, strspn_bounds, strncasecmp_bounds,
  strcasecmp_bounds,
}
use you_shuang.Http.Request.{
  bad_request, no_request, tab, slash, RequestLine, reject, check_slash, line_target, line_protocol,
  line_version, line_method, parse_request_line,
}

-- The line is accepted with its target and its version at offsets of the string.
pub record Accepted (text z : ℕ) (r : RequestLine) : Type 0 where
  pub target : ℕ
  pub protocol : ℕ
  pub is_url : r.url ≡ some target
  pub is_version : r.version ≡ some protocol
  pub behind_text : text < target
  pub in_string : (target < z) × (protocol ≤ z)
  pub starts : get_or r.buf target 0 ≡ slash

-- The buffer has its size and the string its end, and the result is BAD_REQUEST, or NO_REQUEST
-- with a target that starts with '/'.
pub record Keeps (size text z : ℕ) (r : RequestLine) : Type 0 where
  pub length_is : length r.buf ≡ size
  pub still_ends : get_or r.buf z 0 ≡ 0
  pub result : (r.code ≡ bad_request) ⊎ ((r.code ≡ no_request) × Accepted text z r)

pub IsString-set :
    (buf : List ℕ) (at i z : ℕ) → IsString buf at z → i < z → IsString (set buf i 0) at z
IsString-set buf at i z s h = record {
  behind = s.behind;
  inside = rw (length-set buf i 0) s.inside;
  nul = ground (arith, get_or-set buf i z 0 0, s.nul, s.inside);
}

module _ (size text z : ℕ) where
  reject-Keeps :
      (buf : List ℕ) (at : ℕ) (url version : Option ℕ) (is_get : Bool)
      → length buf ≡ size
      → IsString buf at z
      → Returns (Keeps size text z) (reject buf url version is_get)
  unfolding reject
  reject-Keeps buf at url version is_get e s = record {
    length_is = e;
    still_ends = s.nul;
    result = inl refl;
  }

  check_slash-Keeps :
      (buf : List ℕ) (at : ℕ) (url : Option ℕ) (version : ℕ)
      → length buf ≡ size
      → IsString buf at z
      → FoundBelow (suc text) (suc z) url
      → version ≤ z
      → Returns (Keeps size text z) (check_slash buf url version)
  unfolding check_slash
  check_slash-Keeps buf at none version e s f h = reject-Keeps buf at none (some version) true e s
  check_slash-Keeps buf at (some u) version e s f h =
      rw (load-ok buf u 0 (omega (arith, s.inside))) (elim (Bool-cases (get_or buf u 0 == slash)) [
        | inr g ↦ rw g (reject-Keeps buf at (some u) (some version) true e s)
        | inl g ↦
            let first : get_or buf u 0 ≡ slash = ground arith in
            rw g (record {
              length_is = e;
              still_ends = s.nul;
              result = inr (
                refl,
                record {
                  target = u;
                  protocol = version;
                  is_url = refl;
                  is_version = refl;
                  behind_text = omega arith;
                  in_string = (grind (arith, s.nul), h);
                  starts = first;
                },
              );
            })
      ])

  line_target-Keeps :
      (buf : List ℕ) (url version : ℕ)
      → length buf ≡ size
      → IsString buf url z
      → text < url
      → version ≤ z
      → Returns (Keeps size text z) (line_target buf url version)
  unfolding line_target strchr
  line_target-Keeps buf url version e s h g =
      Returns-bind (λ b. b ≡ true → url + 7 ≤ z) (Keeps size text z) _ _
        (strncasecmp_bounds buf url z (codes "http://") refl s)
        λ b q.
          Returns-bind (FoundBelow (suc text) (suc z)) (Keeps size text z) _ _
            (elim b
                as (λ b.
                  (b ≡ true → url + 7 ≤ z)
                  → Returns (FoundBelow (suc text) (suc z))
                      (if b then strchr buf (url + 7) slash else ok (some url))) [
                        | true ↦ λ q.
                            Returns-map (FoundBelow (url + 7) z) (FoundBelow (suc text) (suc z)) _
                              (strpbrk_bounds buf (url + 7) z (slash ∷ [])
                                (IsString-from buf url (url + 7) z s (q refl)))
                              (elim [ none ↦ λ _. tt | some j ↦ λ f. omega arith ])
                        | false ↦ λ q. omega (arith, s.behind)
                      ]
              q)
            λ o f. check_slash-Keeps buf url o version e s f g

  line_protocol-Keeps :
      (buf : List ℕ) (url at : ℕ)
      → length buf ≡ size
      → IsString buf url z
      → text < url
      → url ≤ at
      → at < z
      → Returns (Keeps size text z) (line_protocol buf url at)
  unfolding line_protocol
  line_protocol-Keeps buf url at e s h g k =
      let cut = set buf at 0 in
      let t = IsString-set buf url at z s k in
      let size_is = length-set buf at 0 ∙ e in
      rw (store-ok buf at 0 (omega (arith, s.inside))) (
        Returns-bind (λ n. at + 1 + n ≤ z) (Keeps size text z) _ _
          (strspn_bounds cut (at + 1) z tab refl (IsString-from cut url (at + 1) z t (omega arith)))
          λ n q.
            Returns-bind (λ b. Unit {0}) (Keeps size text z) _ _
              (strcasecmp_bounds cut (at + 1 + n) z (codes "HTTP/1.1") refl
                (IsString-from cut url (at + 1 + n) z t q))
              (elim [
                | true ↦ λ _. line_target-Keeps cut url (at + 1 + n) size_is t h q
                | false ↦ λ _. reject-Keeps cut url (some url) (some (at + 1 + n)) true size_is t
              ]))

  line_version-Keeps :
      (buf : List ℕ) (url : ℕ)
      → length buf ≡ size
      → IsString buf url z
      → text < url
      → Returns (Keeps size text z) (line_version buf url)
  unfolding line_version
  line_version-Keeps buf url e s h =
      Returns-bind (λ n. url + n ≤ z) (Keeps size text z) _ _ (strspn_bounds buf url z tab refl s)
        λ n q.
          let t = IsString-from buf url (url + n) z s q in
          Returns-bind (FoundBelow (url + n) z) (Keeps size text z) _ _
            (strpbrk_bounds buf (url + n) z tab t)
            (elim [
              | none ↦ λ _. reject-Keeps buf url (some (url + n)) none true e s
              | some at ↦ λ f. line_protocol-Keeps buf (url + n) at e t (omega arith) f.0 f.1
            ])

  line_method-Keeps :
      (version : Option ℕ) (buf : List ℕ) (at : ℕ)
      → length buf ≡ size
      → IsString buf text z
      → text ≤ at
      → at < z
      → Returns (Keeps size text z) (line_method version buf text at)
  unfolding line_method
  line_method-Keeps version buf at e s h k =
      let cut = set buf at 0 in
      let t = IsString-set buf text at z s k in
      let size_is = length-set buf at 0 ∙ e in
      rw (store-ok buf at 0 (omega (arith, s.inside))) (
        Returns-bind (λ b. Unit {0}) (Keeps size text z) _ _
          (strcasecmp_bounds cut text z (codes "GET") refl t)
          (elim [
            | true ↦ λ _.
                line_version-Keeps cut (at + 1) size_is
                  (IsString-from cut text (at + 1) z t (omega arith)) (omega arith)
            | false ↦ λ _. reject-Keeps cut text (some (at + 1)) version false size_is t
          ]))

-- On a line that a NUL ends inside the buffer, parsing the request line does not read or write
-- out of bounds, whatever bytes the line holds: the buffer keeps its size and the line its end.
-- The result is BAD_REQUEST, or NO_REQUEST with m_url and m_version inside the line and m_url at
-- a '/' behind the method.
pub parse_request_line-Keeps :
    (separators : List ℕ) (version : Option ℕ) (buf : List ℕ) (text z : ℕ)
    → IsString buf text z
    → Returns (Keeps (length buf) text z) (parse_request_line separators version buf text)
unfolding parse_request_line
parse_request_line-Keeps separators version buf text z s =
    Returns-bind (FoundBelow text z) (Keeps (length buf) text z) _ _
      (strpbrk_bounds buf text z separators s)
      (elim [
        | none ↦ λ _. reject-Keeps (length buf) text z buf text none version false refl s
        | some at ↦ λ f. line_method-Keeps (length buf) text z version buf at refl s f.0 f.1
      ])
