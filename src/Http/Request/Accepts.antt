-- ===== src/Http/Request/Accepts.antt =====
-- Which request lines are accepted: parse_request_line of 15-5 http_conn.cpp and
-- parse_requestline of 8-3 parse_line.cpp.
use you_shuang.Base.{
  ℕ, suc, ◌+◌, ◌≡◌, ◌≢◌, refl, ap, ◌∙◌, true, false, List, [], ◌∷◌, ◌++◌, Option, some, arith,
  codes, ok, length, set, drop-append, drop, load-drop, store, store-behind, drop-behind,
}
use you_shuang.Http.Text.{
  contains, find_in, strpbrk, span_in, strspn, equals, strcasecmp_eq, has_prefix, strncasecmp_eq,
}
use you_shuang.Http.Request.{
  no_request, tab, slash, check_slash, line_target, line_protocol, line_version, line_method,
  parse_request_line,
}

-- The bytes hold no NUL and none of the set.
abbrev pub IsClear : List ℕ → List ℕ → Type 0
IsClear set [] = Unit
IsClear set (c ∷ cs) = (c ≢ 0) × (contains set c ≡ false) × IsClear set cs

find_in-append :
    (set xs : List ℕ) (c : ℕ) (ys : List ℕ) (at : ℕ)
    → IsClear set xs
    → c ≢ 0
    → contains set c ≡ true
    → find_in set (xs ++ (c ∷ ys)) at ≡ ok (some (at + length xs))
unfolding find_in
find_in-append set [] c ys at h n m = let e : at + 0 ≡ at = omega arith in rw (e, m) (ground arith)
find_in-append set (x ∷ xs) c ys at h n m =
    let e : at + suc (length xs) ≡ at + 1 + length xs = omega arith in
    rw (e, h.1) (ground (arith, h.0, find_in-append set xs c ys (at + 1) h.2 n m))

abbrev version_text : List ℕ → List ℕ
version_text rest = codes "HTTP/1.1" ++ (0 ∷ rest)

line_target-accepts :
    (buf t : List ℕ) (url version : ℕ)
    → drop url buf ≡ slash ∷ t
    → line_target buf url version
      ≡ ok (record {
        buf = buf;
        url = some url;
        version = some version;
        is_get = true;
        code = no_request;
      })
unfolding line_target check_slash strncasecmp_eq has_prefix
line_target-accepts buf t url version d = rw (d, load-drop buf t url slash d)

line_protocol-target :
    (buf cut rest : List ℕ) (url at : ℕ)
    → store buf at 0 ≡ ok cut
    → drop (at + 1) cut ≡ version_text rest
    → line_protocol buf url at ≡ line_target cut url (at + 1)
unfolding line_protocol strspn span_in strcasecmp_eq equals
line_protocol-target buf cut rest url at e d =
    let z : at + 1 + 0 ≡ at + 1 = omega arith in rw (e, d, z, d)

line_version-protocol :
    (buf path t : List ℕ) (url : ℕ)
    → IsClear tab (slash ∷ path)
    → drop url buf ≡ slash ∷ path ++ (b'\t' ∷ t)
    → line_version buf url ≡ line_protocol buf url (url + (length path + 1))
unfolding line_version strspn span_in strpbrk
line_version-protocol buf path t url clear d =
    let z : url + 0 ≡ url = omega arith in
    let n : length path + 1 ≡ suc (length path) = omega arith in
    rw (d, z, d, n, find_in-append tab (slash ∷ path) b'\t' t url clear (omega arith) refl, z)

line_method-version :
    (version : Option ℕ) (buf cut t : List ℕ) (text at : ℕ)
    → store buf at 0 ≡ ok cut
    → drop text cut ≡ codes "GET" ++ (0 ∷ t)
    → line_method version buf text at ≡ line_version cut (at + 1)
unfolding line_method strcasecmp_eq equals
line_method-version version buf cut t text at e d = rw (e, d)

request_line-method :
    (separators : List ℕ) (separator : ℕ) (version : Option ℕ) (buf t : List ℕ) (text : ℕ)
    → IsClear separators (codes "GET")
    → separator ≢ 0
    → contains separators separator ≡ true
    → drop text buf ≡ codes "GET" ++ (separator ∷ t)
    → parse_request_line separators version buf text ≡ line_method version buf text (text + 3)
unfolding parse_request_line strpbrk
request_line-method separators separator version buf t text clear n m d =
    rw (d, find_in-append separators (codes "GET") separator t text clear n m)

-- The bytes of a request line: the method, a separator, the target, a tab, the version and the NUL
-- that parse_line has put in place of "\r\n".
abbrev pub request_text : ℕ → List ℕ → List ℕ → List ℕ
request_text separator path rest =
    codes "GET" ++ (separator ∷ slash ∷ path ++ (b'\t' ∷ codes "HTTP/1.1" ++ (0 ∷ rest)))

-- The same bytes with the method and the target ended by NUL.
abbrev pub cut_text : List ℕ → List ℕ → List ℕ
cut_text path rest = codes "GET" ++ (0 ∷ slash ∷ path ++ (0 ∷ codes "HTTP/1.1" ++ (0 ∷ rest)))

-- A request line for a target that starts with '/' and holds no tab and no NUL is accepted, behind
-- any separator that the function knows (other than NUL and the letters of the method): the result
-- is NO_REQUEST, the method is GET, m_url is the offset of the target and m_version that of the
-- version, the method and the target are ended by NUL, and no other byte of the buffer changes.
pub parse_request_line-accepts :
    (separators : List ℕ) (separator : ℕ) (version : Option ℕ) (before path rest : List ℕ)
    → IsClear separators (codes "GET")
    → separator ≢ 0
    → contains separators separator ≡ true
    → IsClear tab path
    → parse_request_line separators version
        (before ++ request_text separator path rest)
        (length before)
      ≡ ok (record {
        buf = before ++ cut_text path rest;
        url = some (length before + 4);
        version = some (length before + length path + 6);
        is_get = true;
        code = no_request;
      })
parse_request_line-accepts separators separator version before path rest clear n m free =
    let get = codes "GET" in
    let target = get ++ (0 ∷ slash ∷ path) in
    let buf = before ++ request_text separator path rest in
    let mid = before ++ (target ++ (b'\t' ∷ version_text rest)) in
    let end = before ++ cut_text path rest in
    let at = length before + 3 in
    let url = length before + 4 in
    let three : length before + length get ≡ at = omega arith in
    let next : at + 1 ≡ url = omega arith in
    let four : length before + length get + 1 ≡ url = omega arith in
    let tail : length before + length target ≡ url + (length path + 1) = omega arith in
    let last : url + (length path + 1) + 1 ≡ length before + length path + 6 = omega arith in
    let t = slash ∷ path ++ (b'\t' ∷ version_text rest) in
    let cut : store buf at 0 ≡ ok mid = rw three at (store-behind before get t separator 0) in
    let cut2 : store mid (url + (length path + 1)) 0 ≡ ok end =
      rw tail at (store-behind before target (version_text rest) b'\t' 0) in
    request_line-method separators separator version buf t (length before) clear n m
      (drop-append before _)
    ∙ line_method-version version buf mid t (length before) at cut (drop-append before _)
    ∙ ap (line_version mid) next
    ∙ line_version-protocol mid path (version_text rest) url (omega arith, refl, free)
        (rw four at (drop-behind before get (0 ∷ t) 1))
    ∙ line_protocol-target mid end rest url (url + (length path + 1)) cut2
        (rw tail at (drop-behind before target (0 ∷ version_text rest) 1))
    ∙ ap (line_target end url) last
    ∙ line_target-accepts end _ url (length before + length path + 6)
        (rw four at (drop-behind before get (0 ∷ slash ∷ path ++ (0 ∷ version_text rest)) 1))
