-- ===== src/Http/Request.antt =====
-- The request line: http_conn::parse_request_line of 15-5 http_conn.cpp and parse_requestline of
-- 8-3 parse_line.cpp, which differ in the separators that may stand behind the method.
pub mod Bounds
pub mod Accepts
pub mod Rejects
use you_shuang.Base.{
  ℕ, ◌+◌, Bool, true, false, List, [], ◌∷◌, Option, none, some, codes, ◌==◌, if◌then◌else◌, Run, ok,
  ◌>>=◌, load, store,
}
use you_shuang.Http.Text.{strpbrk, strchr, strspn, strcasecmp_eq, strncasecmp_eq}

pub data HttpCode : Type 0 where
  no_request get_request bad_request no_resource : HttpCode
  forbidden_request file_request internal_error closed_connection : HttpCode

abbrev pub tab : List ℕ
tab = b'\t' ∷ []

abbrev pub slash : ℕ
slash = b'/'

-- What the function leaves behind: the buffer, m_url and m_version as offsets into it (`none` is a
-- null pointer), whether the method was found to be GET, and its result.
pub record RequestLine : Type 0 where
  pub buf : List ℕ
  pub url : Option ℕ
  pub version : Option ℕ
  pub is_get : Bool
  pub code : HttpCode

reject : List ℕ → Option ℕ → Option ℕ → Bool → Run RequestLine
reject buf url version is_get =
    ok (record { buf = buf; url = url; version = version; is_get = is_get; code = bad_request })

check_slash : List ℕ → Option ℕ → ℕ → Run RequestLine
check_slash buf none version = reject buf none (some version) true
check_slash buf (some url) version = do
  first ← load buf url
  if first == slash
      then ok (record {
        buf = buf;
        url = some url;
        version = some version;
        is_get = true;
        code = no_request;
      })
      else reject buf (some url) (some version) true

line_target : List ℕ → ℕ → ℕ → Run RequestLine
line_target buf url version = do
  absolute ← strncasecmp_eq buf url (codes "http://")
  path ← if absolute then strchr buf (url + 7) slash else ok (some url)
  check_slash buf path version

line_protocol : List ℕ → ℕ → ℕ → Run RequestLine
line_protocol buf url at = do
  cut ← store buf at 0
  skipped ← strspn cut (at + 1) tab
  same ← strcasecmp_eq cut (at + 1 + skipped) (codes "HTTP/1.1")
  if same
      then line_target cut url (at + 1 + skipped)
      else reject cut (some url) (some (at + 1 + skipped)) true

line_version : List ℕ → ℕ → Run RequestLine
line_version buf url = do
  skipped ← strspn buf url tab
  found ← strpbrk buf (url + skipped) tab
  elim found [
    | none ↦ reject buf (some (url + skipped)) none true
    | some at ↦ line_protocol buf (url + skipped) at
  ]

line_method : Option ℕ → List ℕ → ℕ → ℕ → Run RequestLine
line_method version buf text at = do
  cut ← store buf at 0
  same ← strcasecmp_eq cut text (codes "GET")
  if same then line_version cut (at + 1) else reject cut (some (at + 1)) version false

-- On the line at offset `text`; `version` is the value of m_version before the call.
unfoldable pub parse_request_line : List ℕ → Option ℕ → List ℕ → ℕ → Run RequestLine
unfolding reject check_slash line_target line_protocol line_version line_method
parse_request_line separators version buf text = do
  found ← strpbrk buf text separators
  elim found [ none ↦ reject buf none version false | some at ↦ line_method version buf text at ]
