-- ===== src/Http/Reading.antt =====
-- Reading a request: http_conn::read, parse_headers, parse_content, do_request and process_read of
-- 15-5 http_conn.cpp.
pub mod Terminates
pub mod Fills
use you_shuang.Base.{
  ℕ, zero, suc, ◌+◌, ◌-◌, ◌*◌, ◌^◌, Bool, true, false, not, List, [], ◌∷◌, ◌++◌, Option, none, some,
  codes, ltb, leb, ◌==◌, if◌then◌else◌, Run, ok, fault, ◌>>=◌, length, drop, load, store,
}
use you_shuang.Base.Int.{ℤ, pos, negsuc, ◌+ℤ◌, lebℤ, to_int32}
use you_shuang.Http.Text.{strspn, strcasecmp_eq, strncasecmp_eq, atol}
use you_shuang.Http.Line.{LineStatus, line_ok, line_open, parse_line}
use you_shuang.Http.Request.{tab, parse_request_line}
use you_shuang.Http.Conn.{
  HttpCode, no_request, get_request, bad_request, no_resource, forbidden_request, file_request,
  HttpConn, CheckState, check_state_requestline, check_state_header, check_state_content, get,
  FileStat, doc_root, filename_len, read_buffer_size,
}
use you_shuang.Base.Bytes.{overwrite, c_string, Received, again, error, bytes}

-- The loop of read(), over the answers of recv; after the last of them comes EAGAIN. An answer
-- that is longer than what was asked for breaks recv's contract.
read_loop : List Received → HttpConn → Run (HttpConn × Bool)
read_loop [] c = ok (c, true)
read_loop (again ∷ answers) c = ok (c, true)
read_loop (error ∷ answers) c = ok (c, false)
read_loop (bytes [] ∷ answers) c = ok (c, false)
read_loop (bytes (b ∷ bs) ∷ answers) c =
    let next = record c {
      read_buf = overwrite c.read_buf c.read_idx (b ∷ bs);
      read_idx = c.read_idx + length (b ∷ bs);
    } in
    let rest = read_loop answers next in
    if leb (length (b ∷ bs)) (read_buffer_size - c.read_idx) then rest else fault

unfoldable pub read : HttpConn → List Received → Run (HttpConn × Bool)
unfolding read_loop
read c answers = if leb read_buffer_size c.read_idx then ok (c, false) else read_loop answers c

-- parse_request_line on the connection's fields. strpbrk looks for a space or a tab.
abbrev pub http_separators : List ℕ
http_separators = b' ' ∷ b'\t' ∷ []

unfoldable pub request_line : HttpConn → ℕ → Run (HttpConn × HttpCode)
request_line c text = do
  r ← parse_request_line http_separators c.version c.read_buf text
  let parsed = record c {
    read_buf = r.buf;
    url = r.url;
    version = r.version;
    method = if r.is_get then get else c.method;
  }
  ok (elim r.code [
    | no_request ↦ (record parsed { check_state = check_state_header }, no_request)
    | other ↦ (parsed, other)
  ])

connection_header : HttpConn → ℕ → Run (HttpConn × HttpCode)
connection_header c text = do
  skipped ← strspn c.read_buf (text + 11) tab
  same ← strcasecmp_eq c.read_buf (text + 11 + skipped) (codes "keep-alive")
  ok (if same then record c { linger = true } else c, no_request)

content_length_header : HttpConn → ℕ → Run (HttpConn × HttpCode)
content_length_header c text = do
  skipped ← strspn c.read_buf (text + 15) tab
  n ← atol c.read_buf (text + 15 + skipped)
  ok (record c { content_length = to_int32 n }, no_request)

host_header : HttpConn → ℕ → Run (HttpConn × HttpCode)
host_header c text = do
  skipped ← strspn c.read_buf (text + 5) tab
  ok (record c { host = some (text + 5 + skipped) }, no_request)

is_zero : ℤ → Bool
is_zero (pos n) = n == 0
is_zero (negsuc n) = false

blank_line : HttpConn → Run (HttpConn × HttpCode)
blank_line c = ok (
    if not (is_zero c.content_length)
    then (record c { check_state = check_state_content }, no_request)
    else (c, get_request))

unfoldable pub parse_headers : HttpConn → ℕ → Run (HttpConn × HttpCode)
unfolding connection_header content_length_header host_header is_zero blank_line
parse_headers c text = do
  first ← load c.read_buf text
  if first == 0 then blank_line c else (do
    is_connection ← strncasecmp_eq c.read_buf text (codes "Connection:")
    if is_connection then connection_header c text else (do
      is_length ← strncasecmp_eq c.read_buf text (codes "Content-Length:")
      if is_length then content_length_header c text else (do
        is_host ← strncasecmp_eq c.read_buf text (codes "Host:")
        if is_host then host_header c text else ok (c, no_request))))

-- A byte at a signed distance from an offset.
store_signed : List ℕ → ℕ → ℤ → ℕ → Run (List ℕ)
store_signed buf at (pos n) v = store buf (at + n) v
store_signed buf at (negsuc n) v = if ltb n at then store buf (at - (n + 1)) v else fault

-- The sum is an int, and overflow is undefined.
unfoldable pub parse_content : HttpConn → ℕ → Run (HttpConn × HttpCode)
unfolding store_signed
parse_content c text =
    let end = c.content_length +ℤ pos c.checked_idx in
    if lebℤ (pos (2 ^ 31)) end
    then fault
    else if lebℤ end (pos c.read_idx)
    then (do
      buf ← store_signed c.read_buf text c.content_length 0
      ok (record c { read_buf = buf }, get_request))
    else ok (c, no_request)

-- What do_request asks of the system: stat by path, and the address that mmap gives a file.
pub record FileSystem : Type 0 where
  pub stat : List ℕ → Option FileStat
  pub mmap : List ℕ → ℕ → ℕ

-- What strncpy writes: `n` bytes, with NUL behind the end of the string.
unfoldable pub strncpy_bytes : ℕ → List ℕ → List ℕ
strncpy_bytes zero s = []
strncpy_bytes (suc n) [] = 0 ∷ strncpy_bytes n []
strncpy_bytes (suc n) (c ∷ s) = c ∷ strncpy_bytes n s

open_file : FileSystem → HttpConn → List ℕ → FileStat → HttpConn × HttpCode
open_file fs c path st =
    let found = record c { file_stat = st } in
    if not st.other_read
    then (found, forbidden_request)
    else if st.is_directory
    then (found, bad_request)
    else (record found { file_address = fs.mmap path st.size }, file_request)

find_file : FileSystem → HttpConn → List ℕ → Option FileStat → HttpConn × HttpCode
find_file fs c path none = (c, no_resource)
find_file fs c path (some st) = open_file fs c path st

request_file : FileSystem → HttpConn → Option ℕ → Run (HttpConn × HttpCode)
request_file fs c none = fault
request_file fs c (some url) = do
  target ← c_string (drop url c.read_buf)
  let room = filename_len - length doc_root - 1
  let file = doc_root ++ (strncpy_bytes room target ++ drop (filename_len - 1) c.real_file)
  path ← c_string file
  ok (find_file fs (record c { real_file = file }) path (fs.stat path))

-- m_real_file becomes the root, the target (cut off, or filled up with NUL) and the last byte that
-- it had. A null m_url is a fault.
unfoldable pub do_request : FileSystem → HttpConn → Run (HttpConn × HttpCode)
unfolding request_file open_file find_file
do_request fs c = request_file fs c c.url

-- How a loop over the lines goes on: with its variables, or with a result.
pub data Next : Type 0 where
  continue : LineStatus → HttpConn → Next
  return : HttpConn → HttpCode → Next

after_request_line : HttpConn × HttpCode → Run Next
after_request_line (c, bad_request) = ok (return c bad_request)
after_request_line (c, _) = ok (continue line_ok c)

after_headers : FileSystem → HttpConn × HttpCode → Run Next
after_headers fs (c, bad_request) = ok (return c bad_request)
after_headers fs (c, get_request) = do (d, code) ← do_request fs c; ok (return d code)
after_headers fs (c, _) = ok (continue line_ok c)

after_content : FileSystem → HttpConn × HttpCode → Run Next
after_content fs (c, get_request) = do (d, code) ← do_request fs c; ok (return d code)
after_content fs (c, _) = ok (continue line_open c)

-- The body of the loop, once a line (or the message body) is there.
switch : FileSystem → CheckState → HttpConn → ℕ → Run Next
switch fs check_state_requestline c text = request_line c text >>= after_request_line
switch fs check_state_header c text = parse_headers c text >>= after_headers fs
switch fs check_state_content c text = parse_content c text >>= after_content fs

take_line : FileSystem → HttpConn → Run Next
take_line fs c = switch fs c.check_state (record c { start_line = c.checked_idx }) c.start_line

-- The second operand of the loop's condition.
next_line : FileSystem → HttpConn → Run Next
next_line fs c = do
  p ← parse_line c.read_buf c.checked_idx c.read_idx
  let scanned = record c { read_buf = p.buf; checked_idx = p.checked }
  elim p.status [ line_ok ↦ take_line fs scanned | _ ↦ ok (return scanned no_request) ]

in_content : CheckState → LineStatus → Bool
in_content check_state_content line_ok = true
in_content _ _ = false

step : FileSystem → LineStatus → HttpConn → Run Next
step fs status c = if in_content c.check_state status then take_line fs c else next_line fs c

-- `none` means that the fuel has run out.
process_read_loop : ℕ → FileSystem → LineStatus → HttpConn → Run (Option (HttpConn × HttpCode))
process_read_loop zero fs status c = ok none
process_read_loop (suc fuel) fs status c = step fs status c >>= elim [
  | continue status' d ↦ process_read_loop fuel fs status' d
  | return d code ↦ ok (some (d, code))
]

unfoldable pub process_read : FileSystem → HttpConn → Run (Option (HttpConn × HttpCode))
unfolding process_read_loop step in_content next_line take_line switch after_content after_headers
    after_request_line
process_read fs c = process_read_loop (2 * (c.read_idx - c.checked_idx) + 2) fs line_ok c
