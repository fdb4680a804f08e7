-- ===== src/ParseLine.antt =====
-- 8-3 parse_line.cpp: a server that reads one request with the two state machines and answers
-- with one of two lines. prase_line is Http.Line.parse_line; the request line is
-- Http.Request.parse_request_line with a tab as the separator.
pub mod Terminates
use you_shuang.Base.{
  ℕ, zero, suc, ◌+◌, ◌-◌, List, [], ◌∷◌, ◌++◌, Option, none, some, codes, leb, ◌==◌, if◌then◌else◌,
  Run, ok, fault, ◌>>=◌, length, load, replicate,
}
use you_shuang.Http.Text.{strspn, strncasecmp_eq}
use you_shuang.Http.Line.{LineStatus, line_ok, line_bad, line_open, Parsed, parse_line}
use you_shuang.Http.Request.{
  HttpCode, no_request, get_request, bad_request, internal_error, tab, RequestLine,
  parse_request_line,
}
use you_shuang.Base.Bytes.{overwrite}

pub data CheckState : Type 0 where
  check_state_requestline check_state_header : CheckState

abbrev pub buffer_size : ℕ
buffer_size = 4096

-- The variables of main that parse_content works on.
pub record Analysis : Type 0 where
  pub buffer : List ℕ
  pub checked_index : ℕ
  pub checkstate : CheckState
  pub read_index : ℕ
  pub start_line : ℕ

unfoldable pub parse_requestline : Analysis → ℕ → Run (Analysis × HttpCode)
parse_requestline a temp = do
  r ← parse_request_line tab none a.buffer temp
  let parsed = record a { buffer = r.buf }
  ok (elim r.code [
    | no_request ↦ (record parsed { checkstate = check_state_header }, no_request)
    | other ↦ (parsed, other)
  ])

-- The host is only printed.
unfoldable pub parse_headers : Analysis → ℕ → Run HttpCode
parse_headers a temp = do
  first ← load a.buffer temp
  if first == 0 then ok get_request else (do
    is_host ← strncasecmp_eq a.buffer temp (codes "Host:")
    if is_host then (strspn a.buffer (temp + 5) tab >>= λ _. ok no_request) else ok no_request)

pub data Next : Type 0 where
  continue : Analysis → Next
  return : Analysis → HttpCode → Next

after_request_line : Analysis × HttpCode → Run Next
after_request_line (a, bad_request) = ok (return a bad_request)
after_request_line (a, _) = ok (continue a)

after_headers : Analysis → HttpCode → Run Next
after_headers a bad_request = ok (return a bad_request)
after_headers a get_request = ok (return a get_request)
after_headers a _ = ok (continue a)

switch : CheckState → Analysis → ℕ → Run Next
switch check_state_requestline a temp = parse_requestline a temp >>= after_request_line
switch check_state_header a temp = parse_headers a temp >>= after_headers a

-- The end of the loop: the last status of the line decides.
take_line : LineStatus → Analysis → Run Next
take_line line_ok a = switch a.checkstate (record a { start_line = a.checked_index }) a.start_line
take_line line_open a = ok (return a no_request)
take_line line_bad a = ok (return a bad_request)

step : Analysis → Run Next
step a = do
  p ← parse_line a.buffer a.checked_index a.read_index
  take_line p.status (record a { buffer = p.buf; checked_index = p.checked })

-- `none` means that the fuel has run out.
parse_content_loop : ℕ → Analysis → Run (Option (Analysis × HttpCode))
parse_content_loop zero a = ok none
parse_content_loop (suc fuel) a =
    step a >>= elim [ continue b ↦ parse_content_loop fuel b | return b code ↦ ok (some (b, code)) ]

unfoldable pub parse_content : Analysis → Run (Option (Analysis × HttpCode))
unfolding parse_content_loop step take_line switch after_headers after_request_line
parse_content a = parse_content_loop (a.read_index - a.checked_index + 1) a

-- An answer of recv: -1, or bytes (none where the other side has closed).
pub data Received : Type 0 where
  error : Received
  bytes : List ℕ → Received

-- How main's loop ends: with one of the two lines sent, or with none; or it waits for more data.
pub data Answer : Type 0 where
  correct_result something_wrong : Answer
  reading_failed remote_closed : Answer
  waiting : Analysis → Answer

-- What main does with the result; `rest` is the next round.
react : (Analysis → Run Answer) → Option (Analysis × HttpCode) → Run Answer
react rest none = fault
react rest (some (r, no_request)) = rest r
react rest (some (r, get_request)) = ok correct_result
react rest (some (r, _)) = ok something_wrong

main_loop : List Received → Analysis → Run Answer
main_loop [] a = ok (waiting a)
main_loop (error ∷ answers) a = ok reading_failed
main_loop (bytes [] ∷ answers) a = ok remote_closed
main_loop (bytes (b ∷ bs) ∷ answers) a =
    let filled = record a {
      buffer = overwrite a.buffer a.read_index (b ∷ bs);
      read_index = a.read_index + length (b ∷ bs);
    } in
    let rest = λ (r : Analysis). main_loop answers r in
    if leb (length (b ∷ bs)) (buffer_size - a.read_index)
    then (parse_content filled >>= react rest)
    else fault

abbrev pub initial : Analysis
initial = record {
  buffer = replicate buffer_size 0;
  checked_index = 0;
  checkstate = check_state_requestline;
  read_index = 0;
  start_line = 0;
}

-- The loop of main, from the first recv to the answer.
unfoldable pub serve : List Received → Run Answer
unfolding main_loop react
serve answers = main_loop answers initial
