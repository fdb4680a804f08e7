-- ===== src/Http/Reading/Terminates.antt =====
-- The loop of process_read in 15-5 http_conn.cpp ends.
use you_shuang.Base.{
  ℕ, zero, suc, ◌+◌, ◌-◌, ◌*◌, ◌≤◌, ◌<◌, ◌≡◌, refl, ◌∙◌, List, Option, none, some, arith,
  if◌then◌else◌, ok, ◌>>=◌, length, IfReturns, IfReturns-bind, Returns-if, length-store,
}
use you_shuang.Base.Int.{ℤ, pos, negsuc}
use you_shuang.Http.Text.Bounds.{IsString}
use you_shuang.Http.Line.{LineStatus, line_ok, line_bad, line_open}
use you_shuang.Http.Line.Outcome.{Outcome, parse_line-Outcome}
use you_shuang.Http.Line.Cuts.{cut-IsString}
use you_shuang.Http.Request.Bounds.{Keeps, parse_request_line-Keeps}
use you_shuang.Http.Conn.{
  HttpConn, HttpCode, no_request, get_request, bad_request, CheckState, check_state_requestline,
  check_state_header, check_state_content, read_buffer_size, FileStat,
}
use you_shuang.Http.Reading.{
  http_separators, request_line, connection_header, content_length_header, host_header, blank_line,
  parse_headers, store_signed, parse_content, FileSystem, open_file, find_file, request_file,
  do_request, Next, continue, return, after_request_line, after_headers, after_content, switch,
  take_line, next_line, in_content, step, process_read_loop, process_read,
}

-- The indices are in order and in the buffer.
pub record IsReading (c : HttpConn) : Type 0 where
  pub size : length c.read_buf ≡ read_buffer_size
  pub line_le : c.start_line ≤ c.checked_idx
  pub checked_le : c.checked_idx ≤ c.read_idx
  pub filled : c.read_idx ≤ read_buffer_size

-- The handlers of a line leave the size of the buffer and the indices alone.
record SameIndices (c d : HttpConn) : Type 0 where
  size : length d.read_buf ≡ length c.read_buf
  read_same : d.read_idx ≡ c.read_idx
  checked_same : d.checked_idx ≡ c.checked_idx
  line_same : d.start_line ≡ c.start_line

abbrev Handled : HttpConn → HttpConn × HttpCode → Type 0
Handled c r = SameIndices c r.0

request_line-same :
    (c : HttpConn) (text z : ℕ)
    → IsString c.read_buf text z
    → IfReturns (Handled c) (request_line c text)
unfolding request_line
request_line-same c text z s =
    IfReturns-bind (Keeps (length c.read_buf) text z) (Handled c) _ _
      (Returns-if (Keeps (length c.read_buf) text z) _
        (parse_request_line-Keeps http_separators c.version c.read_buf text z s))
      (λ r k. ground arith)

same : (c : HttpConn) → SameIndices c c
same c = record { size = refl; read_same = refl; checked_same = refl; line_same = refl }

header-same :
    (c : HttpConn) (text : ℕ)
    → IfReturns (Handled c) (connection_header c text)
      × IfReturns (Handled c) (content_length_header c text)
      × IfReturns (Handled c) (host_header c text)
unfolding connection_header content_length_header host_header
header-same c text = (ground arith, ground arith, ground arith)

blank_line-same : (c : HttpConn) → IfReturns (Handled c) (blank_line c)
unfolding blank_line
blank_line-same c = ground arith

parse_headers-same : (c : HttpConn) (text : ℕ) → IfReturns (Handled c) (parse_headers c text)
unfolding parse_headers
parse_headers-same c text =
    let (connection, length_, host) = header-same c text in
    ground (arith, connection, length_, host, blank_line-same c, same c)

length-store_signed :
    (buf : List ℕ) (at : ℕ) (n : ℤ) (v : ℕ)
    → IfReturns (λ b. length b ≡ length buf) (store_signed buf at n v)
unfolding store_signed
length-store_signed buf at (pos n) v = length-store buf (at + n) v
length-store_signed buf at (negsuc n) v = ground (arith, length-store buf (at - (n + 1)) v)

parse_content-same : (c : HttpConn) (text : ℕ) → IfReturns (Handled c) (parse_content c text)
unfolding parse_content
parse_content-same c text =
    let stored =
      IfReturns-bind (λ b. length b ≡ length c.read_buf) (Handled c)
        (store_signed c.read_buf text c.content_length 0)
        (λ b. ok (record c { read_buf = b }, get_request))
        (length-store_signed c.read_buf text c.content_length 0)
        (λ b e. record { size = e; read_same = refl; checked_same = refl; line_same = refl }) in
    ground arith

find_file-same :
    (fs : FileSystem) (c : HttpConn) (path : List ℕ) (st : Option FileStat)
    → Handled c (find_file fs c path st)
unfolding find_file open_file
find_file-same fs c path none = same c
find_file-same fs c path (some st) = ground arith

do_request-same : (fs : FileSystem) (c : HttpConn) → IfReturns (Handled c) (do_request fs c)
unfolding do_request
do_request-same fs c = by_url c.url
  where
    by_url : (url : Option ℕ) → IfReturns (Handled c) (request_file fs c url)
    by_url none = tt
    by_url (some url) = ground (arith, find_file-same fs)

abbrev measure : LineStatus → HttpConn → ℕ
measure status c =
    2 * (c.read_idx - c.checked_idx) + (if in_content c.check_state status then 1 else 0)

-- The loop goes on with less to do, or ends; the indices stay in order.
abbrev Progress : ℕ → Next → Type 0
Progress m (continue status d) = IsReading d × (measure status d < m)
Progress m (return d code) = IsReading d

SameIndices-IsReading : {c d : HttpConn} → IsReading c → SameIndices c d → IsReading d
SameIndices-IsReading r s = record {
  size = s.size ∙ r.size;
  line_le = omega (arith, r.line_le, s.line_same, s.checked_same);
  checked_le = omega (arith, r.checked_le, s.read_same, s.checked_same);
  filled = omega (arith, r.filled, s.read_same);
}

measure-le :
    (status : LineStatus) (c : HttpConn) → measure status c ≤ 2 * (c.read_idx - c.checked_idx) + 1
measure-le status c = ground arith

requested :
    (fs : FileSystem) (d : HttpConn) (m : ℕ)
    → IsReading d
    → IfReturns (Progress m) (do_request fs d >>= λ (e, code). ok (return e code))
requested fs d m h =
    IfReturns-bind (Handled d) (Progress m) (do_request fs d) (λ (e, code). ok (return e code))
      (do_request-same fs d) (λ r s. SameIndices-IsReading h s)

module _ (fs : FileSystem) (c d : HttpConn) (m : ℕ) (h : IsReading c) (s : SameIndices c d) where
  lines-on : 2 * (c.read_idx - c.checked_idx) + 1 < m → Progress m (continue line_ok d)
  lines-on p =
      (SameIndices-IsReading h s, omega (arith, measure-le line_ok d, s.read_same, s.checked_same))

  after_request_line-Progress :
      (code : HttpCode)
      → 2 * (c.read_idx - c.checked_idx) + 1 < m
      → IfReturns (Progress m) (after_request_line (d, code))
  unfolding after_request_line
  after_request_line-Progress bad_request p = SameIndices-IsReading h s
  after_request_line-Progress _ p = lines-on p

  after_headers-Progress :
      (code : HttpCode)
      → 2 * (c.read_idx - c.checked_idx) + 1 < m
      → IfReturns (Progress m) (after_headers fs (d, code))
  unfolding after_headers
  after_headers-Progress bad_request p = SameIndices-IsReading h s
  after_headers-Progress get_request p = requested fs d m (SameIndices-IsReading h s)
  after_headers-Progress _ p = lines-on p

  after_content-Progress :
      (code : HttpCode)
      → 2 * (c.read_idx - c.checked_idx) < m
      → IfReturns (Progress m) (after_content fs (d, code))
  unfolding after_content in_content
  after_content-Progress get_request p = requested fs d m (SameIndices-IsReading h s)
  after_content-Progress _ p =
      let i = s.read_same in let j = s.checked_same in (SameIndices-IsReading h s, ground arith)

switch-Progress :
    (fs : FileSystem) (state : CheckState) (c : HttpConn) (m text z : ℕ)
    → IsReading c
    → IsString c.read_buf text z
    → 2 * (c.read_idx - c.checked_idx) + 1 < m
    → IfReturns (Progress m) (switch fs state c text)
unfolding switch
switch-Progress fs check_state_requestline c m text z h s p =
    IfReturns-bind (Handled c) (Progress m) _ after_request_line (request_line-same c text z s)
      (λ (d, code) t. after_request_line-Progress fs c d m h t code p)
switch-Progress fs check_state_header c m text z h s p =
    IfReturns-bind (Handled c) (Progress m) _ (after_headers fs) (parse_headers-same c text)
      (λ (d, code) t. after_headers-Progress fs c d m h t code p)
switch-Progress fs check_state_content c m text z h s p =
    IfReturns-bind (Handled c) (Progress m) _ (after_content fs) (parse_content-same c text)
      (λ (d, code) t. after_content-Progress fs c d m h t code (omega arith))

next_line-Progress :
    (fs : FileSystem) (c : HttpConn) (m : ℕ)
    → IsReading c
    → 2 * (c.read_idx - c.checked_idx) ≤ m
    → IfReturns (Progress m) (next_line fs c)
unfolding next_line take_line
next_line-Progress fs c m h p =
    IfReturns-bind (Outcome c.read_buf c.checked_idx c.read_idx) (Progress m) _ _
      (Returns-if (Outcome c.read_buf c.checked_idx c.read_idx) _ (
        parse_line-Outcome c.read_buf c.checked_idx c.read_idx h.checked_le
          (omega (arith, h.filled, h.size))))
      (λ q o. by_status q.status q.buf q.checked o)
  where
    by_status :
        (status : LineStatus) (buf : List ℕ) (i : ℕ)
        → Outcome c.read_buf c.checked_idx c.read_idx
            (record { status = status; buf = buf; checked = i })
        → IfReturns (Progress m) (
            let scanned = record c { read_buf = buf; checked_idx = i } in
            elim status [ line_ok ↦ take_line fs scanned | _ ↦ ok (return scanned no_request) ])
    by_status line_bad buf i o = record {
      size = rw o.0 h.size;
      line_le = omega (arith, h.line_le, o.1);
      checked_le = omega (arith, o.2);
      filled = h.filled;
    }
    by_status line_open buf i o = record {
      size = rw o.0 h.size;
      line_le = omega (arith, h.line_le, o.1);
      checked_le = omega (arith, o.3);
      filled = h.filled;
    }
    by_status line_ok buf i o =
        let t = rw (← o.7) at (
          cut-IsString c.read_buf c.start_line o.0 (omega (arith, h.line_le, o.2))
            (omega (arith, o.1, o.3, h.size, h.filled))) in
        switch-Progress fs c.check_state
          (record c { read_buf = buf; checked_idx = i; start_line = i }) m c.start_line (o.0 + 1)
          (record {
            size = t.0 ∙ h.size;
            line_le = omega arith;
            checked_le = o.3;
            filled = h.filled;
          })
          t.1 (omega (arith, o.1, o.2, o.3))

step-Progress :
    (fs : FileSystem) (status : LineStatus) (c : HttpConn)
    → IsReading c
    → IfReturns (Progress (measure status c)) (step fs status c)
unfolding step in_content take_line switch
step-Progress fs status c h = by_state c.check_state status
  where
    d : HttpConn
    d = record c { start_line = c.checked_idx }

    start : IsReading d
    start = record {
      size = h.size;
      line_le = omega arith;
      checked_le = h.checked_le;
      filled = h.filled;
    }

    by_state :
        (state : CheckState) (status : LineStatus)
        → IfReturns
            (Progress
              (2 * (c.read_idx - c.checked_idx) + (if in_content state status then 1 else 0)))
            (if in_content state status then switch fs state d c.start_line else next_line fs c)
    by_state check_state_content line_ok =
        IfReturns-bind (Handled d) (Progress (2 * (c.read_idx - c.checked_idx) + 1)) _
          (after_content fs) (parse_content-same d c.start_line)
          (λ (f, code) t. after_content-Progress fs d f _ start t code (omega arith))
    by_state check_state_content line_bad = next_line-Progress fs c _ h (omega arith)
    by_state check_state_content line_open = next_line-Progress fs c _ h (omega arith)
    by_state _ _ = next_line-Progress fs c _ h (omega arith)

abbrev pub Ends : Option (HttpConn × HttpCode) → Type 0
Ends none = ⊥
Ends (some (d, code)) = IsReading d

process_read_loop-Ends :
    (fuel : ℕ) (fs : FileSystem) (status : LineStatus) (c : HttpConn)
    → IsReading c
    → measure status c < fuel
    → IfReturns Ends (process_read_loop fuel fs status c)
unfolding process_read_loop
process_read_loop-Ends zero fs status c h p = elim p [ ]
process_read_loop-Ends (suc fuel) fs status c h p =
    IfReturns-bind (Progress (measure status c)) Ends (step fs status c) _
      (step-Progress fs status c h)
      (elim [
        | continue status' d ↦
            λ g. process_read_loop-Ends fuel fs status' d g.0 (omega (arith, g.1))
        | return d code ↦ λ g. g
      ])

-- On a connection whose indices are in order, whatever bytes it has read and in whatever state it
-- is, the loop of process_read does not run for ever (the fuel of the model is enough). Where it
-- does not meet undefined behaviour, it leaves the indices in order, with the line's start and the
-- checked bytes within what was read.
pub process_read-Ends :
    (fs : FileSystem) (c : HttpConn) → IsReading c → IfReturns Ends (process_read fs c)
unfolding process_read
process_read-Ends fs c h =
    process_read_loop-Ends (2 * (c.read_idx - c.checked_idx) + 2) fs line_ok c h
      (omega (arith, measure-le line_ok c))
