-- ===== src/Http/Response.antt =====
-- The response: add_response and its callers, and process_write, of 15-5 http_conn.cpp.
pub mod Appends
pub mod Errors
pub mod Files
use you_shuang.Base.Bytes.{overwrite}
use you_shuang.Base.{
  ℕ, zero, suc, ◌+◌, ◌-◌, ◌/◌, ◌%◌, Bool, true, false, List, [], ◌∷◌, ◌++◌, codes, ltb, leb, ◌==◌,
  if◌then◌else◌, length, take, set, Run, ok, fault, ◌>>=◌,
}
use you_shuang.Base.Int.{ℤ, pos, negsuc, to_int32}
use you_shuang.Http.Conn.{
  HttpCode, no_request, get_request, bad_request, no_resource, forbidden_request, file_request,
  internal_error, closed_connection, HttpConn, from_write_buf, from_file, write_buffer_size,
}

-- printf's %d.
decimal_loop : ℕ → ℕ → List ℕ → List ℕ
decimal_loop zero n digits = digits
decimal_loop (suc fuel) n digits =
    let rest = decimal_loop fuel (n / 10) ((b'0' + n % 10) ∷ digits) in
    if ltb n 10 then (b'0' + n) ∷ digits else rest

-- The fuel is above the number, and each round divides it by ten.
unfoldable pub decimal : ℤ → List ℕ
unfolding decimal_loop
decimal (pos n) = decimal_loop (n + 1) n []
decimal (negsuc n) = b'-' ∷ decimal_loop (n + 2) (n + 1) []

-- vsnprintf into `room` bytes at `at`: as much of the text as leaves a byte for NUL, and NUL.
vsnprintf : List ℕ → ℕ → ℕ → List ℕ → List ℕ
vsnprintf buf at zero text = buf
vsnprintf buf at (suc room) text = overwrite buf at (take room text ++ (0 ∷ []))

-- `text` is what the format and its arguments make; vsnprintf returns its whole length.
unfoldable pub add_response : HttpConn → List ℕ → HttpConn × Bool
unfolding vsnprintf
add_response c text =
    if leb write_buffer_size c.write_idx
    then (c, false)
    else let room = write_buffer_size - 1 - c.write_idx in
      let written = record c { write_buf = vsnprintf c.write_buf c.write_idx room text } in
      if leb room (length text)
      then (written, false)
      else (record written { write_idx = c.write_idx + length text }, true)

abbrev pub crlf : List ℕ
crlf = b'\r' ∷ b'\n' ∷ []

unfoldable pub status_line : ℕ → List ℕ → List ℕ
status_line status title = codes "HTTP/1.1 " ++ (decimal (pos status) ++ (b' ' ∷ title ++ crlf))

unfoldable pub content_length_line : ℤ → List ℕ
content_length_line n = codes "Content-Length: " ++ (decimal n ++ crlf)

unfoldable pub connection_line : Bool → List ℕ
connection_line linger =
    codes "Connection: " ++ ((if linger then codes "keep-alive" else codes "close") ++ crlf)

unfoldable pub add_status_line : HttpConn → ℕ → List ℕ → HttpConn × Bool
add_status_line c status title = add_response c (status_line status title)

unfoldable pub add_content_length : HttpConn → ℤ → HttpConn × Bool
add_content_length c n = add_response c (content_length_line n)

unfoldable pub add_linger : HttpConn → HttpConn × Bool
add_linger c = add_response c (connection_line c.linger)

unfoldable pub add_blank_line : HttpConn → HttpConn × Bool
add_blank_line c = add_response c crlf

unfoldable pub add_content : HttpConn → List ℕ → HttpConn × Bool
add_content c content = add_response c content

-- add_headers is declared bool and ends without a return, which is undefined behaviour in C++; a
-- compiler may also let it return with no value in particular, which no caller looks at.
pub data NoReturn : Type 0 where
  undefined_behaviour returns_anyhow : NoReturn

abbrev flow_off : NoReturn → HttpConn → Run HttpConn
flow_off undefined_behaviour c = fault
flow_off returns_anyhow c = ok c

-- The results of the three calls are not looked at.
unfoldable pub header_calls : HttpConn → ℤ → HttpConn
unfolding add_content_length add_linger add_blank_line
header_calls c n = (add_blank_line (add_linger (add_content_length c n).0).0).0

unfoldable pub add_headers : NoReturn → HttpConn → ℤ → Run HttpConn
add_headers nr c n = flow_off nr (header_calls c n)

abbrev pub ok_200_title : List ℕ
ok_200_title = codes "OK"

abbrev pub error_400_title : List ℕ
error_400_title = codes "Bad Request"

abbrev pub error_400_form : List ℕ
error_400_form =
    codes "Your Request has bad syntax or is inherently impossible to satisfy." ++ (b'\n' ∷ [])

abbrev pub error_403_title : List ℕ
error_403_title = codes "Forbidden"

abbrev pub error_403_form : List ℕ
error_403_form = codes "You do not have permission to get file from this server." ++ (b'\n' ∷ [])

abbrev pub error_404_title : List ℕ
error_404_title = codes "Not Found"

abbrev pub error_404_form : List ℕ
error_404_form = codes "The requested file was not found on this server." ++ (b'\n' ∷ [])

abbrev pub error_500_title : List ℕ
error_500_title = codes "Internal Error"

abbrev pub error_500_form : List ℕ
error_500_form = codes "There was an unusual problem serving the requested file." ++ (b'\n' ∷ [])

abbrev pub ok_string : List ℕ
ok_string = codes "<html><body></body></html>"

-- The tail of process_write: one block, the write buffer.
send_buffer : HttpConn → HttpConn
send_buffer c = record c { iv = from_write_buf c.write_idx ∷ [] }

-- The four cases for errors, which differ in the status, the title and the form.
unfoldable pub write_error : NoReturn → HttpConn → ℕ → List ℕ → List ℕ → Run (HttpConn × Bool)
unfolding send_buffer add_status_line add_headers add_content
write_error nr c status title form = do
  headed ← add_headers nr (add_status_line c status title).0 (pos (length form))
  let (sent, added) = add_content headed form
  ok (if added then (send_buffer sent, true) else (sent, false))

-- FILE_REQUEST. For an empty file the case has no `break` and runs into `default`.
write_empty : NoReturn → HttpConn → Run (HttpConn × Bool)
unfolding add_headers add_content
write_empty nr c = do
  headed ← add_headers nr c (pos (length ok_string))
  ok ((add_content headed ok_string).0, false)

write_full : NoReturn → HttpConn → Run (HttpConn × Bool)
unfolding add_headers
write_full nr c = do
  headed ← add_headers nr c (to_int32 (pos c.file_stat.size))
  ok (
    record headed {
      iv =
          from_write_buf headed.write_idx
          ∷ from_file headed.file_address headed.file_stat.size
          ∷ [];
    },
    true,
  )

unfoldable pub write_file : NoReturn → HttpConn → Run (HttpConn × Bool)
unfolding add_status_line write_empty write_full
write_file nr c =
    let titled = (add_status_line c 200 ok_200_title).0 in
    if titled.file_stat.size == 0 then write_empty nr titled else write_full nr titled

unfoldable pub process_write : NoReturn → HttpConn → HttpCode → Run (HttpConn × Bool)
unfolding write_error write_file
process_write nr c internal_error = write_error nr c 500 error_500_title error_500_form
process_write nr c bad_request = write_error nr c 400 error_400_title error_400_form
process_write nr c no_resource = write_error nr c 404 error_404_title error_404_form
process_write nr c forbidden_request = write_error nr c 403 error_403_title error_403_form
process_write nr c file_request = write_file nr c
process_write nr c no_request = ok (c, false)
process_write nr c get_request = ok (c, false)
process_write nr c closed_connection = ok (c, false)
