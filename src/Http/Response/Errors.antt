-- ===== src/Http/Response/Errors.antt =====
-- The responses to requests that fail and to requests for a file: process_write and the functions
-- that it calls, of 15-5 http_conn.cpp.
use you_shuang.Base.{
  ℕ, ◌+◌, ◌<◌, ◌≡◌, ap, Bool, true, List, [], ◌∷◌, ◌++◌, arith, length, length-append, Run, fault,
  Returns,
}
use mathlib.Core.Path.{subst}
use mathlib.Core.Option.{Option, none, some}
use you_shuang.Base.Int.{ℤ, pos}
use you_shuang.Http.Conn.{
  HttpCode, bad_request, no_resource, forbidden_request, internal_error, HttpConn, from_write_buf,
  write_buffer_size,
}
use you_shuang.Http.Response.{
  add_response, status_line, content_length_line, connection_line, crlf, NoReturn,
  undefined_behaviour, returns_anyhow, header_calls, error_400_title, error_400_form,
  error_403_title, error_403_form, error_404_title, error_404_form, error_500_title, error_500_form,
}
use you_shuang.Http.Response.Appends.{
  written, IsWritable, Appends, add_response-Appends, Appends-IsWritable, Appends-trans,
}

unfoldable pub header_lines : ℤ → Bool → List ℕ
unfolding content_length_line connection_line
header_lines n linger = content_length_line n ++ (connection_line linger ++ crlf)

length-header_lines :
    (n : ℤ) (linger : Bool)
    → length (header_lines n linger)
      ≡ length (content_length_line n) + length (connection_line linger) + 2
unfolding header_lines
length-header_lines n linger = omega (
  arith,
  length-append (content_length_line n) (connection_line linger ++ crlf),
  length-append (connection_line linger) crlf,
)

pub header_calls-Appends :
    (c : HttpConn) (n : ℤ)
    → IsWritable c
    → c.write_idx + length (header_lines n c.linger) + 1 < write_buffer_size
    → Appends c (header_lines n c.linger) (header_calls c n)
unfolding header_calls header_lines
header_calls-Appends c n w h =
    let l1 = content_length_line n in
    let total = length-header_lines n c.linger in
    let c1 = (add_response c l1).0 in
    let a1 = (add_response-Appends c l1 w (omega (arith, total))).1 in
    let w1 = Appends-IsWritable a1 (omega (arith, total)) in
    let i1 : c1.write_idx ≡ c.write_idx + length l1 = ap (λ x. x.write_idx) a1.same in
    let g1 : c1.linger ≡ c.linger = ap (λ x. x.linger) a1.same in
    let l2 = connection_line c1.linger in
    let e2 : length l2 ≡ length (connection_line c.linger) =
      ap (λ b. length (connection_line b)) g1 in
    let c2 = (add_response c1 l2).0 in
    let a2 = (add_response-Appends c1 l2 w1 (omega (arith, total, i1, e2))).1 in
    let w2 = Appends-IsWritable a2 (omega (arith, total, i1, e2)) in
    let i2 : c2.write_idx ≡ c1.write_idx + length l2 = ap (λ x. x.write_idx) a2.same in
    let a3 = (add_response-Appends c2 crlf w2 (omega (arith, total, i1, i2, e2))).1 in
    subst (λ b. Appends c (l1 ++ (connection_line b ++ crlf)) (header_calls c n)) g1
      (Appends-trans a1 (Appends-trans a2 a3))

-- The whole response to a request that fails.
unfoldable pub error_text : ℕ → List ℕ → List ℕ → Bool → List ℕ
unfolding status_line header_lines
error_text status title form linger =
    status_line status title ++ (header_lines (pos (length form)) linger ++ form)

-- The response as process_write leaves it: one block with the text behind what was written.
pub record Responds (c : HttpConn) (text : List ℕ) (d : HttpConn) : Type 0 where
  pub text_is : written d ≡ written c ++ text
  pub one_block : d.iv ≡ from_write_buf d.write_idx ∷ []
  pub length_is : d.write_idx ≡ c.write_idx + length text

abbrev pub Succeeds : HttpConn → List ℕ → HttpConn × Bool → Type 0
Succeeds c text r = (r.1 ≡ true) × Responds c text r.0

-- The status, the title and the form of each result that is answered by an error.
unfoldable pub failure_text : HttpCode → Bool → Option (List ℕ)
unfolding error_text
failure_text internal_error linger = some (error_text 500 error_500_title error_500_form linger)
failure_text bad_request linger = some (error_text 400 error_400_title error_400_form linger)
failure_text no_resource linger = some (error_text 404 error_404_title error_404_form linger)
failure_text forbidden_request linger = some (error_text 403 error_403_title error_403_form linger)
failure_text _ linger = none

-- Undefined where it is, and else a result with this property.
abbrev pub Replies : NoReturn → (HttpConn × Bool → Type 0) → Run (HttpConn × Bool) → Type 0
Replies undefined_behaviour P r = r ≡ fault
Replies returns_anyhow P r = Returns P r
