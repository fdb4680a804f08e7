-- ===== src/Http/Response/Files.antt =====
-- The response to a request for a file: FILE_REQUEST in process_write, and write, of
-- 15-5 http_conn.cpp.
use you_shuang.Base.{
  zero, suc, ℕ, ◌+◌, ◌<◌, ◌≡◌, ◌≢◌, refl, ap, ◌∙◌, Bool, true, false, List, [], ◌∷◌, ◌++◌, arith,
  ◌==◌, length, length-append, Returns,
}
use mathlib.Core.Path.{ap₂, subst}
use you_shuang.Base.Int.{pos, to_int32}
use you_shuang.Http.Conn.{file_request, HttpConn, from_write_buf, from_file, write_buffer_size}
use you_shuang.Http.Response.{
  add_response, status_line, add_status_line, NoReturn, undefined_behaviour, returns_anyhow,
  header_calls, add_headers, ok_200_title, write_file, process_write,
}
use you_shuang.Http.Response.Appends.{
  written, IsWritable, add_response-Appends, Appends-IsWritable, Appends-trans,
}
use you_shuang.Http.Response.Errors.{header_lines, Replies, header_calls-Appends}

file_stat-add_response :
    (c : HttpConn) (text : List ℕ) → (add_response c text).0.file_stat ≡ c.file_stat
unfolding add_response
file_stat-add_response c text = ground arith

-- The status line and the headers for a file of that size.
unfoldable pub file_text : ℕ → Bool → List ℕ
file_text size linger = status_line 200 ok_200_title ++ header_lines (to_int32 (pos size)) linger

-- What is written for a file of this size.
abbrev pub FullAnswer : ℕ → HttpConn → HttpConn × Bool → Type 0
FullAnswer n c r =
    (r.1 ≡ true)
    × (written r.0 ≡ written c ++ file_text n c.linger)
    × (r.0.iv ≡ from_write_buf r.0.write_idx ∷ from_file c.file_address n ∷ [])

abbrev pub FileAnswer : ℕ → HttpConn → HttpConn × Bool → Type 0
FileAnswer zero c r = r.1 ≡ false
FileAnswer (suc n) c r = FullAnswer (suc n) c r

full_file :
    (c : HttpConn)
    → IsWritable c
    → c.file_stat.size ≢ 0
    → c.write_idx + length (file_text c.file_stat.size c.linger) + 1 < write_buffer_size
    → Returns (FullAnswer c.file_stat.size c) (process_write returns_anyhow c file_request)
unfolding process_write write_file add_headers add_status_line file_text
full_file c w n h =
    let l1 = status_line 200 ok_200_title in
    let size = c.file_stat.size in
    let total = length-append l1 (header_lines (to_int32 (pos size)) c.linger) in
    let c1 = (add_response c l1).0 in
    let a1 = (add_response-Appends c l1 w (omega (arith, total))).1 in
    let w1 = Appends-IsWritable a1 (omega (arith, total)) in
    let i1 : c1.write_idx ≡ c.write_idx + length l1 = ap (λ x. x.write_idx) a1.same in
    let g1 : c1.linger ≡ c.linger = ap (λ x. x.linger) a1.same in
    let s1 : c1.file_stat ≡ c.file_stat = ap (λ x. x.file_stat) a1.same in
    let size1 : c1.file_stat.size ≡ size = ap (λ x. x.size) s1 in
    let not_empty : (c1.file_stat.size == 0) ≡ false = ground (arith, n, size1) in
    let text = λ (k : ℕ) (b : Bool). header_lines (to_int32 (pos k)) b in
    let l2 = text c1.file_stat.size c1.linger in
    let e2 : l2 ≡ text size c.linger = ap₂ text size1 g1 in
    let n2 : length l2 ≡ length (text size c.linger) = ap length e2 in
    let c2 = header_calls c1 (to_int32 (pos c1.file_stat.size)) in
    let a2 =
      header_calls-Appends c1 (to_int32 (pos c1.file_stat.size)) w1
        (omega (arith, total, i1, n2)) in
    let all = Appends-trans a1 a2 in
    let d2 : c2.file_address ≡ c.file_address = ap (λ x. x.file_address) all.same in
    let s2 : c2.file_stat.size ≡ size = ap (λ x. x.file_stat.size) all.same in
    rw not_empty (
      refl,
      all.written_is ∙ ap (λ t. written c ++ (l1 ++ t)) e2,
      ap₂ (λ a k. from_write_buf c2.write_idx ∷ from_file a k ∷ []) d2 s2,
    )

empty_file :
    (c : HttpConn)
    → c.file_stat.size ≡ 0
    → Returns (λ r. r.1 ≡ false) (process_write returns_anyhow c file_request)
unfolding process_write write_file add_headers add_status_line
empty_file c z =
    rw (ap (λ s. s.size) (file_stat-add_response c (status_line 200 ok_200_title)) ∙ z) refl

-- The response to a request for a file, where its headers fit. process_write is undefined, because
-- add_headers is; where that returns anyhow, it is as follows. For a file that is not empty, it
-- succeeds, the write buffer holds the status line 200 and the headers with the file's size, and
-- m_iv is that buffer and then the mapped file at its full size. For an empty file it fails, since
-- the case runs into `default`: the page that it writes for such a file is never sent.
pub process_write-FileAnswer :
    (nr : NoReturn) (c : HttpConn)
    → IsWritable c
    → c.write_idx + length (file_text c.file_stat.size c.linger) + 1 < write_buffer_size
    → Replies nr (FileAnswer c.file_stat.size c) (process_write nr c file_request)
unfolding process_write write_file add_headers
process_write-FileAnswer undefined_behaviour c w h = ground arith
process_write-FileAnswer returns_anyhow c w h = of_size c.file_stat.size refl
  where
    of_size :
        (n : ℕ)
        → c.file_stat.size ≡ n
        → Returns (FileAnswer n c) (process_write returns_anyhow c file_request)
    of_size zero e = empty_file c e
    of_size (suc n) e =
        subst (λ k. Returns (FullAnswer k c) (process_write returns_anyhow c file_request)) e
          (full_file c w (omega (arith, e)) h)
