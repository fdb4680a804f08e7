-- ===== src/Http/Reading/Fills.antt =====
-- What http_conn::read of 15-5 http_conn.cpp puts into the read buffer.
use mathlib.Core.Bool.{true, false}
use mathlib.Core.List.{append-nil, append_assoc}
use you_shuang.Base.{
  ℕ, ◌+◌, ◌-◌, ◌≤◌, ◌<◌, ◌≡◌, refl, ◌∙◌, Bool, List, [], ◌∷◌, ◌++◌, arith, leb, take, length,
  Returns, Returns-map,
}
use you_shuang.Http.Conn.{HttpConn, read_buffer_size}
use you_shuang.Base.Bytes.{overwrite}
use you_shuang.Base.Bytes.{length-overwrite, take-overwrite}
use you_shuang.Http.Reading.{read_loop, read}
use you_shuang.Base.Bytes.{Received, again, error, bytes}
use you_shuang.Http.Reading.Terminates.{IsReading}

-- recv gives no more bytes than it is asked for, where `room` is left in the buffer.
abbrev pub IsWithin : ℕ → List Received → Type 0
IsWithin room (bytes bs ∷ answers) = (length bs ≤ room) × IsWithin (room - length bs) answers
IsWithin room _ = Unit {0}

-- The bytes that come before the end of the data or of the connection.
abbrev pub delivered : List Received → List ℕ
delivered (bytes (b ∷ bs) ∷ answers) = (b ∷ bs) ++ delivered answers
delivered _ = []

pub record Filled (c : HttpConn) (answers : List Received) (r : HttpConn × Bool) : Type 0 where
  pub valid : IsReading r.0
  pub unread_same : (r.0.start_line ≡ c.start_line) × (r.0.checked_idx ≡ c.checked_idx)
  pub others_same : (r.0.sockfd ≡ c.sockfd) × (r.0.user_count ≡ c.user_count)
  pub content : take r.0.read_idx r.0.read_buf ≡ take c.read_idx c.read_buf ++ delivered answers

unchanged-Filled :
    (c : HttpConn) (answers : List Received) (more : Bool)
    → IsReading c
    → delivered answers ≡ []
    → Filled c answers (c, more)
unchanged-Filled c answers more v e = record {
  valid = v;
  unread_same = (refl, refl);
  others_same = (refl, refl);
  content = rw (e, append-nil);
}

read_loop-Filled :
    (answers : List Received) (c : HttpConn)
    → IsReading c
    → IsWithin (read_buffer_size - c.read_idx) answers
    → Returns (Filled c answers) (read_loop answers c)
unfolding read_loop
read_loop-Filled [] c v w = unchanged-Filled c [] true v refl
read_loop-Filled (again ∷ answers) c v w = unchanged-Filled c (again ∷ answers) true v refl
read_loop-Filled (error ∷ answers) c v w = unchanged-Filled c (error ∷ answers) false v refl
read_loop-Filled (bytes [] ∷ answers) c v w = unchanged-Filled c (bytes [] ∷ answers) false v refl
read_loop-Filled (bytes (b ∷ bs) ∷ answers) c v w =
    let n = length (b ∷ bs) in
    let fits : leb n (read_buffer_size - c.read_idx) ≡ true = ground (arith, w.0) in
    let next = record c {
      read_buf = overwrite c.read_buf c.read_idx (b ∷ bs);
      read_idx = c.read_idx + n;
    } in
    let valid : IsReading next = record {
      size = length-overwrite c.read_buf c.read_idx (b ∷ bs) ∙ v.size;
      line_le = v.line_le;
      checked_le = omega (arith, v.checked_le);
      filled = omega (arith, w.0, v.filled);
    } in
    let left : read_buffer_size - c.read_idx - n ≡ read_buffer_size - (c.read_idx + n) =
      omega arith in
    let put =
      rw append-nil at
        (take-overwrite c.read_buf c.read_idx (b ∷ bs) [] (omega (arith, w.0, v.size, v.filled))) in
    rw fits (
      Returns-map (Filled next answers) (Filled c (bytes (b ∷ bs) ∷ answers)) _
        (read_loop-Filled answers next valid (rw left at w.1))
        (λ r f. record {
          valid = f.valid;
          unread_same = f.unread_same;
          others_same = f.others_same;
          content = f.content ∙ rw (put, append_assoc) refl;
        }))

-- On a connection whose indices are in order and whose buffer has room, read puts behind what the
-- buffer holds just the bytes that recv delivers, where recv gives no more than it is asked for.
-- Nothing is written past the buffer, and the indices stay in order.
pub read-Filled :
    (c : HttpConn) (answers : List Received)
    → IsReading c
    → c.read_idx < read_buffer_size
    → IsWithin (read_buffer_size - c.read_idx) answers
    → Returns (Filled c answers) (read c answers)
unfolding read
read-Filled c answers v room w =
    let open_buf : leb read_buffer_size c.read_idx ≡ false = ground arith in
    rw open_buf (read_loop-Filled answers c v w)
