-- ===== src/Http/Response/Appends.antt =====
-- The write buffer as the text written so far: add_response of 15-5 http_conn.cpp.
use you_shuang.Base.{
  ℕ, zero, suc, ◌+◌, ◌-◌, ◌≤◌, ◌<◌, ◌≡◌, refl, ap, ◌∙◌, true, false, List, [], ◌∷◌, ◌++◌, arith,
  leb, length, take, length-append,
}
use mathlib.Core.List.{append_assoc}
use you_shuang.Http.Conn.{HttpConn, write_buffer_size}
use you_shuang.Http.Response.{vsnprintf, add_response}
use you_shuang.Base.Bytes.{length-overwrite, take-overwrite}

take-all : (cs : List ℕ) (n : ℕ) → length cs ≤ n → take n cs ≡ cs
take-all [] zero h = refl
take-all [] (suc n) h = refl
take-all (c ∷ cs) zero h = elim h [ ]
take-all (c ∷ cs) (suc n) h = ap (◌∷◌ c) (take-all cs n (omega arith))

abbrev pub written : HttpConn → List ℕ
written c = take c.write_idx c.write_buf

-- The buffer has its size, and the index leaves room for a NUL.
pub record IsWritable (c : HttpConn) : Type 0 where
  pub size : length c.write_buf ≡ write_buffer_size
  pub room : c.write_idx + 1 < write_buffer_size

-- `d` is `c` with the text written behind what `c` has, and nothing else changed.
pub record Appends (c : HttpConn) (text : List ℕ) (d : HttpConn) : Type 0 where
  pub same : d ≡ record c { write_buf = d.write_buf; write_idx = c.write_idx + length text }
  pub written_is : written d ≡ written c ++ text
  pub size : length d.write_buf ≡ write_buffer_size

vsnprintf_lem :
    (buf : List ℕ) (at room : ℕ) (text : List ℕ)
    → at + room ≤ length buf
    → length text < room
    → (length (vsnprintf buf at room text) ≡ length buf)
      × (take (at + length text) (vsnprintf buf at room text) ≡ take at buf ++ text)
unfolding vsnprintf
vsnprintf_lem buf at zero text h k = absurd (omega arith)
vsnprintf_lem buf at (suc room) text h k =
    rw (take-all text room (omega arith)) (
      length-overwrite buf at (text ++ (0 ∷ [])),
      take-overwrite buf at text (0 ∷ []) (omega arith),
    )

-- A text that fits, with two bytes to spare, is appended to what is written, and add_response
-- reports success. Nothing but the buffer and its index changes.
pub add_response-Appends :
    (c : HttpConn) (text : List ℕ)
    → IsWritable c
    → c.write_idx + length text + 1 < write_buffer_size
    → ((add_response c text).1 ≡ true) × Appends c text (add_response c text).0
unfolding add_response
add_response-Appends c text w h =
    let room = write_buffer_size - 1 - c.write_idx in
    let open_ : leb write_buffer_size c.write_idx ≡ false = ground (arith, w.room) in
    let fits : leb room (length text) ≡ false = ground arith in
    let v =
      vsnprintf_lem c.write_buf c.write_idx room text (omega (arith, w.size, w.room))
        (omega arith) in
    rw (open_, fits) (refl, record { same = refl; written_is = v.1; size = v.0 ∙ w.size })

pub Appends-IsWritable :
    {c d : HttpConn} {text : List ℕ}
    → Appends c text d
    → c.write_idx + length text + 1 < write_buffer_size
    → IsWritable d
Appends-IsWritable a h = record { size = a.size; room = rw (ap (λ e. e.write_idx) a.same) h }

pub Appends-trans :
    {c d e : HttpConn} {s t : List ℕ} → Appends c s d → Appends d t e → Appends c (s ++ t) e
Appends-trans {c} {d} {e} {s} {t} a b =
    let at : d.write_idx ≡ c.write_idx + length s = ap (λ x. x.write_idx) a.same in
    let end : d.write_idx + length t ≡ c.write_idx + length (s ++ t) =
      omega (arith, at, length-append s t) in
    record {
      same = b.same ∙ (λ i. record (a.same i) { write_buf = e.write_buf; write_idx = end i });
      written_is = b.written_is ∙ rw (a.written_is, append_assoc);
      size = b.size;
    }
