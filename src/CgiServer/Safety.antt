-- ===== src/CgiServer/Safety.antt =====
-- 15-2 pool_CGIServer.cpp keeps what 15-1 processpool.h asks of its class of tasks.
use you_shuang.Base.{
  ℕ, zero, suc, ◌+◌, ◌-◌, ◌≤◌, ◌<◌, ◌≡◌, refl, ◌∙◌, true, inl, inr, List, [], ◌∷◌, arith, ◌==◌, leb,
  Bool-cases, ok, length, length-replicate, get_or, get_or-set, set, length-set, store-ok, Returns,
  Returns-bind, Returns-inv,
}
use you_shuang.Base.Bytes.{
  overwrite, length-overwrite, c_string, c_string-Returns, Received, again, error, bytes,
}
use you_shuang.CgiServer.{
  buffer_size, CgiConn, Effect, Given, init, find_end, serve, process_loop, process,
}
use you_shuang.CgiServer.Scan.{IsEnd, Found, find_end-Found}
use you_shuang.ProcessPool.Child.{TaskClass, IsTaskClass}

-- The last byte of the buffer is kept for a NUL.
pub record IsSafe (c : CgiConn) : Type 0 where
  pub size : length c.buf ≡ buffer_size
  pub room : c.read_idx < buffer_size

-- recv gives no more bytes than it is asked for, where `room` is left.
abbrev pub IsWithin : ℕ → List Received → Type 0
IsWithin room (bytes bs ∷ answers) = (length bs ≤ room) × IsWithin (room - length bs) answers
IsWithin room _ = Unit {0}

serve-IsSafe :
    (g : Given) (c : CgiConn) (r : ℕ)
    → IsSafe c
    → 0 < r
    → r < buffer_size
    → Returns (λ x. IsSafe x.0) (serve g c r)
unfolding serve
serve-IsSafe g c zero v p h = absurd (omega arith)
serve-IsSafe g c (suc i) v p h =
    let inside : i < length c.buf = omega (arith, v.size) in
    let cut = set c.buf i 0 in
    let size : length cut ≡ buffer_size = length-set c.buf i 0 ∙ v.size in
    let nul : get_or cut i 1 ≡ 0 = ground (arith, get_or-set c.buf i i 0 1 inside) in
    rw (store-ok c.buf i 0 inside) (
      Returns-bind (λ s. Unit {0}) (λ x. IsSafe x.0) (c_string cut) _
        (c_string-Returns cut i (omega (arith, size)) nul)
        (λ name u. record { size = size; room = v.room }))

process_loop-IsSafe :
    (g : Given) (answers : List Received) (c : CgiConn)
    → IsSafe c
    → IsWithin (buffer_size - 1 - c.read_idx) answers
    → Returns (λ x. IsSafe x.0) (process_loop g answers c)
unfolding process_loop
process_loop-IsSafe g [] c v w = v
process_loop-IsSafe g (again ∷ answers) c v w = v
process_loop-IsSafe g (error ∷ answers) c v w = v
process_loop-IsSafe g (bytes [] ∷ answers) c v w = v
process_loop-IsSafe g (bytes (b ∷ bs) ∷ answers) c v w =
    let n = length (b ∷ bs) in
    let next = record c { buf = overwrite c.buf c.read_idx (b ∷ bs); read_idx = c.read_idx + n } in
    let fits : leb (c.read_idx + n) (buffer_size - 1) ≡ true = ground (arith, w.0, v.room) in
    let size : length next.buf ≡ buffer_size =
      length-overwrite c.buf c.read_idx (b ∷ bs) ∙ v.size in
    let valid : IsSafe next = record { size = size; room = omega (arith, w.0, v.room) } in
    let less : buffer_size - 1 - c.read_idx - n ≡ buffer_size - 1 - next.read_idx = omega arith in
    rw fits (
      Returns-bind (Found next.buf c.read_idx next.read_idx) (λ x. IsSafe x.0)
        (find_end n next.buf c.read_idx) _
        (find_end-Found n next.buf c.read_idx next.read_idx refl (omega (arith, size, w.0, v.room)))
        (λ r s. elim (Bool-cases (r == next.read_idx)) [
          | inl e ↦ rw e (process_loop-IsSafe g answers next valid (rw less at w.1))
          | inr e ↦ rw e (
              serve-IsSafe g next r valid (not_first next.buf r (s.at_end (ground (arith, s.upto))))
                (omega (arith, s.upto, w.0, v.room)))
        ]))
  where
    not_first : (buf : List ℕ) (r : ℕ) → IsEnd buf r → 0 < r
    not_first buf zero e = absurd e
    not_first buf (suc i) e = omega arith

abbrev pub cgi_conn : TaskClass
cgi_conn = record { T = CgiConn; Given = Given; Effect = Effect; init = init; process = process }

pub init-IsSafe : (fd : ℕ) → IsSafe (init fd)
unfolding init
init-IsSafe fd = record { size = length-replicate {A = ℕ} buffer_size 0; room = omega arith }

pub process-IsSafe :
    (g : Given) (c : CgiConn)
    → IsSafe c
    → IsWithin (buffer_size - 1 - c.read_idx) g.received
    → (r : CgiConn × List Effect) × (process g c ≡ ok r) × IsSafe r.0
unfolding process
process-IsSafe g c v w =
    Returns-inv (λ x. IsSafe x.0) (process g c) (process_loop-IsSafe g g.received c v w)

-- The pool asks of its class of tasks that process() keeps the objects well-formed and ends.
abbrev pub cgi_conn-IsTaskClass : IsTaskClass cgi_conn
cgi_conn-IsTaskClass = record {
  IsValid = IsSafe;
  IsFair = λ g c. IsWithin (buffer_size - 1 - c.read_idx) g.received;
  init-IsValid = init-IsSafe;
  process-IsValid = process-IsSafe;
}
