-- ===== src/ParseLine/Terminates.antt =====
-- The loops of 8-3 parse_line.cpp end, and stay inside the buffer.
use you_shuang.Base.{
  ℕ, zero, suc, ◌+◌, ◌-◌, ◌≤◌, ◌<◌, ◌≡◌, ◌⊎◌, inl, inr, refl, ◌∙◌, true, false, List, [], ◌∷◌,
  Option, none, some, arith, ◌==◌, leb, Bool-cases, codes, Run, length, load-ok, Returns,
  Returns-bind, Returns-map, get_or, length-replicate,
}
use you_shuang.Http.Text.Bounds.{IsString, IsString-from, strncasecmp_bounds, strspn_bounds}
use you_shuang.Http.Line.{LineStatus, line_ok, line_bad, line_open}
use you_shuang.Http.Line.Outcome.{Outcome, parse_line-Outcome}
use you_shuang.Http.Line.Cuts.{cut-IsString}
use you_shuang.Http.Request.{HttpCode, no_request, get_request, bad_request, tab}
use you_shuang.Http.Request.Bounds.{Keeps, parse_request_line-Keeps}
use you_shuang.Base.Bytes.{overwrite}
use you_shuang.Base.Bytes.{length-overwrite}
use you_shuang.ParseLine.{
  CheckState, check_state_requestline, check_state_header, buffer_size, Analysis, parse_requestline,
  parse_headers, Next, continue, return, after_request_line, after_headers, switch, take_line, step,
  parse_content_loop, parse_content, Received, error, bytes, Answer, react, main_loop, initial,
  serve,
}

-- The indices are in order and in the buffer.
pub record IsReading (a : Analysis) : Type 0 where
  pub size : length a.buffer ≡ buffer_size
  pub line_le : a.start_line ≤ a.checked_index
  pub checked_le : a.checked_index ≤ a.read_index
  pub filled : a.read_index ≤ buffer_size

abbrev IsResult : HttpCode → Type 0
IsResult code = (code ≡ no_request) ⊎ (code ≡ get_request) ⊎ (code ≡ bad_request)

-- The data in the buffer does not grow, and the result is one of three.
abbrev Progress : Analysis → ℕ → Next → Type 0
Progress a m (continue b) =
    IsReading b × (b.read_index ≡ a.read_index) × (b.read_index - b.checked_index < m)
Progress a m (return b code) = IsReading b × (b.read_index ≡ a.read_index) × IsResult code

-- What a handler of a line leaves alone.
record Handled (a : Analysis) (r : Analysis × HttpCode) : Type 0 where
  reading : IsReading r.0
  read_same : r.0.read_index ≡ a.read_index
  checked_same : r.0.checked_index ≡ a.checked_index
  result : (r.1 ≡ no_request) ⊎ (r.1 ≡ bad_request)

module _ (a : Analysis) (m temp z : ℕ) (h : IsReading a) (s : IsString a.buffer temp z) where
  requestline-Handled : Returns (Handled a) (parse_requestline a temp)
  unfolding parse_requestline
  requestline-Handled =
      Returns-bind (Keeps (length a.buffer) temp z) (Handled a) _ _
        (parse_request_line-Keeps tab none a.buffer temp z s)
        (λ r k. ground (arith, h.size, h.line_le, h.checked_le, h.filled, k.length_is, k.result))

  headers-result :
      Returns (λ code. (code ≡ get_request) ⊎ (code ≡ no_request)) (parse_headers a temp)
  unfolding parse_headers
  headers-result =
      rw (load-ok a.buffer temp 0 (omega (arith, s.behind, s.inside)))
        (elim (Bool-cases (get_or a.buffer temp 0 == 0)) [
          | inl e ↦ rw e (inl refl)
          | inr e ↦ rw e (
              Returns-bind (λ b. b ≡ true → temp + 5 ≤ z) _ _ _
                (strncasecmp_bounds a.buffer temp z (codes "Host:") refl s)
                (elim [
                  | false ↦ λ _. inr refl
                  | true ↦ λ q.
                      Returns-bind (λ n. temp + 5 + n ≤ z) _ _ _
                        (strspn_bounds a.buffer (temp + 5) z tab refl
                          (IsString-from a.buffer temp (temp + 5) z s (q refl)))
                        (λ n _. inr refl)
                ]))
        ])

  switch-Progress :
      (state : CheckState)
      → a.read_index - a.checked_index < m
      → Returns (Progress a m) (switch state a temp)
  unfolding switch after_request_line after_headers
  switch-Progress check_state_requestline p =
      Returns-bind (Handled a) (Progress a m) (parse_requestline a temp) after_request_line
        requestline-Handled
        (λ (b, code) q. ground (arith, q.reading, q.read_same, q.checked_same, q.result))
  switch-Progress check_state_header p =
      Returns-bind (λ code. (code ≡ get_request) ⊎ (code ≡ no_request)) (Progress a m)
        (parse_headers a temp) (after_headers a) headers-result (λ code q. ground (arith, h))

take_line-Progress :
    (a : Analysis) (status : LineStatus) (buf : List ℕ) (i : ℕ)
    → IsReading a
    → Outcome a.buffer a.checked_index a.read_index
        (record { status = status; buf = buf; checked = i })
    → Returns
        (Progress a (a.read_index - a.checked_index))
        (take_line status (record a { buffer = buf; checked_index = i }))
unfolding take_line
take_line-Progress a line_bad buf i h o =
    let start : a.start_line ≤ i = omega (arith, h.line_le, o.1) in
    let end : i ≤ a.read_index = omega (arith, o.2) in
    (
      record { size = rw o.0 h.size; line_le = start; checked_le = end; filled = h.filled },
      refl,
      inr (inr refl),
    )
take_line-Progress a line_open buf i h o =
    let start : a.start_line ≤ i = omega (arith, h.line_le, o.1) in
    let end : i ≤ a.read_index = omega (arith, o.3) in
    (
      record { size = rw o.0 h.size; line_le = start; checked_le = end; filled = h.filled },
      refl,
      inl refl,
    )
take_line-Progress a line_ok buf i h o =
    let t = rw (← o.7) at (
      cut-IsString a.buffer a.start_line o.0 (omega (arith, h.line_le, o.2))
        (omega (arith, o.1, o.3, h.size, h.filled))) in
    let b = record a { buffer = buf; checked_index = i; start_line = i } in
    switch-Progress b _ a.start_line (o.0 + 1)
      (record { size = t.0 ∙ h.size; line_le = omega arith; checked_le = o.3; filled = h.filled })
      t.1 a.checkstate (omega (arith, o.1, o.2, o.3))

step-Progress :
    (a : Analysis) → IsReading a → Returns (Progress a (a.read_index - a.checked_index)) (step a)
unfolding step
step-Progress a h =
    Returns-bind (Outcome a.buffer a.checked_index a.read_index)
      (Progress a (a.read_index - a.checked_index)) _ _
      (parse_line-Outcome a.buffer a.checked_index a.read_index h.checked_le
        (omega (arith, h.filled, h.size)))
      (λ p o. take_line-Progress a p.status p.buf p.checked h o)

abbrev pub Ends : Analysis → Option (Analysis × HttpCode) → Type 0
Ends a none = ⊥
Ends a (some (b, code)) =
    IsReading b
    × (b.read_index ≡ a.read_index)
    × ((code ≡ no_request) ⊎ (code ≡ get_request) ⊎ (code ≡ bad_request))

parse_content_loop-Ends :
    (fuel : ℕ) (a : Analysis)
    → IsReading a
    → a.read_index - a.checked_index < fuel
    → Returns (Ends a) (parse_content_loop fuel a)
unfolding parse_content_loop
parse_content_loop-Ends zero a h p = elim p [ ]
parse_content_loop-Ends (suc fuel) a h p =
    Returns-bind (Progress a (a.read_index - a.checked_index)) (Ends a) (step a) _
      (step-Progress a h)
      (elim [
        | return b code ↦ λ g. g
        | continue b ↦ λ g.
            Returns-map (Ends b) (Ends a) (parse_content_loop fuel b)
              (parse_content_loop-Ends fuel b g.0 (omega (arith, g.2)))
              (elim [ none ↦ λ q. q | some r ↦ λ q. (q.0, q.1 ∙ g.1, q.2) ])
      ])

-- The analysis of whatever was read ends without touching a byte outside the buffer (the fuel of
-- the model is enough): the indices stay in order, no data is lost, and the result is NO_REQUEST,
-- GET_REQUEST or BAD_REQUEST.
pub parse_content-Ends : (a : Analysis) → IsReading a → Returns (Ends a) (parse_content a)
unfolding parse_content
parse_content-Ends a h =
    parse_content_loop-Ends (a.read_index - a.checked_index + 1) a h (omega arith)

abbrev pub received_length : List Received → ℕ
received_length [] = 0
received_length (error ∷ answers) = received_length answers
received_length (bytes bs ∷ answers) = length bs + received_length answers

react-Returns :
    (a : Analysis) (rest : Analysis → Run Answer) (r : Option (Analysis × HttpCode))
    → Ends a r
    → ((b : Analysis) → IsReading b → b.read_index ≡ a.read_index → Returns (λ _. Unit) (rest b))
    → Returns (λ _. Unit {0}) (react rest r)
unfolding react
react-Returns a rest none e k = e
react-Returns a rest (some (b, no_request)) e k = k b e.0 e.1
react-Returns a rest (some (b, get_request)) e k = tt
react-Returns a rest (some (b, _)) e k = tt

main_loop-Returns :
    (answers : List Received) (a : Analysis)
    → IsReading a
    → a.read_index + received_length answers ≤ buffer_size
    → Returns (λ _. Unit {0}) (main_loop answers a)
unfolding main_loop
main_loop-Returns [] a h p = tt
main_loop-Returns (error ∷ answers) a h p = tt
main_loop-Returns (bytes [] ∷ answers) a h p = tt
main_loop-Returns (bytes (b ∷ bs) ∷ answers) a h p =
    let fits : leb (length (b ∷ bs)) (buffer_size - a.read_index) ≡ true = ground arith in
    let filled = record a {
      buffer = overwrite a.buffer a.read_index (b ∷ bs);
      read_index = a.read_index + length (b ∷ bs);
    } in
    let g : IsReading filled = record {
      size = length-overwrite a.buffer a.read_index (b ∷ bs) ∙ h.size;
      line_le = h.line_le;
      checked_le = omega (arith, h.checked_le);
      filled = omega arith;
    } in
    rw fits (
      Returns-bind (Ends filled) (λ _. Unit {0}) (parse_content filled) _
        (parse_content-Ends filled g)
        (λ r e.
          react-Returns filled (λ s. main_loop answers s) r e
            (λ s k same. main_loop-Returns answers s k (omega arith))))

-- The server of parse_line.cpp answers, or waits for more, without a fault for every sequence of
-- answers of recv that fits its buffer of 4096 bytes, whatever bytes they hold and however they are
-- cut.
pub serve-Returns :
    (answers : List Received)
    → received_length answers ≤ buffer_size
    → Returns (λ _. Unit {0}) (serve answers)
unfolding serve
serve-Returns answers p =
    main_loop-Returns answers initial
      (record {
        size = length-replicate {A = ℕ} 4096 0;
        line_le = omega arith;
        checked_le = omega arith;
        filled = omega arith;
      })
      (omega arith)
