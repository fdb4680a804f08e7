-- ===== src/Http/Line/Pieces.antt =====
-- parse_line of 15-5 http_conn.cpp and 8-3 parse_line.cpp on a part of the data.
use you_shuang.Base.{
  ℕ, zero, suc, ◌+◌, ◌-◌, ◌≤◌, ◌<◌, ◌≡◌, ◌≢◌, refl, ◌∙◌, inl, inr, false, List, arith, ltb, ◌==◌,
  if◌then◌else◌, Bool-cases, Run, ok, Returns, length, set, length-set, get_or-set, load-ok,
  store-ok,
}
use you_shuang.Http.Line.{
  LineStatus, line_bad, line_open, Parsed, cr, lf, end_line, stop, at_cr, at_lf, parse_line_loop,
  parse_line,
}
use you_shuang.Http.Line.Outcome.{byte}
use you_shuang.Http.Line.Skip.{parse_line-skip}

-- What parse_line says of a part of the data, against the run on the data that is there later: on
-- LINE_OPEN the buffer is as it was, and a call on the later data from the index that is left does
-- what the run does; else the run ends with the same status at the same index, with the bytes of
-- the part as they are now, and those behind as they came.
abbrev Pieced : List ℕ → List ℕ → ℕ → ℕ → Run Parsed → LineStatus → List ℕ → ℕ → Type 0
Pieced part whole hi later run line_open after i = (after ≡ part) × (parse_line whole i later ≡ run)
Pieced part whole hi later run status after i =
    (b : List ℕ) × (run ≡ ok (record { status = status; buf = b; checked = i }))
    × ((j : ℕ) → j < hi → byte b j ≡ byte after j)
    × ((j : ℕ) → hi ≤ j → byte b j ≡ byte whole j)

abbrev pub Resumes : List ℕ → List ℕ → ℕ → ℕ → Run Parsed → Parsed → Type 0
Resumes part whole hi later run p = Pieced part whole hi later run p.status p.buf p.checked

parse_line-cr :
    (buf : List ℕ) (i hi : ℕ)
    → i < hi
    → hi ≤ length buf
    → byte buf i ≡ cr
    → parse_line buf i hi ≡ at_cr buf i hi
unfolding parse_line
parse_line-cr buf i hi h fits e =
    let a : hi - i ≡ suc (hi - i - 1) = omega arith in rw (a, load-ok buf i 0 (omega arith), e) refl

parse_line-lf :
    (buf : List ℕ) (i hi : ℕ)
    → i < hi
    → hi ≤ length buf
    → byte buf i ≡ lf
    → parse_line buf i hi ≡ at_lf buf i
unfolding parse_line
parse_line-lf buf i hi h fits e =
    let a : hi - i ≡ suc (hi - i - 1) = omega arith in rw (a, load-ok buf i 0 (omega arith), e) refl

byte-cut :
    (buf : List ℕ) (k j : ℕ)
    → k + 1 < length buf
    → byte (set (set buf k 0) (k + 1) 0) j
      ≡ (if k + 1 == j then 0 else if k == j then 0 else byte buf j)
byte-cut buf k j h =
    rw
      (
        get_or-set (set buf k 0) (k + 1) j 0 0 (omega (arith, length-set buf k 0)),
        get_or-set buf k j 0 0 (omega arith),
      )
      refl

module _ (part whole : List ℕ) (hi later : ℕ) (longer : hi ≤ later) (fits : later ≤ length whole)
    (room : hi ≤ length part) (same : (j : ℕ) → j < hi → byte whole j ≡ byte part j) where
  end_line-Resumes :
      (k next : ℕ)
      → k + 1 < hi
      → Returns (Resumes part whole hi later (end_line whole k next)) (end_line part k next)
  unfolding end_line
  end_line-Resumes k next h =
      rw
        (
          store-ok part k 0 (omega arith),
          store-ok (set part k 0) (k + 1) 0 (omega (arith, length-set part k 0)),
          store-ok whole k 0 (omega arith),
          store-ok (set whole k 0) (k + 1) 0 (omega (arith, length-set whole k 0)),
        )
        (
          set (set whole k 0) (k + 1) 0,
          refl,
          λ j g.
              rw (byte-cut whole k j (omega arith), byte-cut part k j (omega arith), same j g) refl,
          λ j g. rw (byte-cut whole k j (omega arith)) (ground arith),
        )

  stop-Resumes :
      (i : ℕ) → Returns (Resumes part whole hi later (stop line_bad whole i)) (stop line_bad part i)
  unfolding stop
  stop-Resumes i = (whole, refl, same, λ j g. refl)

  at_cr-Resumes :
      (i : ℕ)
      → i < hi
      → byte part i ≡ cr
      → Returns (Resumes part whole hi later (parse_line whole i later)) (at_cr part i hi)
  unfolding at_cr stop
  at_cr-Resumes i h a = elim (Bool-cases (i + 1 == hi)) [
    | inl last ↦ rw last (refl, refl)
    | inr more ↦
        let on : i + 1 < hi = ground arith in
        let on_later : (i + 1 == later) ≡ false = ground arith in
        rw
          (
            more,
            load-ok part (i + 1) 0 (omega arith),
            parse_line-cr whole i later (omega arith) fits (same i h ∙ a),
            on_later,
            load-ok whole (i + 1) 0 (omega arith),
            same (i + 1) on,
          )
          (elim (Bool-cases (byte part (i + 1) == lf)) [
            | inl e ↦ rw e (end_line-Resumes i (i + 2) on)
            | inr e ↦ rw e (stop-Resumes i)
          ])
  ]

  at_lf-Resumes :
      (i : ℕ)
      → i < hi
      → byte part i ≡ lf
      → Returns (Resumes part whole hi later (parse_line whole i later)) (at_lf part i)
  unfolding at_lf
  at_lf-Resumes i h a =
      rw (parse_line-lf whole i later (omega arith) fits (same i h ∙ a))
        (elim (Bool-cases (ltb 1 i)) [
          | inr first ↦ rw first (stop-Resumes i)
          | inl second ↦
              rw
                (
                  second,
                  load-ok part (i - 1) 0 (omega arith),
                  load-ok whole (i - 1) 0 (omega arith),
                  same (i - 1) (omega arith),
                )
                (elim (Bool-cases (byte part (i - 1) == cr)) [
                  | inl e ↦ rw e (end_line-Resumes (i - 1) (i + 1) (ground arith))
                  | inr e ↦ rw e (stop-Resumes i)
                ])
        ])

  rest-Resumes :
      (n i : ℕ)
      → i + n ≡ hi
      → Returns
          (Resumes part whole hi later (parse_line whole i later))
          (parse_line_loop n part i hi)
  unfolding parse_line_loop stop
  rest-Resumes zero i e = (refl, refl)
  rest-Resumes (suc n) i e =
      rw (load-ok part i 0 (omega arith)) (elim (Bool-cases (byte part i == cr)) [
        | inl a ↦ rw a (at_cr-Resumes i (omega arith) (ground arith))
        | inr a ↦ rw a (elim (Bool-cases (byte part i == lf)) [
          | inl b ↦ rw b (at_lf-Resumes i (omega arith) (ground arith))
          | inr b ↦
              let here = same i (omega arith) in
              let clean : (byte whole i ≢ cr) × (byte whole i ≢ lf) = rw here (ground arith) in
              rw
                (
                  b,
                  parse_line-skip whole later fits i (i + 1) (omega arith) (omega arith)
                      (λ j p q. let z : j ≡ i = omega arith in rw z clean),
                )
                (rest-Resumes n (i + 1) (omega arith))
        ])
      ])

  pub parse_line-Resumes :
      (lo : ℕ)
      → lo ≤ hi
      → Returns (Resumes part whole hi later (parse_line whole lo later)) (parse_line part lo hi)
  unfolding parse_line
  parse_line-Resumes lo h = rest-Resumes (hi - lo) lo (omega arith)
