-- ===== src/Http/Line/Outcome.antt =====
-- How a call of parse_line ends, for 15-5 http_conn.cpp and 8-3 parse_line.cpp.
use you_shuang.Base.{
  ℕ, zero, suc, ◌+◌, ◌-◌, ◌≤◌, ◌<◌, ◌≡◌, ◌≢◌, ◌⊎◌, inl, inr, refl, List, arith, ltb, ◌==◌,
  Bool-cases, Returns, length, get_or, set, length-set, load-ok, store-ok,
}
use you_shuang.Http.Line.{
  LineStatus, line_ok, line_bad, line_open, Parsed, cr, lf, end_line, stop, at_cr, at_lf,
  parse_line_loop, parse_line,
}

abbrev pub byte : List ℕ → ℕ → ℕ
byte buf i = get_or buf i 0

-- No terminator stands from `lo` up to `hi`.
abbrev pub IsClean : List ℕ → ℕ → ℕ → Type 0
IsClean buf lo hi = (j : ℕ) → lo ≤ j → j < hi → (byte buf j ≢ cr) × (byte buf j ≢ lf)

-- What the status says of the buffer `buf` and the range from `lo` to `hi`, given the buffer and
-- the index after the call.
abbrev pub Ended : List ℕ → ℕ → ℕ → LineStatus → List ℕ → ℕ → Type 0
Ended buf lo hi line_ok after i =
    (k : ℕ) × (i ≡ k + 2)
    × (lo ≤ k + 1)
    × (i ≤ hi)
    × IsClean buf lo k
    × (byte buf k ≡ cr)
    × (byte buf (k + 1) ≡ lf)
    × (after ≡ set (set buf k 0) (k + 1) 0)
Ended buf lo hi line_bad after i =
    (after ≡ buf)
    × (lo ≤ i)
    × (i < hi)
    × IsClean buf lo i
    × (((byte buf i ≡ cr) × (i + 1 < hi) × (byte buf (i + 1) ≢ lf))
        ⊎ ((byte buf i ≡ lf) × (1 < i → byte buf (i - 1) ≢ cr)))
Ended buf lo hi line_open after i =
    (after ≡ buf) × (lo ≤ i) × IsClean buf lo i × ((i ≡ hi) ⊎ ((i + 1 ≡ hi) × (byte buf i ≡ cr)))

abbrev pub Outcome : List ℕ → ℕ → ℕ → Parsed → Type 0
Outcome buf lo hi p = Ended buf lo hi p.status p.buf p.checked

module _ (buf : List ℕ) (lo hi : ℕ) (fits : hi ≤ length buf) where
  end_line_lem :
      (k next : ℕ)
      → next ≡ k + 2
      → lo ≤ k + 1
      → k + 2 ≤ hi
      → IsClean buf lo k
      → byte buf k ≡ cr
      → byte buf (k + 1) ≡ lf
      → Returns (Outcome buf lo hi) (end_line buf k next)
  unfolding end_line
  end_line_lem k next e h i clean a b =
      rw
        (
          store-ok buf k 0 (omega arith),
          store-ok (set buf k 0) (k + 1) 0 (omega (arith, length-set buf k 0)),
        )
        (k, e, h, omega arith, clean, a, b, refl)

  at_cr_lem :
      (i : ℕ)
      → lo ≤ i
      → i < hi
      → IsClean buf lo i
      → byte buf i ≡ cr
      → Returns (Outcome buf lo hi) (at_cr buf i hi)
  unfolding at_cr stop
  at_cr_lem i h p clean a = elim (Bool-cases (i + 1 == hi)) [
    | inl last ↦ rw last (refl, h, clean, inr (ground arith, a))
    | inr more ↦
        rw (more, load-ok buf (i + 1) 0 (ground arith))
          (elim (Bool-cases (byte buf (i + 1) == lf)) [
            | inl e ↦
                rw e
                  (end_line_lem i (i + 2) refl (omega arith) (ground arith) clean a (ground arith))
            | inr e ↦ rw e (refl, h, p, clean, inl (a, ground arith, ground arith))
          ])
  ]

  at_lf_lem :
      (i : ℕ)
      → lo ≤ i
      → i < hi
      → IsClean buf lo i
      → byte buf i ≡ lf
      → Returns (Outcome buf lo hi) (at_lf buf i)
  unfolding at_lf stop
  at_lf_lem i h p clean a = elim (Bool-cases (ltb 1 i)) [
    | inr first ↦ rw first (refl, h, p, clean, inr (a, λ q. absurd (ground arith)))
    | inl later ↦
        rw (later, load-ok buf (i - 1) 0 (omega arith))
          (elim (Bool-cases (byte buf (i - 1) == cr)) [
            | inl e ↦ rw e (
                end_line_lem (i - 1) (i + 1) (ground arith) (omega arith) (ground arith)
                  (λ j q r. clean j q (omega arith)) (ground arith)
                  (let same : i - 1 + 1 ≡ i = ground arith in rw same a))
            | inr e ↦ rw e (refl, h, p, clean, inr (a, λ _. ground arith))
          ])
  ]

  parse_line_loop_lem :
      (n i : ℕ)
      → i + n ≡ hi
      → lo ≤ i
      → IsClean buf lo i
      → Returns (Outcome buf lo hi) (parse_line_loop n buf i hi)
  unfolding parse_line_loop stop
  parse_line_loop_lem zero i e h clean = (refl, h, clean, inl (omega arith))
  parse_line_loop_lem (suc n) i e h clean =
      rw (load-ok buf i 0 (omega arith)) (elim (Bool-cases (byte buf i == cr)) [
        | inl a ↦ rw a (at_cr_lem i h (omega arith) clean (ground arith))
        | inr a ↦ rw a (elim (Bool-cases (byte buf i == lf)) [
          | inl b ↦ rw b (at_lf_lem i h (omega arith) clean (ground arith))
          | inr b ↦ rw b (
              parse_line_loop_lem n (i + 1) (omega arith) (omega arith)
                (λ j q r. ground (arith, clean j)))
        ])
      ])

-- For a range that lies in the buffer, parse_line does not fault, and its status tells what the
-- range holds: LINE_OK that "\r\n" ends the line, both bytes become NUL, every other byte stays,
-- and the index is behind them; LINE_BAD that a '\r' with another byte behind it or a '\n'
-- without '\r' in front comes first, at the index; LINE_OPEN that no terminator is there, or a
-- '\r' alone as the last byte, where the index stays. The buffer is unchanged in both of these.
pub parse_line-Outcome :
    (buf : List ℕ) (lo hi : ℕ)
    → lo ≤ hi
    → hi ≤ length buf
    → Returns (Outcome buf lo hi) (parse_line buf lo hi)
unfolding parse_line
parse_line-Outcome buf lo hi h fits =
    parse_line_loop_lem buf lo hi fits (hi - lo) lo (omega arith) (omega arith)
      (λ j p q. absurd (omega arith))
