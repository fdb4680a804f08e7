-- ===== src/Http/Line/Skip.antt =====
-- Steps of parse_line of 15-5 http_conn.cpp and 8-3 parse_line.cpp: bytes that it passes over, and the
-- end of a line.
use you_shuang.Base.{
  ℕ, zero, suc, ◌+◌, ◌-◌, ◌≤◌, ◌≡◌, List, arith, ok, length, set, length-set, load-ok, store-ok,
}
use you_shuang.Http.Line.{line_ok, cr, lf, parse_line_loop, parse_line}
use you_shuang.Http.Line.Outcome.{byte, IsClean}

module _ (buf : List ℕ) (hi : ℕ) (fits : hi ≤ length buf) where
  -- Clean bytes are passed over.
  parse_line_loop-skip :
      (n m i : ℕ)
      → i + n + m ≡ hi
      → IsClean buf i (i + n)
      → parse_line_loop (n + m) buf i hi ≡ parse_line_loop m buf (i + n) hi
  unfolding parse_line_loop
  parse_line_loop-skip zero m i e clean =
      let a : 0 + m ≡ m = omega arith in let b : i + 0 ≡ i = omega arith in rw (a, b)
  parse_line_loop-skip (suc n) m i e clean =
      let a : suc n + m ≡ suc (n + m) = omega arith in
      let b : i + suc n ≡ i + 1 + n = omega arith in
      let here = clean i (omega arith) (omega arith) in
      rw (a, b, load-ok buf i 0 (omega arith))
        (ground (
          arith,
          here,
          parse_line_loop-skip n m (i + 1) (omega arith)
              (λ j p q. clean j (omega arith) (omega arith)),
        ))

  pub parse_line-skip :
      (lo i : ℕ) → lo ≤ i → i ≤ hi → IsClean buf lo i → parse_line buf lo hi ≡ parse_line buf i hi
  unfolding parse_line
  parse_line-skip lo i h g clean =
      let a : hi - lo ≡ (i - lo) + (hi - i) = omega arith in
      let b : i ≡ lo + (i - lo) = omega arith in
      rw a (
        let e =
          parse_line_loop-skip (i - lo) (hi - i) lo (omega arith)
            (λ j p q. clean j p (omega arith)) in
        rw (← b) at e)

  pub parse_line-crlf :
      (i : ℕ)
      → i + 2 ≤ hi
      → byte buf i ≡ cr
      → byte buf (i + 1) ≡ lf
      → parse_line buf i hi
        ≡ ok (record { status = line_ok; buf = set (set buf i 0) (i + 1) 0; checked = i + 2 })
  unfolding parse_line
  parse_line-crlf i h a b =
      let e : hi - i ≡ suc (hi - i - 1) = omega arith in
      rw
        (
          e,
          load-ok buf i 0 (omega arith),
          a,
          load-ok buf (i + 1) 0 (omega arith),
          b,
          store-ok buf i 0 (omega arith),
          store-ok (set buf i 0) (i + 1) 0 (omega (arith, length-set buf i 0)),
        )
        (ground arith)
