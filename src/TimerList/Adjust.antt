-- ===== src/TimerList/Adjust.antt =====
-- adjust_timer of 11-2 lst_timer.h.
use mathlib.Core.Path.{subst}
use mathlib.Core.List.{append_assoc}
use you_shuang.Base.{
  ℕ, ◌<◌, ◌≡◌, refl, sym, ◌∙◌, true, inl, inr, [], ◌∷◌, ◌++◌, none, some, arith, ltb, ◌==◌,
  Bool-cases, if◌then◌else◌, update, length, Returns, Returns-map, Returns-bind,
}
use you_shuang.TimerList.{
  Task, Memory, TimerList, add_behind, adjust_head, adjust_inner, adjust_timer,
}
use you_shuang.Nodes.{points_to}
use you_shuang.TimerList.Lists.{
  Timers, IsTail-last, last_of_tail, IsList, listed, listed-eq, insert, has-insert,
}
use you_shuang.Nodes.Chain.{
  node, first, last, Chain, SameOutside, Chain-frame, Chain-drop, Chain-apart, Chain-replace,
  has-append, first-append, last-append, snoc_cases, points_to-first, at-node, set_next-node,
  set_prev-node,
}
use you_shuang.TimerList.Unlink.{Unlinked, unlink-Unlinked}
use you_shuang.TimerList.Add.{Inserted, add_loop-Inserted}

-- The list `xs` has become `ys`.
pub record Adjusted (m : Memory) (xs ys : Timers) (l' : TimerList) : Type 0 where
  pub list : IsList l' ys
  pub same : SameOutside xs m l'.memory

unchanged-Adjusted : (m : Memory) (xs : Timers) → Chain m none xs → Adjusted m xs xs (listed m xs)
unchanged-Adjusted m xs c = record {
  list = record { head_is = refl; tail_is = IsTail-last _ xs refl; chain = c };
  same = λ a h. refl;
}

module _ (fuel : ℕ) (m : Memory) (q : ℕ) (k : Task) (b : ℕ) (kb : Task) (vs : Timers)
    (enough : length vs < fuel) where
  adjust_head-Adjusted :
      Chain m none ((q, k) ∷ (b, kb) ∷ vs)
      → Returns
          (Adjusted m ((q, k) ∷ (b, kb) ∷ vs) ((b, kb) ∷ insert (q, k) vs))
          (adjust_head fuel (listed m ((q, k) ∷ (b, kb) ∷ vs)) q)
  unfolding adjust_head add_behind
  adjust_head-Adjusted c =
      let m1 = update m b (some (node kb none (first vs))) in
      let m2 = update m1 q (some (node k none none)) in
      let l : TimerList = record { head = some b; tail = last (some b) vs; memory = m2 } in
      rw
        (
          at-node m q k none (some b) c.0,
          set_prev-node m b kb (some q) (first vs) c.2.0 none,
          set_next-node m1 q k none (some b) (ground (arith, c.0)) none,
          at-node m2 b kb none (first vs) (ground arith),
        )
        (Returns-map (Inserted l (q, k) none (b, kb) vs)
          (Adjusted m ((q, k) ∷ (b, kb) ∷ vs) ((b, kb) ∷ insert (q, k) vs)) _
          (add_loop-Inserted fuel l q k none none (ground arith) b kb none vs c.1
            (ground arith, c.2.1, Chain-frame m m2 (some b) vs c.2.2 (λ a h. ground arith)) enough)
          (λ l' r. record {
            list = record { head_is = r.head_same; tail_is = r.tail_is refl; chain = r.chain };
            same = λ a h. r.same a h ∙ ground arith;
          }))

  module _ (ws : Timers) (p : ℕ) (kp : Task) where
    abbrev old : Timers
    old = ws ++ ((p, kp) ∷ (q, k) ∷ (b, kb) ∷ vs)

    abbrev moved : Timers
    moved = ws ++ ((p, kp) ∷ (b, kb) ∷ insert (q, k) vs)

    adjust_inner-Adjusted :
        Chain m none old → Returns (Adjusted m old moved) (adjust_inner fuel (listed m old) q)
    unfolding adjust_inner add_behind
    adjust_inner-Adjusted c =
        Returns-bind (Unlinked m ws p kp q k b kb vs) (Adjusted m old moved) _ _
          (unlink-Unlinked m ws p kp q k b kb vs c)
          (λ m' u.
            let l : TimerList = record { head = first old; tail = last none old; memory = m' } in
            let d = Chain-drop m' none ws ((p, kp) ∷ (b, kb) ∷ vs) u.chain in
            let out = has-append q ws ((p, kp) ∷ (b, kb) ∷ vs) in
            let apart = Chain-apart m' none ws ((p, kp) ∷ (b, kb) ∷ vs) u.chain in
            rw (at-node m' q k (some p) (some b) u.out, at-node m' b kb (some p) (first vs) d.2.0)
              (Returns-map (Inserted l (q, k) (some p) (b, kb) vs) (Adjusted m old moved) _
                (add_loop-Inserted fuel l q k (some p) (some b) u.out b kb (some p) vs
                  (ground (arith, u.not_in, out)) d.2 enough)
                (λ l' r. record {
                  list = record {
                    head_is =
                        r.head_same
                        ∙ first-append ws ((p, kp) ∷ (b, kb) ∷ insert (q, k) vs)
                            ((p, kp) ∷ (q, k) ∷ (b, kb) ∷ vs) refl;
                    tail_is = IsTail-last _ moved (
                        r.tail_is (last-append none ws ((p, kp) ∷ (q, k) ∷ (b, kb) ∷ vs))
                        ∙ sym (last-append none ws ((p, kp) ∷ (b, kb) ∷ insert (q, k) vs)));
                    chain =
                        Chain-replace m' l'.memory none ws ((p, kp) ∷ (b, kb) ∷ vs)
                          ((p, kp) ∷ (b, kb) ∷ insert (q, k) vs) u.chain
                          (
                            r.same p (ground (arith, d.1, out, u.not_in)) ∙ d.0,
                            ground (
                              arith,
                              has-insert p (q, k) vs,
                              d.1,
                              u.not_in,
                              has-append q ws ((p, kp) ∷ (b, kb) ∷ vs),
                            ),
                            r.chain,
                          )
                          (λ a h. r.same a (ground (arith, apart a, out, u.not_in))) refl
                          (λ a h. ground (arith, has-insert a (q, k) vs, apart a, out, u.not_in));
                  };
                  same = λ a h.
                      r.same a (ground (arith, has-append a ws ((p, kp) ∷ (q, k) ∷ (b, kb) ∷ vs)))
                      ∙ u.same a h;
                })))

module _ (fuel : ℕ) (m : Memory) (q : ℕ) (k : Task) where
  -- The timer goes behind the one that follows it.
  move :
      (ys : Timers) (b : ℕ) (kb : Task) (vs : Timers)
      → length vs < fuel
      → Chain m none (ys ++ ((q, k) ∷ (b, kb) ∷ vs))
      → Returns (Adjusted m (ys ++ ((q, k) ∷ (b, kb) ∷ vs)) (ys ++ ((b, kb) ∷ insert (q, k) vs))) (
          if points_to (first (ys ++ ((q, k) ∷ (b, kb) ∷ vs))) q
          then adjust_head fuel (listed m (ys ++ ((q, k) ∷ (b, kb) ∷ vs))) q
          else adjust_inner fuel (listed m (ys ++ ((q, k) ∷ (b, kb) ∷ vs))) q)
  unfolding points_to
  move ys b kb vs h c = elim (snoc_cases ys) [
    | inl f ↦
        let same : (q == q) ≡ true = ground arith in
        rw (f, same) (adjust_head-Adjusted fuel m q k b kb vs h (rw f at c))
    | inr (ws, (p, kp), f) ↦ simp (f, append_assoc) (inner ws p kp (simp (f, append_assoc) at c))
  ]
    where
      inner :
          (ws : Timers) (p : ℕ) (kp : Task)
          → Chain m none (ws ++ ((p, kp) ∷ (q, k) ∷ (b, kb) ∷ vs))
          → Returns
              (Adjusted m
                (ws ++ ((p, kp) ∷ (q, k) ∷ (b, kb) ∷ vs))
                (ws ++ ((p, kp) ∷ (b, kb) ∷ insert (q, k) vs)))
              (if points_to (first (ws ++ ((p, kp) ∷ (q, k) ∷ (b, kb) ∷ vs))) q
                then adjust_head fuel (listed m (ws ++ ((p, kp) ∷ (q, k) ∷ (b, kb) ∷ vs))) q
                else adjust_inner fuel (listed m (ws ++ ((p, kp) ∷ (q, k) ∷ (b, kb) ∷ vs))) q)
      inner ws p kp c =
          let d = Chain-drop m none ws ((p, kp) ∷ (q, k) ∷ (b, kb) ∷ vs) c in
          let apart = Chain-apart m none ws ((p, kp) ∷ (q, k) ∷ (b, kb) ∷ vs) c in
          rw
            (points_to-first q p kp ws ((q, k) ∷ (b, kb) ∷ vs) (ground (arith, apart q))
              (ground arith))
            (adjust_inner-Adjusted fuel m q k b kb vs h ws p kp c)

  adjust_listed :
      (ys zs : Timers)
      → length zs < fuel
      → Chain m none (ys ++ ((q, k) ∷ zs))
      → Returns
          (Adjusted m (ys ++ ((q, k) ∷ zs)) (ys ++ insert (q, k) zs))
          (adjust_timer fuel (listed m (ys ++ ((q, k) ∷ zs))) (some q))
  unfolding adjust_timer insert
  adjust_listed ys [] h c =
      let d = Chain-drop m none ys ((q, k) ∷ []) c in
      rw (at-node m q k (last none ys) none d.0) (unchanged-Adjusted m (ys ++ ((q, k) ∷ [])) c)
  adjust_listed ys ((b, kb) ∷ vs) h c =
      let d = Chain-drop m none ys ((q, k) ∷ (b, kb) ∷ vs) c in
      rw
        (
          at-node m q k (last none ys) (some b) d.0,
          at-node m q k (last none ys) (some b) d.0,
          at-node m b kb (some q) (first vs) d.2.0,
        )
        (elim (Bool-cases (ltb k.expire kb.expire)) [
          | inl e ↦ rw e (unchanged-Adjusted m (ys ++ ((q, k) ∷ (b, kb) ∷ vs)) c)
          | inr e ↦ rw e (move ys b kb vs (omega arith) c)
        ])

-- adjust_timer, called after the time of expiry of a timer in the list has changed, puts the timer
-- to its place among those behind it. The list is well linked again, nothing outside it changes,
-- and one round more than there are timers behind is enough.
pub adjust_timer-Adjusted :
    (fuel : ℕ) (l : TimerList) (q : ℕ) (k : Task) (ys zs : Timers)
    → IsList l (ys ++ ((q, k) ∷ zs))
    → length zs < fuel
    → Returns
        (Adjusted l.memory (ys ++ ((q, k) ∷ zs)) (ys ++ insert (q, k) zs))
        (adjust_timer fuel l (some q))
adjust_timer-Adjusted fuel l q k ys zs v h =
    subst
      (λ g.
        Returns (Adjusted l.memory (ys ++ ((q, k) ∷ zs)) (ys ++ insert (q, k) zs))
          (adjust_timer fuel g (some q)))
      (sym (listed-eq l (ys ++ ((q, k) ∷ zs)) v (last_of_tail l.tail ys (q, k) zs v.tail_is)))
      (adjust_listed fuel l.memory q k ys zs h v.chain)
