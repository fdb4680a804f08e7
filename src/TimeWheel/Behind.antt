-- ===== src/TimeWheel/Behind.antt =====
-- The loop of tick in 11-5 time_wheel_timer.h behind a timer that waits.
use mathlib.Core.Path.{subst}
use mathlib.Core.List.{append_assoc}
use you_shuang.Base.{
  ℕ, ◌<◌, ◌≡◌, refl, sym, false, inl, inr, [], ◌∷◌, ◌++◌, Option, none, some, arith, ◌==◌, update,
  length, get_or, load-ok, Returns, Returns-bind,
}
use you_shuang.Nodes.{points_to}
use you_shuang.Nodes.Chain.{
  node, first, Chain, SameOutside, Chain-frame, Chain-drop, has-append, at-node, delete-node,
  snoc_cases,
}
use you_shuang.TimeWheel.{TwTask, TimeWheel, unlink, delete_pointer, expire_inner, expire}
use you_shuang.TimeWheel.Sweep.{Timers}
use you_shuang.TimeWheel.Inner.{Unlinked, unlink-Unlinked}

-- An expired timer behind another: the next one is deleted too.
pub record Expired (w : TimeWheel) (ys : Timers) (q : ℕ) (k : TwTask) (xs : Timers)
    (r : TimeWheel × Option ℕ) : Type 0 where
  pub wheel : r.0 ≡ record w { memory = r.0.memory }
  pub next : r.1 ≡ first xs
  pub freed : r.0.memory q ≡ none
  pub dangling : (b : ℕ) → first xs ≡ some b → r.0.memory b ≡ none
  pub chain : xs ≡ [] → Chain r.0.memory none ys
  pub same : SameOutside (ys ++ ((q, k) ∷ xs)) w.memory r.0.memory

expire_inner-Expired :
    (w : TimeWheel) (ws : Timers) (p : ℕ) (kp : TwTask) (q : ℕ) (k : TwTask) (xs : Timers)
    → Chain w.memory none (ws ++ ((p, kp) ∷ (q, k) ∷ xs))
    → Returns (Expired w (ws ++ ((p, kp) ∷ [])) q k xs) (expire_inner w q)
unfolding expire_inner delete_pointer
expire_inner-Expired w ws p kp q k [] c =
    Returns-bind (Unlinked w.memory ws p kp q k []) (Expired w (ws ++ ((p, kp) ∷ [])) q k [])
      (unlink w.memory q) _ (unlink-Unlinked w.memory ws p kp q k [] c)
      (λ m' u.
        rw (at-node m' q k (some p) none u.out, delete-node m' q k (some p) none u.out)
          (record {
            wheel = refl;
            next = refl;
            freed = ground arith;
            dangling = λ b e. cc;
            chain = λ e.
                Chain-frame m' (update m' q none) none (ws ++ ((p, kp) ∷ [])) u.chain
                  (λ a h. ground (arith, u.not_in));
            same = λ a h.
                let h' = simp append_assoc at h in
                ground (arith, u.same a h', has-append a ws ((p, kp) ∷ (q, k) ∷ []));
          }))
expire_inner-Expired w ws p kp q k ((b, kb) ∷ vs) c =
    Returns-bind (Unlinked w.memory ws p kp q k ((b, kb) ∷ vs))
      (Expired w (ws ++ ((p, kp) ∷ [])) q k ((b, kb) ∷ vs)) (unlink w.memory q) _
      (unlink-Unlinked w.memory ws p kp q k ((b, kb) ∷ vs) c)
      (λ m' u.
        let d = Chain-drop m' none ws ((p, kp) ∷ (b, kb) ∷ vs) u.chain in
        let b-there : update m' q none b ≡ some (node kb (some p) (first vs)) =
          ground (arith, d.2.0, u.not_in, has-append q ws ((p, kp) ∷ (b, kb) ∷ vs)) in
        rw
          (
            at-node m' q k (some p) (some b) u.out,
            delete-node m' q k (some p) (some b) u.out,
            delete-node (update m' q none) b kb (some p) (first vs) b-there,
          )
          (record {
            wheel = refl;
            next = refl;
            freed = ground arith;
            dangling = λ x e. ground (arith, e);
            chain = λ e. cc;
            same = λ a h.
                let h' = simp append_assoc at h in
                ground (arith, u.same a h', has-append a ws ((p, kp) ∷ (q, k) ∷ (b, kb) ∷ vs));
          }))

pub expire-Expired :
    (w : TimeWheel) (h : ℕ) (kh : TwTask) (ys : Timers) (q : ℕ) (k : TwTask) (xs : Timers)
    → w.cur_slot < length w.slots
    → get_or w.slots w.cur_slot none ≡ some h
    → Chain w.memory none (((h, kh) ∷ ys) ++ ((q, k) ∷ xs))
    → Returns (Expired w ((h, kh) ∷ ys) q k xs) (expire w q)
unfolding expire points_to
expire-Expired w h kh ys q k xs inside head c =
    let other : (h == q) ≡ false = ground (arith, c.1, has-append h ys ((q, k) ∷ xs)) in
    rw (load-ok w.slots w.cur_slot none inside, head, other)
      (elim (snoc_cases ((h, kh) ∷ ys)) [
        | inl e ↦ cc
        | inr (ws, (p, kp), e) ↦
            subst (λ zs. Returns (Expired w zs q k xs) (expire_inner w q)) (sym e)
              (expire_inner-Expired w ws p kp q k xs (
                subst (λ zs. Chain w.memory none zs) (append_assoc ws ((p, kp) ∷ []) ((q, k) ∷ xs))
                  (subst (λ zs. Chain w.memory none (zs ++ ((q, k) ∷ xs))) e c)))
      ])
