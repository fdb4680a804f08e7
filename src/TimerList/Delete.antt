-- ===== src/TimerList/Delete.antt =====
-- del_timer of 11-2 lst_timer.h.
use mathlib.Core.Path.{subst}
use mathlib.Core.List.{append_assoc}
use you_shuang.Base.{
  ℕ, ◌≡◌, refl, sym, true, inl, inr, [], ◌∷◌, ◌++◌, none, some, arith, ◌==◌, update, Returns,
  Returns-bind,
}
use you_shuang.TimerList.{Task, Memory, TimerList, unlink, del_timer}
use you_shuang.Nodes.{points_to}
use you_shuang.TimerList.Lists.{Timers, IsTail-last, last_of_tail, IsList, listed, listed-eq}
use you_shuang.Nodes.Chain.{
  node, first, last, first-append, Chain, SameOutside, Chain-frame, Chain-drop, Chain-apart,
  Chain-replace, has-append, last-append, snoc_cases, points_to-first, points_to-last, at-node,
  set_next-node, set_prev-node, delete-node,
}
use you_shuang.TimerList.Unlink.{Unlinked, unlink-Unlinked}

-- The timer `q` is deleted from the list of `xs`, of which `rest` is left.
pub record Deleted (m : Memory) (q : ℕ) (xs rest : Timers) (l' : TimerList) : Type 0 where
  pub list : IsList l' rest
  pub freed : l'.memory q ≡ none
  pub same : SameOutside xs m l'.memory

module _ (m : Memory) (q : ℕ) (k : Task) where
  -- The head of the list.
  delete_head :
      (zs : Timers)
      → Chain m none ((q, k) ∷ zs)
      → Returns (Deleted m q ((q, k) ∷ zs) zs) (del_timer (listed m ((q, k) ∷ zs)) (some q))
  unfolding del_timer points_to
  delete_head [] c =
      let e : (q == q) ≡ true = ground arith in
      rw (e, delete-node m q k none none c.0)
        (record {
          list = record { head_is = refl; tail_is = tt; chain = tt };
          freed = ground arith;
          same = λ a h. ground arith;
        })
  delete_head ((b, kb) ∷ vs) c =
      let e : (q == q) ≡ true = ground arith in
      let m1 = update m b (some (node kb none (first vs))) in
      rw
        (
          e,
          points_to-last q b kb vs c.1,
          at-node m q k none (some b) c.0,
          set_prev-node m b kb (some q) (first vs) c.2.0 none,
          delete-node m1 q k none (some b) (ground (arith, c.0)),
        )
        (record {
          list = record {
            head_is = refl;
            tail_is = refl;
            chain = (ground arith, c.2.1, Chain-frame m _ (some b) vs c.2.2 (λ a h. ground arith));
          };
          freed = ground arith;
          same = λ a h. ground arith;
        })

  module _ (ws : Timers) (p : ℕ) (kp : Task) where
    -- The last of several timers.
    delete_tail :
        Chain m none (ws ++ ((p, kp) ∷ (q, k) ∷ []))
        → Returns
            (Deleted m q (ws ++ ((p, kp) ∷ (q, k) ∷ [])) (ws ++ ((p, kp) ∷ [])))
            (del_timer (listed m (ws ++ ((p, kp) ∷ (q, k) ∷ []))) (some q))
    unfolding del_timer points_to
    delete_tail c =
        let xs = ws ++ ((p, kp) ∷ (q, k) ∷ []) in
        let d = Chain-drop m none ws ((p, kp) ∷ (q, k) ∷ []) c in
        let apart = Chain-apart m none ws ((p, kp) ∷ (q, k) ∷ []) c in
        let end : last none xs ≡ some q = last-append none ws ((p, kp) ∷ (q, k) ∷ []) in
        let e : (q == q) ≡ true = ground arith in
        let m1 = update m p (some (node kp (last none ws) none)) in
        rw
          (
            points_to-first q p kp ws ((q, k) ∷ []) (ground (arith, apart q)) (ground arith),
            end,
            e,
            at-node m q k (some p) none d.2.0,
            set_next-node m p kp (last none ws) (some q) d.0 none,
            delete-node m1 q k (some p) none (ground (arith, d.2.0)),
          )
          (record {
            list = record {
              head_is = first-append ws ((p, kp) ∷ []) ((p, kp) ∷ (q, k) ∷ []) refl;
              tail_is =
                  IsTail-last _ (ws ++ ((p, kp) ∷ [])) (sym (last-append none ws ((p, kp) ∷ [])));
              chain =
                  Chain-replace m _ none ws ((p, kp) ∷ (q, k) ∷ []) ((p, kp) ∷ []) c
                    (ground arith, refl, tt) (λ a h. ground (arith, apart a)) refl
                    (λ a h. ground (arith, apart a));
            };
            freed = ground arith;
            same = λ a h. ground (arith, has-append a ws ((p, kp) ∷ (q, k) ∷ []));
          })

    delete_inner :
        (b : ℕ) (kb : Task) (vs : Timers)
        → Chain m none (ws ++ ((p, kp) ∷ (q, k) ∷ (b, kb) ∷ vs))
        → Returns
            (Deleted m q (ws ++ ((p, kp) ∷ (q, k) ∷ (b, kb) ∷ vs)) (ws ++ ((p, kp) ∷ (b, kb) ∷ vs)))
            (del_timer (listed m (ws ++ ((p, kp) ∷ (q, k) ∷ (b, kb) ∷ vs))) (some q))
    unfolding del_timer
    delete_inner b kb vs c =
        let d = Chain-drop m none ws ((p, kp) ∷ (q, k) ∷ (b, kb) ∷ vs) c in
        let apart = Chain-apart m none ws ((p, kp) ∷ (q, k) ∷ (b, kb) ∷ vs) c in
        rw
          (
            points_to-first q p kp ws ((q, k) ∷ (b, kb) ∷ vs) (ground (arith, apart q))
                (ground arith),
            last-append none ws ((p, kp) ∷ (q, k) ∷ (b, kb) ∷ vs),
            points_to-last q b kb vs d.2.1,
          )
          (Returns-bind (Unlinked m ws p kp q k b kb vs)
            (Deleted m q (ws ++ ((p, kp) ∷ (q, k) ∷ (b, kb) ∷ vs)) (ws ++ ((p, kp) ∷ (b, kb) ∷ vs)))
            (unlink m q) _ (unlink-Unlinked m ws p kp q k b kb vs c)
            (λ m' u. rw (delete-node m' q k (some p) (some b) u.out) (record {
              list = record {
                head_is =
                    first-append ws ((p, kp) ∷ (b, kb) ∷ vs) ((p, kp) ∷ (q, k) ∷ (b, kb) ∷ vs) refl;
                tail_is =
                    IsTail-last _ (ws ++ ((p, kp) ∷ (b, kb) ∷ vs))
                      (sym (last-append none ws ((p, kp) ∷ (b, kb) ∷ vs)));
                chain =
                    Chain-frame m' _ none (ws ++ ((p, kp) ∷ (b, kb) ∷ vs)) u.chain
                      (λ a h. ground (arith, u.not_in));
              };
              freed = ground arith;
              same = λ a h.
                  ground (arith, u.same a h, has-append a ws ((p, kp) ∷ (q, k) ∷ (b, kb) ∷ vs));
            })))

  delete_listed :
      (ys zs : Timers)
      → Chain m none (ys ++ ((q, k) ∷ zs))
      → Returns
          (Deleted m q (ys ++ ((q, k) ∷ zs)) (ys ++ zs))
          (del_timer (listed m (ys ++ ((q, k) ∷ zs))) (some q))
  delete_listed ys zs c = elim (snoc_cases ys) [
    | inl e ↦ rw e (delete_head zs (rw e at c))
    | inr (ws, (p, kp), e) ↦
        simp (e, append_assoc) (inside ws p kp zs (simp (e, append_assoc) at c))
  ]
    where
      inside :
          (ws : Timers) (p : ℕ) (kp : Task) (zs : Timers)
          → Chain m none (ws ++ ((p, kp) ∷ (q, k) ∷ zs))
          → Returns
              (Deleted m q (ws ++ ((p, kp) ∷ (q, k) ∷ zs)) (ws ++ ((p, kp) ∷ zs)))
              (del_timer (listed m (ws ++ ((p, kp) ∷ (q, k) ∷ zs))) (some q))
      inside ws p kp [] c = delete_tail ws p kp c
      inside ws p kp ((b, kb) ∷ vs) c = delete_inner ws p kp b kb vs c

-- del_timer of a timer in the list, wherever it stands, leaves the others in their order and well
-- linked, deletes the timer, and changes nothing outside the list.
pub del_timer-Deleted :
    (l : TimerList) (q : ℕ) (k : Task) (ys zs : Timers)
    → IsList l (ys ++ ((q, k) ∷ zs))
    → Returns (Deleted l.memory q (ys ++ ((q, k) ∷ zs)) (ys ++ zs)) (del_timer l (some q))
del_timer-Deleted l q k ys zs v =
    subst
      (λ g. Returns (Deleted l.memory q (ys ++ ((q, k) ∷ zs)) (ys ++ zs)) (del_timer g (some q)))
      (sym (listed-eq l (ys ++ ((q, k) ∷ zs)) v (last_of_tail l.tail ys (q, k) zs v.tail_is)))
      (delete_listed l.memory q k ys zs v.chain)
