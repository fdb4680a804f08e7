-- ===== src/TimerList/Add.antt =====
-- add_timer of 11-2 lst_timer.h.
use mathlib.Core.Path.{subst}
use you_shuang.Base.{
  ℕ, zero, suc, ◌<◌, ◌≡◌, refl, sym, ◌∙◌, false, inl, inr, [], ◌∷◌, Option, none, some, arith, ltb,
  Bool-cases, update, length, Returns, Returns-map, Returns-bind,
}
use you_shuang.TimerList.{
  Task, Memory, TimerList, link_last, link_before, add_loop, add_behind, add_to, add_front,
  add_timer,
}
use you_shuang.TimerList.Lists.{Timers, IsList, listed, listed-eq, insert, has-insert}
use you_shuang.Nodes.Chain.{
  node, has, first, last, Chain, SameOutside, Chain-frame, at-node, set_next-node, set_prev-node,
}

-- The timer `c` has come to its place among the timers `xs` behind that at `p`.
pub record Inserted (l : TimerList) (c : ℕ × Task) (pp : Option ℕ) (d : ℕ × Task) (xs : Timers)
    (l' : TimerList) : Type 0 where
  pub chain : Chain l'.memory pp (d ∷ insert c xs)
  pub tail_is : l.tail ≡ last (some d.0) xs → l'.tail ≡ last (some d.0) (insert c xs)
  pub head_same : l'.head ≡ l.head
  pub same : SameOutside (c ∷ d ∷ xs) l.memory l'.memory

module _ (l : TimerList) (q : ℕ) (k : Task) (qp qn : Option ℕ)
    (here : l.memory q ≡ some (node k qp qn)) (p : ℕ) (kp : Task) (pp : Option ℕ) where
  link_last-Inserted :
      has q ((p, kp) ∷ []) ≡ false
      → Chain l.memory pp ((p, kp) ∷ [])
      → Returns (Inserted l (q, k) pp (p, kp) []) (link_last l q p)
  unfolding link_last insert
  link_last-Inserted out c =
      let m = l.memory in
      let m1 = update m p (some (node kp pp (some q))) in
      let m2 = update m1 q (some (node k (some p) qn)) in
      rw
        (
          set_next-node m p kp pp none c.0 (some q),
          set_prev-node m1 q k qp qn (ground (arith, here)) (some p),
          set_next-node m2 q k (some p) qn (ground arith) none,
        )
        (record {
          chain = (ground arith, ground arith, (ground arith, refl, tt));
          tail_is = λ e. refl;
          head_same = refl;
          same = λ a h. ground arith;
        })

  abbrev Linked : ℕ → Task → Timers → Memory → Type 0
  Linked a ka xs m =
      Chain m pp ((p, kp) ∷ (q, k) ∷ (a, ka) ∷ xs)
      × SameOutside ((q, k) ∷ (p, kp) ∷ (a, ka) ∷ xs) l.memory m

  link_before-Linked :
      (a : ℕ) (ka : Task) (xs : Timers)
      → has q ((p, kp) ∷ (a, ka) ∷ xs) ≡ false
      → Chain l.memory pp ((p, kp) ∷ (a, ka) ∷ xs)
      → Returns (Linked a ka xs) (link_before l.memory q p a)
  unfolding link_before
  link_before-Linked a ka xs out c =
      let m = l.memory in
      let m1 = update m p (some (node kp pp (some q))) in
      let m2 = update m1 q (some (node k qp (some a))) in
      let m3 = update m2 a (some (node ka (some q) (first xs))) in
      rw
        (
          set_next-node m p kp pp (some a) c.0 (some q),
          set_next-node m1 q k qp qn (ground (arith, here)) (some a),
          set_prev-node m2 a ka (some p) (first xs) (ground (arith, c.2.0)) (some q),
          set_prev-node m3 q k qp (some a) (ground arith) (some p),
        )
        (
          (
            ground arith,
            ground arith,
            (
              ground arith,
              ground arith,
              (ground arith, ground arith, Chain-frame m _ (some a) xs c.2.2 (λ b h. ground arith)),
            ),
          ),
          λ b h. ground arith,
        )

-- The search for the place behind `d` of a timer that is not in the list.
pub add_loop-Inserted :
    (fuel : ℕ) (l : TimerList) (q : ℕ) (k : Task) (qp qn : Option ℕ)
    → l.memory q ≡ some (node k qp qn)
    → (p : ℕ) (kp : Task) (pp : Option ℕ) (xs : Timers) → has q ((p, kp) ∷ xs) ≡ false
    → Chain l.memory pp ((p, kp) ∷ xs)
    → length xs < fuel
    → Returns (Inserted l (q, k) pp (p, kp) xs) (add_loop fuel l q p (first xs))
unfolding add_loop insert
add_loop-Inserted zero l q k qp qn here p kp pp xs out c h = absurd (omega arith)
add_loop-Inserted (suc fuel) l q k qp qn here p kp pp [] out c h =
    link_last-Inserted l q k qp qn here p kp pp out c
add_loop-Inserted (suc fuel) l q k qp qn here p kp pp ((a, ka) ∷ xs) out c h =
    rw (at-node l.memory q k qp qn here, at-node l.memory a ka (some p) (first xs) c.2.0)
      (elim (Bool-cases (ltb k.expire ka.expire)) [
        | inl e ↦ rw e (
            Returns-bind (Linked l q k qp qn here p kp pp a ka xs)
              (Inserted l (q, k) pp (p, kp) ((a, ka) ∷ xs)) _ _
              (link_before-Linked l q k qp qn here p kp pp a ka xs out c)
              (λ m r. record {
                chain = rw e r.0;
                tail_is = λ f. rw e f;
                head_same = refl;
                same = r.1;
              }))
        | inr e ↦ rw e (
            Returns-map (Inserted l (q, k) (some p) (a, ka) xs)
              (Inserted l (q, k) pp (p, kp) ((a, ka) ∷ xs)) _
              (add_loop-Inserted fuel l q k qp qn here a ka (some p) xs (ground arith) c.2
                (omega arith))
              (λ l' r. record {
                chain = rw e (
                  r.same p (ground arith) ∙ c.0,
                  ground (arith, has-insert p (q, k) xs),
                  r.chain,
                );
                tail_is = λ f. rw e (r.tail_is f);
                head_same = r.head_same;
                same = λ b g. r.same b (ground arith);
              }))
      ])

-- The list has the timer `c` in its place among the timers `xs` that it had.
pub record Added (m : Memory) (c : ℕ × Task) (xs : Timers) (l' : TimerList) : Type 0 where
  pub list : IsList l' (insert c xs)
  pub same : SameOutside (c ∷ xs) m l'.memory

module _ (fuel : ℕ) (m : Memory) (q : ℕ) (k : Task) (here : m q ≡ some (node k none none)) where
  add_to-Added :
      (d : ℕ × Task) (xs : Timers)
      → has q (d ∷ xs) ≡ false
      → Chain m none (d ∷ xs)
      → length (d ∷ xs) < fuel
      → Returns (Added m (q, k) (d ∷ xs)) (add_to fuel (listed m (d ∷ xs)) q (first (d ∷ xs)))
  unfolding add_to add_front add_behind insert
  add_to-Added (a, ka) xs out c h =
      let l = listed m ((a, ka) ∷ xs) in
      let m1 = update m q (some (node k none (some a))) in
      rw (at-node m q k none none here, at-node m a ka none (first xs) c.0)
        (elim (Bool-cases (ltb k.expire ka.expire)) [
          | inl e ↦
              rw
                (
                  e,
                  set_next-node m q k none none here (some a),
                  set_prev-node m1 a ka none (first xs) (ground (arith, c.0)) (some q),
                )
                (record {
                  list = record {
                    head_is = rw e;
                    tail_is = rw e;
                    chain = rw e (
                      ground arith,
                      ground arith,
                      (ground arith, c.1, Chain-frame m _ (some a) xs c.2 (λ b g. ground arith)),
                    );
                  };
                  same = λ b g. ground arith;
                })
          | inr e ↦ rw e (
              Returns-map (Inserted l (q, k) none (a, ka) xs) (Added m (q, k) ((a, ka) ∷ xs)) _
                (add_loop-Inserted fuel l q k none none here a ka none xs out c (omega arith))
                (λ l' r. record {
                  list = record {
                    head_is = rw e r.head_same;
                    tail_is = rw e (r.tail_is refl);
                    chain = rw e r.chain;
                  };
                  same = r.same;
                }))
        ])

-- add_timer puts a new timer, whose links are null, to its place in the order of expiry. The list
-- is well linked again, nothing else in memory changes, and the fuel of one more round than the
-- list has timers is enough.
pub add_timer-Added :
    (fuel : ℕ) (l : TimerList) (q : ℕ) (k : Task) (xs : Timers)
    → IsList l xs
    → l.memory q ≡ some (node k none none)
    → has q xs ≡ false
    → length xs < fuel
    → Returns (Added l.memory (q, k) xs) (add_timer fuel l (some q))
unfolding add_timer insert
add_timer-Added fuel l q k [] v here out h =
    subst (λ o. Returns (Added l.memory (q, k) []) (add_to fuel l q o)) (sym v.head_is)
      (record {
        list = record { head_is = refl; tail_is = refl; chain = (here, refl, tt) };
        same = λ a g. refl;
      })
add_timer-Added fuel l q k (c ∷ xs) v here out h =
    subst (λ g. Returns (Added l.memory (q, k) (c ∷ xs)) (add_to fuel g q g.head))
      (sym (listed-eq l (c ∷ xs) v v.tail_is))
      (add_to-Added fuel l.memory q k here c xs out v.chain h)
