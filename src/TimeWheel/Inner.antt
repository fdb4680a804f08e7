-- ===== src/TimeWheel/Inner.antt =====
-- A node in the inside of a slot of the wheel of 11-5 time_wheel_timer.h.
use you_shuang.Base.{ℕ, ◌≡◌, refl, false, [], ◌∷◌, ◌++◌, Option, none, some, arith, update, Returns}
use you_shuang.Nodes.Chain.{
  Nodes, node, has, first, last, Chain, SameOutside, Chain-frame, Chain-drop, Chain-apart,
  Chain-replace, has-append, at-node, set_next-node, set_prev-node,
}
use you_shuang.TimeWheel.{TwTask, Memory, unlink, relink}

module _ (m : Memory) (ws : Nodes TwTask) (p : ℕ) (kp : TwTask) (q : ℕ) (k : TwTask)
    (xs : Nodes TwTask) where
  abbrev before : Nodes TwTask
  before = ws ++ ((p, kp) ∷ (q, k) ∷ xs)

  abbrev after : Nodes TwTask
  after = ws ++ ((p, kp) ∷ xs)

  -- The timer `q` behind `p` is taken out of the links, and stays in memory.
  pub record Unlinked (m' : Memory) : Type 0 where
    pub chain : Chain m' none after
    pub out : m' q ≡ some (node k (some p) (first xs))
    pub not_in : has q after ≡ false
    pub same : SameOutside before m m'

pub unlink-Unlinked :
    (m : Memory) (ws : Nodes TwTask) (p : ℕ) (kp : TwTask) (q : ℕ) (k : TwTask) (xs : Nodes TwTask)
    → Chain m none (ws ++ ((p, kp) ∷ (q, k) ∷ xs))
    → Returns (Unlinked m ws p kp q k xs) (unlink m q)
unfolding unlink relink
unlink-Unlinked m ws p kp q k [] c =
    let d = Chain-drop m none ws ((p, kp) ∷ (q, k) ∷ []) c in
    let apart = Chain-apart m none ws ((p, kp) ∷ (q, k) ∷ []) c in
    let m1 = update m p (some (node kp (last none ws) none)) in
    let q1 : m1 q ≡ some (node k (some p) none) = ground (arith, d.2.0) in
    rw
      (
        at-node m q k (some p) none d.2.0,
        set_next-node m p kp (last none ws) (some q) d.0 none,
        at-node m1 q k (some p) none q1,
      )
      (record {
        chain =
            Chain-replace m m1 none ws ((p, kp) ∷ (q, k) ∷ []) ((p, kp) ∷ []) c
              (ground arith, refl, tt) (λ a h. ground (arith, apart a)) refl
              (λ a h. ground (arith, apart a));
        out = q1;
        not_in = ground (arith, has-append q ws ((p, kp) ∷ []), apart q);
        same = λ a h. ground (arith, has-append a ws ((p, kp) ∷ (q, k) ∷ []));
      })
unlink-Unlinked m ws p kp q k ((b, kb) ∷ vs) c =
    let d = Chain-drop m none ws ((p, kp) ∷ (q, k) ∷ (b, kb) ∷ vs) c in
    let apart = Chain-apart m none ws ((p, kp) ∷ (q, k) ∷ (b, kb) ∷ vs) c in
    let m1 = update m p (some (node kp (last none ws) (some b))) in
    let m2 = update m1 b (some (node kb (some p) (first vs))) in
    let q1 : m1 q ≡ some (node k (some p) (some b)) = ground (arith, d.2.0) in
    rw
      (
        at-node m q k (some p) (some b) d.2.0,
        set_next-node m p kp (last none ws) (some q) d.0 (some b),
        at-node m1 q k (some p) (some b) q1,
        set_prev-node m1 b kb (some q) (first vs) (ground (arith, d.2.2.0)) (some p),
      )
      (record {
        chain =
            Chain-replace m m2 none ws ((p, kp) ∷ (q, k) ∷ (b, kb) ∷ vs) ((p, kp) ∷ (b, kb) ∷ vs) c
              (
                ground arith,
                ground arith,
                (
                  ground arith,
                  ground arith,
                  Chain-frame m m2 (some b) vs d.2.2.2 (λ a h. ground arith),
                ),
              )
              (λ a h. ground (arith, apart a)) refl (λ a h. ground (arith, apart a));
        out = ground arith;
        not_in = ground (arith, has-append q ws ((p, kp) ∷ (b, kb) ∷ vs), apart q);
        same = λ a h. ground (arith, has-append a ws ((p, kp) ∷ (q, k) ∷ (b, kb) ∷ vs));
      })

-- Another task in a node of a chain.
pub Chain-change :
    (m : Memory) (prev : Option ℕ) (ys : Nodes TwTask) (q : ℕ) (k k' : TwTask) (xs : Nodes TwTask)
    → Chain m prev (ys ++ ((q, k) ∷ xs))
    → Chain (update m q (some (node k' (last prev ys) (first xs)))) prev (ys ++ ((q, k') ∷ xs))
Chain-change m prev ys q k k' xs c =
    let d = Chain-drop m prev ys ((q, k) ∷ xs) c in
    let apart = Chain-apart m prev ys ((q, k) ∷ xs) c in
    let m' = update m q (some (node k' (last prev ys) (first xs))) in
    Chain-replace m m' prev ys ((q, k) ∷ xs) ((q, k') ∷ xs) c
      (ground arith, d.1, Chain-frame m m' (some q) xs d.2 (λ a h. ground arith))
      (λ a h. ground (arith, apart a)) refl (λ a h. apart a h)
