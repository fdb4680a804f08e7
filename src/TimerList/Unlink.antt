-- ===== src/TimerList/Unlink.antt =====
-- Taking a timer out of the list of 11-2 lst_timer.h.
use you_shuang.Base.{ℕ, ◌≡◌, refl, false, ◌∷◌, ◌++◌, none, some, arith, update, Returns}
use you_shuang.TimerList.{Task, Memory, unlink}
use you_shuang.TimerList.Lists.{Timers}
use you_shuang.Nodes.Chain.{
  node, has, first, last, Chain, SameOutside, Chain-frame, Chain-drop, Chain-apart, Chain-replace,
  has-append, at-node, set_next-node, set_prev-node,
}

-- The timer `q` stands between `p` and `b`.
module _ (m : Memory) (ws : Timers) (p : ℕ) (kp : Task) (q : ℕ) (k : Task) (b : ℕ) (kb : Task)
    (vs : Timers) where
  abbrev before : Timers
  before = ws ++ ((p, kp) ∷ (q, k) ∷ (b, kb) ∷ vs)

  abbrev after : Timers
  after = ws ++ ((p, kp) ∷ (b, kb) ∷ vs)

  -- It is taken out of the links, and stays in memory.
  pub record Unlinked (m' : Memory) : Type 0 where
    pub chain : Chain m' none after
    pub out : m' q ≡ some (node k (some p) (some b))
    pub not_in : has q after ≡ false
    pub same : SameOutside before m m'

  pub unlink-Unlinked : Chain m none before → Returns Unlinked (unlink m q)
  unfolding unlink
  unlink-Unlinked c =
      let d = Chain-drop m none ws ((p, kp) ∷ (q, k) ∷ (b, kb) ∷ vs) c in
      let apart = Chain-apart m none ws ((p, kp) ∷ (q, k) ∷ (b, kb) ∷ vs) c in
      let m1 = update m p (some (node kp (last none ws) (some b))) in
      let m2 = update m1 b (some (node kb (some p) (first vs))) in
      let q1 : m1 q ≡ some (node k (some p) (some b)) = ground (arith, d.2.0) in
      rw
        (
          at-node m q k (some p) (some b) d.2.0,
          set_next-node m p kp (last none ws) (some q) d.0 (some b),
          at-node m1 q k (some p) (some b) q1,
          set_prev-node m1 b kb (some q) (first vs) (ground (arith, d.2.2.0)) (some p),
        )
        (record {
          chain =
              Chain-replace m m2 none ws ((p, kp) ∷ (q, k) ∷ (b, kb) ∷ vs) ((p, kp) ∷ (b, kb) ∷ vs)
                c
                (
                  ground arith,
                  ground arith,
                  (
                    ground arith,
                    ground arith,
                    Chain-frame m m2 (some b) vs d.2.2.2 (λ a h. ground arith),
                  ),
                )
                (λ a h. ground (arith, apart a)) refl (λ a h. ground (arith, apart a));
          out = ground arith;
          not_in = ground (arith, has-append q ws ((p, kp) ∷ (b, kb) ∷ vs), apart q);
          same = λ a h. ground (arith, has-append a ws ((p, kp) ∷ (q, k) ∷ (b, kb) ∷ vs));
        })
