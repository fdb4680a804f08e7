-- ===== src/TimeHeap/Down.antt =====
-- percolate_down of 11-6 timeHeap.h restores the heap.
use mathlib.Core.Path.{subst}
use mathlib.Core.Bool.{false}
use mathlib.Core.List.Perm
use you_shuang.Base.{
  ℕ, zero, suc, ◌+◌, ◌-◌, ◌*◌, ◌≤◌, ◌<◌, ◌≡◌, ◌≢◌, ◌⊎◌, inl, inr, refl, sym, ap, [], ◌∷◌, Option,
  none, arith, ltb, ◌==◌, Bool-cases, if◌then◌else◌, ok, Returns, Returns-bind, length, get_or, set,
  get_or-set, length-set, load-ok, store, store-ok,
}
use you_shuang.TimeHeap.{
  Memory, Array, expire_at, parent, choose_child, percolate_loop, percolate_down,
}
use you_shuang.TimeHeap.Order.{
  at, key, IsLive, expire_at-ok, AllLive, IsBridged, Sifted, Sifted-exchange, Moves-refl,
}

-- The array with the timer put into the hole: only the edges below the hole may be out of order.
pub record DownInv (lo : ℕ) (m : Memory) (n : ℕ) (v : Array) (hole : ℕ) : Type 0 where
  pub inside : hole < n
  pub fits : n ≤ length v
  pub live : AllLive m n v
  pub edges :
      (c : ℕ)
      → 0 < c
      → c < n
      → lo ≤ parent c
      → parent c ≢ hole
      → key m (at v (parent c)) ≤ key m (at v c)
  pub bridged : IsBridged lo m n v hole

-- `child` is the child of the hole with the earlier expiry.
record IsChosen (m : Memory) (n : ℕ) (v : Array) (hole child : ℕ) : Type 0 where
  inside : child < n
  child_of : (child ≡ hole * 2 + 1) ⊎ (child ≡ hole * 2 + 2)
  least : (c : ℕ) → 0 < c → c < n → parent c ≡ hole → key m (at v child) ≤ key m (at v c)

child_cases : (c hole : ℕ) → 0 < c → parent c ≡ hole → (c ≡ hole * 2 + 1) ⊎ (c ≡ hole * 2 + 1 + 1)
child_cases c hole p r = ground arith

module _ (m : Memory) (n : ℕ) (temp : Option ℕ) (a : Array) (hole : ℕ) where
  abbrev filled : Array
  filled = set a hole temp

  module _ (lo : ℕ) (v : DownInv lo m n filled hole) where
    size : length filled ≡ length a
    size = length-set a hole temp

    at-filled : (i : ℕ) → hole ≢ i → at filled i ≡ at a i
    at-filled i ne = ground (arith, get_or-set a hole i temp none, size, v.inside, v.fits)

    hole_is : at filled hole ≡ temp
    hole_is = ground (arith, get_or-set a hole hole temp none, size, v.inside, v.fits)

    read_entry : (i : ℕ) → i < n → hole ≢ i → expire_at m a i ≡ ok (key m (at filled i))
    read_entry i h ne =
        let e = at-filled i ne in
        rw e (expire_at-ok m a i (omega (arith, size, v.fits)) (rw e at (v.live i h)))

    choose_child-IsChosen :
        hole * 2 + 1 < n → Returns (IsChosen m n filled hole) (choose_child m n a (hole * 2 + 1))
    unfolding choose_child
    choose_child-IsChosen h = elim (Bool-cases (ltb (hole * 2 + 1 + 1) n)) [
      | inr e ↦ rw e (record {
        inside = h;
        child_of = inl refl;
        least = λ c p q r. let only : c ≡ hole * 2 + 1 = ground arith in rw only (omega arith);
      })
      | inl e ↦
          let k : hole * 2 + 1 + 1 < n = ground arith in
          rw
            (
              e,
              read_entry (hole * 2 + 1 + 1) k (omega arith),
              read_entry (hole * 2 + 1) h (omega arith),
            )
            (elim (Bool-cases
              (ltb (key m (at filled (hole * 2 + 1 + 1))) (key m (at filled (hole * 2 + 1))))) [
                | inl f ↦ rw f (record {
                  inside = k;
                  child_of = inr (omega arith);
                  least = λ c p q r. ground (arith, child_cases c hole p r);
                })
                | inr f ↦ rw f (record {
                  inside = h;
                  child_of = inl refl;
                  least = λ c p q r. ground (arith, child_cases c hole p r);
                })
              ])
    ]

    -- The array after a round, with the timer put into the child.
    exchanged : ℕ → Array
    exchanged child = set (set a hole (at a child)) child temp

    exchanged-at :
        (child c : ℕ)
        → child < n
        → hole ≢ child
        → at (exchanged child) c
          ≡ (if child == c then temp else if hole == c then at a child else at a c)
    unfolding exchanged
    exchanged-at child c h ne = rw (
      get_or-set (set a hole (at a child)) child c temp none
          (omega (arith, length-set a hole (at a child), size, v.fits)),
      get_or-set a hole c (at a child) none (omega (arith, size, v.fits, v.inside)),
    )

    exchanged-DownInv :
        (child : ℕ)
        → IsChosen m n filled hole child
        → key m (at filled child) < key m temp
        → DownInv lo m n (exchanged child) child
    unfolding exchanged
    exchanged-DownInv child s below =
        let ne : hole ≢ child = omega (arith, s.child_of) in
        let up : parent child ≡ hole = omega (arith, s.child_of) in
        let moved = λ (c : ℕ). exchanged-at child c s.inside ne in
        let at_child = at-filled child ne in
        record {
          inside = s.inside;
          fits = omega (
            arith,
            length-set (set a hole (at a child)) child temp,
            length-set a hole (at a child),
            size,
            v.fits,
          );
          live = λ i h. ground (
            arith,
            moved i,
            at_child,
            hole_is,
            at-filled i,
            v.live i,
            v.live hole,
            v.live child,
            v.inside,
            s.inside,
          );
          edges = λ c p q r t. ground (
            arith,
            moved c,
            moved (parent c),
            at_child,
            hole_is,
            at-filled c,
            at-filled (parent c),
            v.edges c,
            v.bridged child,
            s.least c,
            up,
          );
          bridged = λ c p q r t u.
              ground (arith, moved c, moved (parent child), at_child, at-filled c, v.edges c, up);
        }

    -- The timer stays in the hole if no child is earlier.
    settle-Sifted :
        ((c : ℕ) → 0 < c → c < n → parent c ≡ hole → key m temp ≤ key m (at filled c))
        → Returns (Sifted lo m n filled) (store a hole temp)
    settle-Sifted least =
        rw (store-ok a hole temp (omega (arith, size, v.inside, v.fits))) (record {
          ordered = λ c p q r. ground (arith, v.edges c p q r, least c p q, hole_is);
          live = v.live;
          same = Perm.rfl;
          size = refl;
          rest = λ i h. refl;
          moves = Moves-refl n filled;
        })

percolate_loop-Sifted :
    (fuel : ℕ) (m : Memory) (n : ℕ) (temp : Option ℕ) (a : Array) (hole lo : ℕ)
    → DownInv lo m n (set a hole temp) hole
    → n - hole < fuel
    → Returns (Sifted lo m n (set a hole temp)) (percolate_loop fuel m n temp a hole)
unfolding percolate_loop exchanged
percolate_loop-Sifted zero m n temp a hole lo v h = elim h [ ]
percolate_loop-Sifted (suc fuel) m n temp a hole lo v h = elim (Bool-cases (ltb (hole * 2 + 1) n)) [
  | inr e ↦ rw e (settle-Sifted m n temp a hole lo v (λ c p q r. absurd (ground arith)))
  | inl e ↦ rw e (
      Returns-bind (IsChosen m n (set a hole temp) hole) (Sifted lo m n (set a hole temp)) _ _
        (choose_child-IsChosen m n temp a hole lo v (ground arith))
        (λ child s.
          let ne : hole ≢ child = omega (arith, s.child_of) in
          let live : IsLive m temp = rw (hole_is m n temp a hole lo v) at (v.live hole v.inside) in
          let moved = at-filled m n temp a hole lo v child ne in
          rw (read_entry m n temp a hole lo v child s.inside ne, live)
            (elim (Bool-cases (ltb (key m (at (set a hole temp) child)) (key m temp))) [
              | inr f ↦
                  rw f (settle-Sifted m n temp a hole lo v (λ c p q r. ground (arith, s.least c)))
              | inl f ↦
                  let size = length-set a hole temp in
                  let in_child : child < length a = omega (arith, size, v.fits, s.inside) in
                  let in_hole : hole < length a = omega (arith, size, v.inside, v.fits) in
                  rw (f, load-ok a child none in_child, store-ok a hole (at a child) in_hole)
                    (Sifted-exchange m n temp a hole lo child _ v.inside
                      (omega (arith, size, v.fits)) s.inside ne
                      (percolate_loop-Sifted fuel m n temp (set a hole (at a child)) child lo
                        (exchanged-DownInv m n temp a hole lo v child s (ground arith))
                        (omega (arith, s.child_of, s.inside))))
            ])))
]

set-at : (a : Array) (i : ℕ) → i < length a → set a i (at a i) ≡ a
unfolding set get_or
set-at [] i h = elim h [ ]
set-at (x ∷ a) zero h = refl
set-at (x ∷ a) (suc i) h = ap (◌∷◌ x) (set-at a i (omega arith))

-- Where only the edges below the hole may be out of order, from `lo` on, percolate_down puts the
-- first `n` entries in order from `lo` on. They are the same pointers, and all lead to timers; the
-- entries behind them stay.
pub percolate_down-Sifted :
    (lo : ℕ) (m : Memory) (n : ℕ) (a : Array) (hole : ℕ)
    → DownInv lo m n a hole
    → Returns (Sifted lo m n a) (percolate_down m n a hole)
unfolding percolate_down
percolate_down-Sifted lo m n a hole v =
    let inside : hole < length a = omega (arith, v.inside, v.fits) in
    let same = set-at a hole inside in
    rw (load-ok a hole none inside) (
      subst (λ w. Returns (Sifted lo m n w) (percolate_loop (n + 1) m n (at a hole) a hole)) same
        (percolate_loop-Sifted (n + 1) m n (at a hole) a hole lo
          (subst (λ w. DownInv lo m n w hole) (sym same) v) (omega arith)))

-- Of no entries none is moved.
pub percolate_down-none :
    (lo : ℕ) (m : Memory) (n : ℕ) (a : Array) (hole : ℕ)
    → n ≡ 0
    → hole < length a
    → Returns (Sifted lo m n a) (percolate_down m n a hole)
unfolding percolate_down percolate_loop
percolate_down-none lo m n a hole empty inside =
    let leaf : ltb (hole * 2 + 1) 0 ≡ false = ground arith in
    rw
      (
        empty,
        load-ok a hole none inside,
        leaf,
        store-ok a hole (at a hole) inside,
        set-at a hole inside,
      )
      (record {
        ordered = λ c p q r. absurd (omega arith);
        live = λ i p. absurd (omega arith);
        same = Perm.rfl;
        size = refl;
        rest = λ i p. refl;
        moves = Moves-refl 0 a;
      })
