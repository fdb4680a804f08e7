-- ===== src/TimeHeap/Add.antt =====
-- add_timer of 11-6 timeHeap.h.
use mathlib.Core.List.Perm
use mathlib.Core.List.{Perm}
use mathlib.Core.Bool.{false}
use you_shuang.Base.{
  ℕ, zero, suc, ◌+◌, ◌≤◌, ◌<◌, ◌≡◌, ◌≢◌, inl, inr, refl, sym, ◌∙◌, none, some, arith, leb, ltb,
  ◌==◌, Bool-cases, if◌then◌else◌, Returns, Returns-bind, length, set, get_or-set, length-set,
  load-ok, store, store-ok,
}
use you_shuang.TimeHeap.{Memory, Array, TimeHeap, parent, rise, add_timer}
use you_shuang.TimeHeap.Order.{
  at, key, IsLive, expire_at-ok, IsHeapFrom, AllLive, IsBridged, IsApart, Sifted, Moves-refl,
  Sifted-exchange, exchanged-at,
}

-- The array with the timer put into the hole: only the edge above the hole may be out of order.
record UpInv (m : Memory) (n : ℕ) (v : Array) (hole : ℕ) : Type 0 where
  inside : hole < n
  fits : n ≤ length v
  live : AllLive m n v
  edges : (c : ℕ) → 0 < c → c < n → c ≢ hole → key m (at v (parent c)) ≤ key m (at v c)
  bridged : IsBridged 0 m n v hole

module _ (m : Memory) (n timer : ℕ) (a : Array) (hole : ℕ)
    (v : UpInv m n (set a hole (some timer)) hole) where
  size : length (set a hole (some timer)) ≡ length a
  size = length-set a hole (some timer)

  in_hole : hole < length a
  in_hole = omega (arith, size, v.inside, v.fits)

  at-filled : (i : ℕ) → hole ≢ i → at (set a hole (some timer)) i ≡ at a i
  at-filled i ne = ground (arith, get_or-set a hole i (some timer) none, in_hole)

  hole_is : at (set a hole (some timer)) hole ≡ some timer
  hole_is = ground (arith, get_or-set a hole hole (some timer) none, in_hole)

  settle-Sifted :
      (0 < hole → key m (at (set a hole (some timer)) (parent hole)) ≤ key m (some timer))
      → Returns (Sifted 0 m n (set a hole (some timer))) (store a hole (some timer))
  settle-Sifted above = rw (store-ok a hole (some timer) in_hole) (record {
    ordered = λ c p q r. ground (arith, v.edges c p q, above, hole_is);
    live = v.live;
    same = Perm.rfl;
    size = refl;
    rest = λ i h. refl;
    moves = Moves-refl n (set a hole (some timer));
  })

  raised-UpInv :
      0 < hole
      → key m (some timer) < key m (at (set a hole (some timer)) (parent hole))
      → UpInv m n (set (set a hole (at a (parent hole))) (parent hole) (some timer)) (parent hole)
  raised-UpInv pos above =
      let up : parent hole < hole = omega arith in
      let in_parent : parent hole < length a = omega (arith, in_hole) in
      let moved = λ (c : ℕ). exchanged-at a hole (parent hole) (some timer) c in_hole in_parent in
      let at_parent = at-filled (parent hole) (omega arith) in
      record {
        inside = omega (arith, v.inside);
        fits = omega (
          arith,
          length-set (set a hole (at a (parent hole))) (parent hole) (some timer),
          length-set a hole (at a (parent hole)),
          size,
          v.fits,
        );
        live = λ i h. ground (
          arith,
          moved i,
          at_parent,
          hole_is,
          at-filled i,
          v.live i,
          v.live hole,
          v.live (parent hole),
          v.inside,
        );
        edges = λ c p q t. ground (
          arith,
          moved c,
          moved (parent c),
          at_parent,
          hole_is,
          at-filled c,
          at-filled (parent c),
          v.edges c,
          v.edges (parent hole),
          v.bridged c,
        );
        bridged = λ c p q t u w. ground (
          arith,
          moved c,
          moved (parent (parent hole)),
          at_parent,
          at-filled c,
          at-filled (parent (parent hole)),
          v.edges c,
          v.edges (parent hole),
          v.inside,
        );
      }

rise-Sifted :
    (fuel : ℕ) (m : Memory) (n timer : ℕ) (a : Array) (hole : ℕ)
    → UpInv m n (set a hole (some timer)) hole
    → IsLive m (some timer)
    → hole < fuel
    → Returns (Sifted 0 m n (set a hole (some timer))) (rise fuel m timer a hole)
unfolding rise
rise-Sifted zero m n timer a hole v live h = elim h [ ]
rise-Sifted (suc fuel) m n timer a hole v live h = elim (Bool-cases (ltb 0 hole)) [
  | inr e ↦ rw e (settle-Sifted m n timer a hole v (λ p. absurd (ground arith)))
  | inl e ↦
      let filled = set a hole (some timer) in
      let inside = in_hole m n timer a hole v in
      let in_parent : parent hole < length a = omega (arith, inside) in
      let pos : 0 < hole = ground arith in
      let there = at-filled m n timer a hole v (parent hole) (omega arith) in
      let above : IsLive m (at a (parent hole)) =
        rw there at (v.live (parent hole) (omega (arith, v.inside))) in
      rw (e, expire_at-ok m a (parent hole) in_parent above, live)
        (elim (Bool-cases (leb (key m (at a (parent hole))) (key m (some timer)))) [
          | inl f ↦ rw f (settle-Sifted m n timer a hole v (λ p. rw there (ground arith)))
          | inr f ↦
              rw
                (
                  f,
                  load-ok a (parent hole) none in_parent,
                  store-ok a hole (at a (parent hole)) inside,
                )
                (Sifted-exchange m n (some timer) a hole 0 (parent hole) _ v.inside
                  (omega (arith, size m n timer a hole v, v.fits)) (omega (arith, v.inside))
                  (omega arith)
                  (rise-Sifted fuel m n timer (set a hole (at a (parent hole))) (parent hole)
                    (raised-UpInv m n timer a hole v pos (rw there (ground arith))) live
                    (omega arith)))
        ])
]

-- The heap is in order, every entry leads to a timer, and no pointer stands twice.
pub record IsTimeHeap (h : TimeHeap) : Type 0 where
  pub size : length h.array ≡ h.capacity
  pub fits : h.cur_size ≤ h.capacity
  pub live : AllLive h.memory h.cur_size h.array
  pub ordered : IsHeapFrom 0 h.memory h.cur_size h.array
  pub apart : IsApart h.cur_size h.array

-- `g` is a heap of the timers of `h` and the timer at `p`.
pub record Added (h : TimeHeap) (p : ℕ) (g : TimeHeap) : Type 0 where
  pub valid : IsTimeHeap g
  pub count : g.cur_size ≡ h.cur_size + 1
  pub memory_same : g.memory ≡ h.memory
  pub capacity_same : g.capacity ≡ h.capacity
  pub entries : Perm g.array (set h.array h.cur_size (some p))

module _ (h : TimeHeap) (p : ℕ) (v : IsTimeHeap h) (room : h.cur_size < h.capacity)
    (live : IsLive h.memory (some p)) where
  at-end :
      (i : ℕ)
      → at (set h.array h.cur_size (some p)) i ≡ (if h.cur_size == i then some p else at h.array i)
  at-end i = get_or-set h.array h.cur_size i (some p) none (omega (arith, v.size))

  end-UpInv : UpInv h.memory (h.cur_size + 1) (set h.array h.cur_size (some p)) h.cur_size
  end-UpInv = record {
    inside = omega arith;
    fits = omega (arith, length-set h.array h.cur_size (some p), v.size);
    live = λ i q. ground (arith, at-end i, v.live i, live);
    edges = λ c q r t. ground (arith, at-end c, at-end (parent c), v.ordered c);
    bridged = λ c q r t u w. absurd (ground arith);
  }

  end-IsApart :
      ((i : ℕ) → i < h.cur_size → at h.array i ≢ some p)
      → IsApart (h.cur_size + 1) (set h.array h.cur_size (some p))
  end-IsApart new i j q r e = ground (arith, at-end i, at-end j, v.apart i j, new i, new j, sym e)

-- Adding a timer that is not in the heap, where the array has room, gives a heap in order with the
-- timers of before and that timer; the memory and the capacity stay.
pub add_timer-Added :
    (h : TimeHeap) (p : ℕ)
    → IsTimeHeap h
    → h.cur_size < h.capacity
    → IsLive h.memory (some p)
    → ((i : ℕ) → i < h.cur_size → at h.array i ≢ some p)
    → Returns (Added h p) (add_timer h (some p))
unfolding add_timer
add_timer-Added h p v room live new =
    let open_ : leb h.capacity h.cur_size ≡ false = ground arith in
    let end = set h.array h.cur_size (some p) in
    rw open_ (
      Returns-bind (Sifted 0 h.memory (h.cur_size + 1) end) (Added h p) _ _
        (rise-Sifted (h.cur_size + 1) h.memory (h.cur_size + 1) p h.array h.cur_size
          (end-UpInv h p v room live) live (omega arith))
        (λ b s. record {
          valid = record {
            size = s.size ∙ length-set h.array h.cur_size (some p) ∙ v.size;
            fits = omega arith;
            live = s.live;
            ordered = s.ordered;
            apart = s.moves.apart (end-IsApart h p v room live new);
          };
          count = refl;
          memory_same = refl;
          capacity_same = refl;
          entries = s.same;
        }))
