-- ===== src/TimeHeap/Build.antt =====
-- The constructor from an array of 11-6 timeHeap.h.
use mathlib.Core.List.Perm
use mathlib.Core.Bool.{false}
use you_shuang.Base.{
  ℕ, zero, suc, ◌+◌, ◌-◌, ◌/◌, ◌≤◌, ◌<◌, ◌≡◌, inl, inr, refl, sym, ap, ◌∙◌, [], ◌∷◌, Option, none,
  some, arith, ltb, ◌==◌, Bool-cases, if◌then◌else◌, ok, Returns, Returns-bind, Returns-map, length,
  get_or, set, get_or-set, length-set, length-replicate, replicate, store-ok,
}
use you_shuang.TimeHeap.{Memory, Array, TimeHeap, percolate_down, heapify, copy_into, from_array}
use you_shuang.TimeHeap.Order.{
  at, IsHeapFrom, AllLive, IsApart, Sifted, Moves, Moves-refl, Moves-trans,
}
use you_shuang.TimeHeap.Down.{percolate_down-Sifted}
use you_shuang.TimeHeap.Add.{IsTimeHeap}

Sifted-trans :
    {m : Memory} {n lo hi : ℕ} {a b c : Array}
    → Sifted hi m n a b
    → Sifted lo m n b c
    → Sifted lo m n a c
Sifted-trans s t = record {
  ordered = t.ordered;
  live = t.live;
  same = Perm.trans t.same s.same;
  size = t.size ∙ s.size;
  rest = λ i h. t.rest i h ∙ s.rest i h;
  moves = Moves-trans t.moves s.moves;
}

-- From the last entry with a child down to the first, each percolate_down widens the order.
heapify-Sifted :
    (m : Memory) (n i : ℕ) (a : Array)
    → IsHeapFrom i m n a
    → AllLive m n a
    → n ≤ length a
    → i ≤ n
    → Returns (Sifted 0 m n a) (heapify m n i a)
unfolding heapify
heapify-Sifted m n zero a h live fits inside = record {
  ordered = h;
  live = live;
  same = Perm.rfl;
  size = refl;
  rest = λ i p. refl;
  moves = Moves-refl n a;
}
heapify-Sifted m n (suc i) a h live fits inside =
    Returns-bind (Sifted i m n a) (Sifted 0 m n a) (percolate_down m n a i) (heapify m n i)
      (percolate_down-Sifted i m n a i (record {
        inside = omega arith;
        fits = fits;
        live = live;
        edges = λ c p q r t. h c p q (omega arith);
        bridged = λ c p q r t u. absurd (omega arith);
      }))
      (λ b s.
        Returns-map (Sifted 0 m n b) (Sifted 0 m n a) _
          (heapify-Sifted m n i b s.ordered s.live (omega (arith, s.size)) (omega arith))
          (λ c t. Sifted-trans s t))

-- The pointers `ps` stand in the array from `i` on.
record Filled (a : Array) (i : ℕ) (ps : Array) (b : Array) : Type 0 where
  size : length b ≡ length a
  before : (j : ℕ) → j < i → at b j ≡ at a j
  copied : (j : ℕ) → j < length ps → at b (i + j) ≡ at ps j

copy_into-Filled :
    (a : Array) (i : ℕ) (ps : Array)
    → i + length ps ≤ length a
    → Returns (Filled a i ps) (copy_into a i ps)
unfolding copy_into get_or
copy_into-Filled a i [] h = record {
  size = refl;
  before = λ j p. refl;
  copied = λ j p. absurd (omega arith);
}
copy_into-Filled a i (p ∷ ps) h =
    let w = λ (j : ℕ). get_or-set a i j p none (omega arith) in
    rw (store-ok a i p (omega arith)) (
      Returns-map (Filled (set a i p) (i + 1) ps) (Filled a i (p ∷ ps)) _
        (copy_into-Filled (set a i p) (i + 1) ps (omega (arith, length-set a i p)))
        (λ b f. record {
          size = f.size ∙ length-set a i p;
          before = λ j q. ground (arith, f.before j, w j);
          copied = elim [
            | zero ↦ λ q. ap (at b) (omega arith) ∙ f.before i (omega arith) ∙ ground (arith, w i)
            | suc j ↦ λ q. ap (at b) (omega arith) ∙ f.copied j (omega arith)
          ];
        }))

-- A heap of the timers of the array.
pub record Built (m : Memory) (init_array : Array) (capacity : ℕ) (o : Option TimeHeap)
    : Type 0 where
  pub heap : TimeHeap
  pub made : o ≡ some heap
  pub valid : IsTimeHeap heap
  pub count : heap.cur_size ≡ length init_array
  pub capacity_same : heap.capacity ≡ capacity
  pub memory_same : heap.memory ≡ m
  pub entries : Moves (length init_array) init_array heap.array

same-Moves : (n : ℕ) (a b : Array) → ((j : ℕ) → j < n → at b j ≡ at a j) → Moves n a b
same-Moves n a b same = record {
  comes_from = λ i h. (i, h, same i h);
  goes_to = λ i h. (i, h, sym (same i h));
  apart = λ d i j p q e. d i j p q (sym (same i p) ∙ e ∙ same j q);
}

arrange-Sifted :
    (m : Memory) (n : ℕ) (a : Array)
    → AllLive m n a
    → n ≤ length a
    → Returns (Sifted 0 m n a) (if n == 0 then ok a else heapify m n ((n - 1) / 2 + 1) a)
unfolding heapify
arrange-Sifted m n a live fits = elim (Bool-cases (n == 0)) [
  | inl e ↦ rw e (heapify-Sifted m n 0 a (λ c p q r. absurd (ground arith)) live fits (omega arith))
  | inr e ↦ rw e (
      heapify-Sifted m n ((n - 1) / 2 + 1) a (λ c p q r. absurd (omega arith)) live fits
        (ground arith))
]

-- From an array that fits into the capacity, leads to timers and has no pointer twice, the
-- constructor makes a heap in order of just its timers, and leaves the memory.
pub from_array-Built :
    (m : Memory) (init_array : Array) (capacity : ℕ)
    → AllLive m (length init_array) init_array
    → IsApart (length init_array) init_array
    → length init_array ≤ capacity
    → Returns (Built m init_array capacity) (from_array m init_array capacity)
unfolding from_array
from_array-Built m init_array capacity live apart h =
    let size = length init_array in
    let blank : length (replicate {A = Option ℕ} capacity none) ≡ capacity =
      length-replicate capacity none in
    let e : ltb capacity size ≡ false = ground arith in
    rw e (
      Returns-bind (Filled (replicate capacity none) 0 init_array) (Built m init_array capacity) _ _
        (copy_into-Filled (replicate capacity none) 0 init_array (omega (arith, blank)))
        (λ a f.
          let there : (j : ℕ) → j < size → at a j ≡ at init_array j =
            λ j q. ap (at a) (omega arith) ∙ f.copied j q in
          let moves = same-Moves size init_array a there in
          Returns-bind (Sifted 0 m size a) (Built m init_array capacity) _ _
            (arrange-Sifted m size a (λ i q. rw (there i q) (live i q))
              (omega (arith, f.size, blank)))
            (λ b s. record {
              heap = record { array = b; capacity = capacity; cur_size = size; memory = m };
              made = refl;
              valid = record {
                size = s.size ∙ f.size ∙ blank;
                fits = h;
                live = s.live;
                ordered = s.ordered;
                apart = s.moves.apart (moves.apart apart);
              };
              count = refl;
              capacity_same = refl;
              memory_same = refl;
              entries = Moves-trans s.moves moves;
            })))
