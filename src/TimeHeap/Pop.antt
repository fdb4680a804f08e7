-- ===== src/TimeHeap/Pop.antt =====
-- pop_timer of 11-6 timeHeap.h.
use mathlib.Core.Bool.{false}
use native.Mathlib.Decide.{dec_lt}
use you_shuang.Base.{
  update, or_fault, ℕ, zero, suc, ◌+◌, ◌-◌, ◌≤◌, ◌<◌, ◌≡◌, ◌≢◌, inl, inr, refl, sym, ap, ◌∙◌,
  Option, none, some, arith, ◌==◌, Bool-cases, Option-cases, if◌then◌else◌, ok, ◌>>=◌, Returns,
  Returns-bind, length, set, get_or-set, length-set, load-ok, store-ok,
}
use you_shuang.TimeHeap.{
  Timer, Memory, Array, TimeHeap, expire_of, parent, percolate_down, delete, pop_first, pop_timer,
}
use you_shuang.TimeHeap.Order.{at, key, expire_in, IsLive, IsHeapFrom, IsApart, Sifted}
use you_shuang.TimeHeap.Down.{DownInv, percolate_down-none, percolate_down-Sifted}
use you_shuang.TimeHeap.Add.{IsTimeHeap}

root_least_below :
    (fuel : ℕ) (m : Memory) (n : ℕ) (a : Array) (i : ℕ)
    → IsHeapFrom 0 m n a
    → i < fuel
    → i < n
    → key m (at a 0) ≤ key m (at a i)
root_least_below zero m n a i h f p = elim f [ ]
root_least_below (suc fuel) m n a i h f p =
    ground (arith, h i, root_least_below fuel m n a (parent i) h)

-- No timer in the heap expires before the one at the top.
pub root_least :
    (h : TimeHeap) (i : ℕ)
    → IsTimeHeap h
    → i < h.cur_size
    → key h.memory (at h.array 0) ≤ key h.memory (at h.array i)
root_least h i v p =
    root_least_below (i + 1) h.memory h.cur_size h.array i v.ordered (omega arith) p

pub IsLive-some :
    (m : Memory) (o : Option ℕ) → IsLive m o → (p : ℕ) × (t : Timer) × (o ≡ some p) × (m p ≡ some t)
unfolding expire_of
IsLive-some m none e = cc
IsLive-some m (some p) e = elim (Option-cases (m p)) [
  | inl n ↦ cc (rw n at e)
  | inr (t, s) ↦ (p, t, refl, s)
]

-- A pointer to another timer is not touched by a delete.
IsLive-update :
    (m : Memory) (p : ℕ) (o : Option ℕ)
    → IsLive m o
    → o ≢ some p
    → (IsLive (update m p none) o) × (key (update m p none) o ≡ key m o)
unfolding expire_of key expire_in
IsLive-update m p none l ne = cc
IsLive-update m p (some q) l ne = elim (Bool-cases (p == q)) [
  | inl e ↦ absurd (ne (ap some (ground arith)))
  | inr e ↦
      let same : update m p none q ≡ m q = rw e refl in
      (
        ap (λ o. or_fault o >>= λ t. ok t.expire) same ∙ l ∙ ap (λ o. ok (expire_in o)) (sym same),
        ap expire_in same,
      )
]

-- `g` is the heap `h` without its top, which is deleted.
pub record Popped (h : TimeHeap) (g : TimeHeap) : Type 0 where
  pub valid : IsTimeHeap g
  pub count : g.cur_size + 1 ≡ h.cur_size
  pub capacity_same : g.capacity ≡ h.capacity
  pub deleted : (p : ℕ) → at h.array 0 ≡ some p → g.memory ≡ update h.memory p none
  pub comes_from :
      (i : ℕ)
      → i < g.cur_size
      → (j : ℕ) × (0 < j) × (j < h.cur_size) × (at g.array i ≡ at h.array j)
  pub goes_to :
      (j : ℕ) → 0 < j → j < h.cur_size → (i : ℕ) × (i < g.cur_size) × (at h.array j ≡ at g.array i)

-- The order of what is left, with the last entry at the top.
module _ (h : TimeHeap) (v : IsTimeHeap h) (p : ℕ) (top_is : at h.array 0 ≡ some p)
    (some_timers : 0 < h.cur_size) where
  abbrev last_index : ℕ
  last_index = h.cur_size - 1

  abbrev left : Array
  left = set h.array 0 (at h.array last_index)

  abbrev kept : Memory
  kept = update h.memory p none

  in_array : 0 < length h.array
  in_array = omega (arith, v.size, v.fits)

  left-at : (i : ℕ) → at left i ≡ (if 0 == i then at h.array last_index else at h.array i)
  left-at i = get_or-set h.array 0 i (at h.array last_index) none in_array

  entry :
      (j : ℕ)
      → 0 < j
      → j < h.cur_size
      → (IsLive kept (at h.array j)) × (key kept (at h.array j) ≡ key h.memory (at h.array j))
  entry j q r =
      IsLive-update h.memory p (at h.array j) (v.live j r)
        (λ e. absurd (omega (arith, v.apart j 0 r some_timers (e ∙ sym top_is))))

  left-from :
      (i : ℕ) → i < last_index → (j : ℕ) × (0 < j) × (j < h.cur_size) × (at left i ≡ at h.array j)
  left-from zero q = (last_index, q, omega arith, left-at 0)
  left-from (suc i) q = (suc i, omega arith, omega arith, ground (arith, left-at (suc i)))

  left-to :
      (j : ℕ) → 0 < j → j < h.cur_size → (i : ℕ) × (i < last_index) × (at h.array j ≡ at left i)
  left-to j q r = elim (dec_lt j last_index) [
    | yes s ↦ (j, s, ground (arith, left-at j))
    | no s ↦ (0, omega arith, rw (left-at 0) (ap (at h.array) (omega arith)))
  ]

  left-entry :
      (i : ℕ)
      → i < last_index
      → (IsLive kept (at left i)) × (key kept (at left i) ≡ key h.memory (at left i))
  left-entry i q = let (j, pos, inside, e) = left-from i q in rw e (entry j pos inside)

  left-IsApart : IsApart last_index left
  left-IsApart i j q r e =
      ground (arith, left-at i, left-at j, v.apart i j, v.apart i last_index, v.apart last_index j)

  left-DownInv : 0 < last_index → DownInv 0 kept last_index left 0
  left-DownInv pos = record {
    inside = pos;
    fits = omega (arith, length-set h.array 0 (at h.array last_index), v.size, v.fits);
    live = λ i q. (left-entry i q).0;
    edges = λ c q r s t.
        ground (arith, left-at c, left-at (parent c), entry c, entry (parent c), v.ordered c);
    bridged = λ c q r s t u. absurd (omega arith);
  }

  -- What percolate_down gives is what pop_timer keeps.
  Sifted-Popped :
      (b : Array)
      → Sifted 0 kept last_index left b
      → Popped h (record { array = b; capacity = h.capacity; cur_size = last_index; memory = kept })
  Sifted-Popped b s = record {
    valid = record {
      size = s.size ∙ length-set h.array 0 (at h.array last_index) ∙ v.size;
      fits = omega (arith, v.fits);
      live = s.live;
      ordered = s.ordered;
      apart = s.moves.apart left-IsApart;
    };
    count = omega arith;
    capacity_same = refl;
    deleted = λ q e. ap (λ x. update h.memory x none) (ground (arith, top_is));
    comes_from = λ i q.
        let (j, r, e) = s.moves.comes_from i q in
        let (k, pos, inside, f) = left-from j r in (k, pos, inside, e ∙ f);
    goes_to = λ j q r.
        let (i, t, e) = left-to j q r in let (k, u, f) = s.moves.goes_to i t in (k, u, e ∙ f);
  }

  percolated : Returns (Sifted 0 kept last_index left) (percolate_down kept last_index left 0)
  percolated = elim (dec_lt 0 last_index) [
    | yes q ↦ percolate_down-Sifted 0 kept last_index left 0 (left-DownInv q)
    | no q ↦
        percolate_down-none 0 kept last_index left 0 (omega arith)
          (omega (arith, length-set h.array 0 (at h.array last_index), in_array))
  ]

-- pop_timer takes the top off a heap that has one. The timer is deleted, the other entries stay, in
-- a heap again, and the array keeps its capacity.
pub pop_timer-Popped :
    (h : TimeHeap) → IsTimeHeap h → 0 < h.cur_size → Returns (Popped h) (pop_timer h)
unfolding pop_timer pop_first delete
pop_timer-Popped h v some_timers =
    let (p, t, top_is, there) = IsLive-some h.memory (at h.array 0) (v.live 0 some_timers) in
    let pos : (h.cur_size == 0) ≡ false = ground arith in
    let inside = in_array h v p top_is some_timers in
    let n = h.cur_size - 1 in
    rw
      (
        pos,
        load-ok h.array 0 none inside,
        top_is,
        there,
        load-ok h.array n none (omega (arith, inside, v.size, v.fits)),
        store-ok h.array 0 (at h.array n) inside,
      )
      (Returns-bind (Sifted 0 (kept h v p top_is some_timers) n (left h v p top_is some_timers))
        (Popped h) _ _ (percolated h v p top_is some_timers)
        (Sifted-Popped h v p top_is some_timers))
