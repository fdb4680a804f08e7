-- ===== src/TimeHeap/Resize.antt =====
-- resize of 11-6 timeHeap.h, and add_timer on a full array.
use mathlib.Core.Path.{subst}
use mathlib.Core.Bool.{true}
use native.Mathlib.Decide.{dec_lt}
use you_shuang.Base.{
  ℕ, zero, suc, ◌+◌, ◌*◌, ◌≤◌, ◌<◌, ◌≡◌, inl, inr, refl, Option, none, some, arith, leb, ◌==◌,
  if◌then◌else◌, ok, fault, ◌>>=◌, Run-cases, Option-cases, IfReturns, IfReturns-bind, length,
  get_or-set, replicate, load-ok, load-fault, store, store-ok, store-fault,
}
use you_shuang.TimeHeap.{
  Memory, Array, TimeHeap, expire_of, expire_at, parent, rise, insert_timer, add_timer, resize,
  move_and_delete, delete,
}
use you_shuang.TimeHeap.Order.{at}
use you_shuang.TimeHeap.Add.{IsTimeHeap}

abbrev IsDangling : Memory → Option ℕ → Type 0
IsDangling m o = expire_of m o ≡ fault

delete-IsDangling :
    (m : Memory) (o : Option ℕ)
    → IfReturns
        (λ m'. IsDangling m' o × ((q : Option ℕ) → IsDangling m q → IsDangling m' q))
        (delete m o)
unfolding delete expire_of
delete-IsDangling m none = (refl, λ q d. d)
delete-IsDangling m (some p) = elim (Option-cases (m p)) [
  | inl e ↦ rw e tt
  | inr (t, e) ↦ rw e (ground arith, elim [ none ↦ λ d. refl | some q ↦ λ d. ground arith ])
]

-- What a round writes.
store-at :
    (temp : Array) (i : ℕ) (p : Option ℕ)
    → IfReturns (λ b. (j : ℕ) → at b j ≡ (if i == j then p else at temp j)) (store temp i p)
store-at temp i p = elim (dec_lt i (length temp)) [
  | yes h ↦ rw (store-ok temp i p h) (λ j. get_or-set temp i j p none h)
  | no h ↦ rw (store-fault temp i p (omega arith)) tt
]

-- The entries that a round has copied lead nowhere.
abbrev Copied : Memory → Array → Array → ℕ → Type 0
Copied m a temp k = (at temp k ≡ at a k) × IsDangling m (at a k)

move_and_delete-dangling :
    (n i : ℕ) (m : Memory) (a temp : Array) (k : ℕ)
    → i + n ≤ length a
    → k < i + n
    → (k < i → Copied m a temp k)
    → IfReturns (λ (m', temp'). Copied m' a temp' k) (move_and_delete n i m a temp)
unfolding move_and_delete
move_and_delete-dangling zero i m a temp k h p done = done (omega arith)
move_and_delete-dangling (suc n) i m a temp k h p done = rw (load-ok a i none (omega arith)) (
    IfReturns-bind (λ b. (j : ℕ) → at b j ≡ (if i == j then at a i else at temp j))
      (λ (m', temp'). Copied m' a temp' k) _ _ (store-at temp i (at a i))
      (λ b w.
        IfReturns-bind
          (λ m'. IsDangling m' (at a i) × ((q : Option ℕ) → IsDangling m q → IsDangling m' q))
          (λ (m', temp'). Copied m' a temp' k) _ _ (delete-IsDangling m (at a i))
          (λ m' d.
            move_and_delete-dangling n (i + 1) m' a b k (omega arith) (omega arith)
              (λ q. copied b w m' d.0 d.1 q))))
  where
    copied :
        (b : Array)
        → ((j : ℕ) → at b j ≡ (if i == j then at a i else at temp j))
        → (m' : Memory) → IsDangling m' (at a i)
        → ((q : Option ℕ) → IsDangling m q → IsDangling m' q)
        → k < i + 1
        → Copied m' a b k
    copied b w m' d keep q = elim (dec_lt k i) [
      | yes r ↦ (ground (arith, w k, (done r).0), keep (at a k) (done r).1)
      | no r ↦
          let same : i ≡ k = omega arith in
          (ground (arith, w k), subst (λ j. IsDangling m' (at a j)) same d)
    ]

-- After resize each entry of the new array is the pointer that the old one had, and leads to a
-- timer that was deleted.
resize-dangling :
    (h : TimeHeap) (k : ℕ)
    → h.cur_size ≤ length h.array
    → k < h.cur_size
    → IfReturns
        (λ g. (at g.array k ≡ at h.array k) × (expire_of g.memory (at g.array k) ≡ fault))
        (resize h)
unfolding resize
resize-dangling h k fits p =
    IfReturns-bind {B = TimeHeap} (λ (m, temp). Copied m h.array temp k)
      (λ g. (at g.array k ≡ at h.array k) × (expire_of g.memory (at g.array k) ≡ fault))
      (move_and_delete h.cur_size 0 h.memory h.array (replicate (2 * h.capacity) none))
      (λ (m, temp).
        ok (record { array = temp; capacity = 2 * h.capacity; cur_size = h.cur_size; memory = m }))
      (move_and_delete-dangling h.cur_size 0 h.memory h.array (replicate (2 * h.capacity) none) k
        (omega arith) (omega arith) (λ q. elim q [ ]))
      (λ (m, temp) c. (c.0, rw c.0 c.1))

expire_at-dangling :
    (m : Memory) (a : Array) (i : ℕ) → IsDangling m (at a i) → expire_at m a i ≡ fault
unfolding expire_at
expire_at-dangling m a i d = elim (dec_lt i (length a)) [
  | yes h ↦ rw (load-ok a i none h) d
  | no h ↦ rw (load-fault a i (omega arith))
]

rise-fault :
    (fuel : ℕ) (m : Memory) (timer : ℕ) (a : Array) (hole : ℕ)
    → 0 < hole
    → IsDangling m (at a (parent hole))
    → rise fuel m timer a hole ≡ fault
unfolding rise
rise-fault zero m timer a hole h d = refl
rise-fault (suc fuel) m timer a hole h d =
    rw (expire_at-dangling m a (parent hole) d) (ground arith)

cur_size-resize : (h : TimeHeap) → IfReturns (λ g. g.cur_size ≡ h.cur_size) (resize h)
unfolding resize
cur_size-resize h = ground arith

insert_timer-empty :
    (m : Memory) (a : Array) (n c p : ℕ)
    → n ≡ 0
    → c ≡ 0
    → (resize (record { array = a; capacity = c; cur_size = n; memory = m }) >>= λ g.
        insert_timer g p)
      ≡ fault
unfolding resize move_and_delete insert_timer rise store
insert_timer-empty m a n c p e f = rw (e, f)

-- add_timer never succeeds where the array is full: resize deletes the timers that it copies the
-- pointers of, so the search for the new timer's place reads a deleted timer; and an array of
-- capacity 0 stays one.
pub add_timer-full :
    (h : TimeHeap) (p : ℕ) → IsTimeHeap h → h.capacity ≤ h.cur_size → add_timer h (some p) ≡ fault
unfolding add_timer
add_timer-full h p v full =
    let grow : leb h.capacity h.cur_size ≡ true = ground arith in
    rw grow (elim (dec_lt 0 h.cur_size) [
      | no empty ↦
          insert_timer-empty h.memory h.array h.cur_size h.capacity p (omega arith)
            (omega (arith, v.fits))
      | yes some_timers ↦ elim (Run-cases (resize h)) [
        | inl e ↦ rw e
        | inr (g, e) ↦
            let d = rw e at (
              resize-dangling h (parent h.cur_size) (omega (arith, v.size, v.fits))
                (omega arith)) in
            let n : g.cur_size ≡ h.cur_size = rw e at (cur_size-resize h) in
            rw e (
              rw (
                rise-fault (g.cur_size + 1) g.memory p g.array g.cur_size (omega arith) (rw n d.1)))
      ]
    ])
