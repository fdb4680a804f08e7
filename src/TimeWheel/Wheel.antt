-- ===== src/TimeWheel/Wheel.antt =====
-- The whole wheel of 11-5 time_wheel_timer.h: its slots, and a tick.
use mathlib.Core.Path.{subst}
use you_shuang.Base.{
  ℕ, ◌+◌, ◌%◌, ◌<◌, ◌≡◌, ap, ◌∙◌, true, inl, inr, [], ◌∷◌, none, arith, ◌==◌, Bool-cases,
  same_or_not, if◌then◌else◌, length, get_or, load-ok, Returns, Returns-bind,
}
use you_shuang.Nodes.Chain.{has, first, Chain, SameOutside, Chain-outside}
use you_shuang.TimeWheel.{slot_count, TimeWheel, Calls, tick_loop, tick}
use you_shuang.TimeWheel.Sweep.{Timers, waits, kept, expired, is_safe, calls, AllCallable, has-kept}
use you_shuang.TimeWheel.Loop.{Swept}
use you_shuang.TimeWheel.Front.{front-Swept}

-- Each timer knows its slot.
abbrev pub AllPlaced : ℕ → Timers → Type 0
AllPlaced i [] = Unit {0}
AllPlaced i ((a, k) ∷ xs) = (k.time_slot ≡ i) × AllPlaced i xs

-- The timers of each slot; no timer stands in two.
pub record IsWheel (w : TimeWheel) (lists : ℕ → Timers) : Type 0 where
  pub size : length w.slots ≡ slot_count
  pub cur : w.cur_slot < slot_count
  pub heads : (i : ℕ) → i < slot_count → get_or w.slots i none ≡ first (lists i)
  pub chains : (i : ℕ) → i < slot_count → Chain w.memory none (lists i)
  pub apart :
      (a i j : ℕ)
      → i < slot_count
      → j < slot_count
      → has a (lists i) ≡ true
      → has a (lists j) ≡ true
      → i ≡ j
  pub placed : (i : ℕ) → i < slot_count → AllPlaced i (lists i)

-- The timers of each slot after a tick.
abbrev pub after : TimeWheel → (ℕ → Timers) → ℕ → Timers
after w lists i = if w.cur_slot == i then kept (lists i) else lists i

pub record Turned (w : TimeWheel) (lists : ℕ → Timers) (r : TimeWheel × Calls) : Type 0 where
  pub wheel : IsWheel r.0 (after w lists)
  pub next : r.0.cur_slot ≡ (w.cur_slot + 1) % slot_count
  pub called : r.1 ≡ calls (expired (lists w.cur_slot))
  pub freed : (a : ℕ) → has a (expired (lists w.cur_slot)) ≡ true → r.0.memory a ≡ none
  pub same : SameOutside (lists w.cur_slot) w.memory r.0.memory

kept-AllPlaced : (i : ℕ) (xs : Timers) → AllPlaced i xs → AllPlaced i (kept xs)
unfolding kept
kept-AllPlaced i [] p = tt
kept-AllPlaced i ((a, k) ∷ xs) p = elim (Bool-cases (waits k)) [
  | inl e ↦ rw e (p.0, kept-AllPlaced i xs p.1)
  | inr e ↦ rw e (kept-AllPlaced i xs p.1)
]

has-after :
    (w : TimeWheel) (lists : ℕ → Timers) (a i : ℕ)
    → has a (after w lists i) ≡ true
    → has a (lists i) ≡ true
has-after w lists a i h = elim (Bool-cases (has a (lists i))) [
  | inl e ↦ e
  | inr e ↦ ground (arith, has-kept a (lists i) e)
]

module _ (w : TimeWheel) (lists : ℕ → Timers) (v : IsWheel w lists) where
  swept-IsWheel :
      (log : Calls) (r : TimeWheel × Calls)
      → Swept w log [] (lists w.cur_slot) r
      → IsWheel (record r.0 { cur_slot = (r.0.cur_slot + 1) % slot_count }) (after w lists)
  swept-IsWheel log r s = record {
    size = s.size ∙ v.size;
    cur = omega arith;
    heads = λ i h. elim (same_or_not w.cur_slot i) [
      | inl e ↦ s.heads i ∙ ground (arith, ap (λ x. first (kept (lists x))) e)
      | inr e ↦ s.heads i ∙ ground (arith, v.heads i h)
    ];
    chains = λ i h. elim (Bool-cases (w.cur_slot == i)) [
      | inl e ↦
          let here : w.cur_slot ≡ i = ground arith in
          rw e (subst (λ x. Chain r.0.memory none (kept (lists x))) here s.chain)
      | inr e ↦ rw e (
          Chain-outside w.memory r.0.memory none (lists i) (lists w.cur_slot) (v.chains i h) s.same
            (λ a g. elim (Bool-cases (has a (lists w.cur_slot))) [
              | inl there ↦
                  let z : i ≡ w.cur_slot = v.apart a i w.cur_slot h v.cur g there in ground arith
              | inr f ↦ f
            ]))
    ];
    apart = λ a i j p q g h. v.apart a i j p q (has-after w lists a i g) (has-after w lists a j h);
    placed = λ i h. elim (Bool-cases (w.cur_slot == i)) [
      | inl e ↦ rw e (kept-AllPlaced i (lists i) (v.placed i h))
      | inr e ↦ rw e (v.placed i h)
    ];
  }

-- Where the timers of the current slot have callbacks, and those that expire stand in front or last,
-- tick calls those that expire, in their order and no others, deletes them, takes one turn from the
-- others, changes nothing else, and goes to the next slot.
pub tick-Turned :
    (fuel : ℕ) (w : TimeWheel) (lists : ℕ → Timers)
    → IsWheel w lists
    → AllCallable (lists w.cur_slot)
    → is_safe (lists w.cur_slot) ≡ true
    → length (lists w.cur_slot) < fuel
    → Returns (Turned w lists) (tick fuel w)
unfolding tick
tick-Turned fuel w lists v f safe enough =
    let xs = lists w.cur_slot in
    let inside : w.cur_slot < length w.slots = omega (arith, v.size, v.cur) in
    let head : get_or w.slots w.cur_slot none ≡ first xs = v.heads w.cur_slot v.cur in
    rw (load-ok w.slots w.cur_slot none inside, head)
      (Returns-bind (Swept w [] [] xs) (Turned w lists) (tick_loop fuel w [] (first xs)) _
        (front-Swept fuel w [] xs inside head (v.chains w.cur_slot v.cur) f safe enough)
        (λ r s. record {
          wheel = swept-IsWheel w lists v [] r s;
          next = ap (λ c. (c + 1) % slot_count) s.cur;
          called = s.called;
          freed = s.freed;
          same = s.same;
        }))
