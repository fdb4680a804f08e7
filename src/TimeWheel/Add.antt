-- ===== src/TimeWheel/Add.antt =====
-- add_timer of 11-5 time_wheel_timer.h.
use mathlib.Core.Path.{subst}
use you_shuang.Base.{
  ℕ, ◌+◌, ◌-◌, ◌*◌, ◌/◌, ◌%◌, ◌<◌, ◌≤◌, ◌⊎◌, ◌≡◌, refl, ap, ◌∙◌, true, false, inl, inr, [], ◌∷◌,
  Option, none, some, arith, ◌==◌, Bool-cases, ltb, if◌then◌else◌, update, length, get_or, load-ok,
  set, get_or-set, length-set, store-ok, Returns, Returns-bind,
}
use you_shuang.Base.Int.{pos}
use you_shuang.Nodes.Chain.{
  node, has, first, Chain, SameOutside, Chain-frame, Chain-outside, set_next-node, set_prev-node,
}
use you_shuang.TimeWheel.{
  slot_count, slot_interval, TwTask, TimeWheel, Memory, new_task, ticks_for, add_timer,
  insert_front,
}
use you_shuang.TimeWheel.Sweep.{Timers}
use you_shuang.TimeWheel.Wheel.{IsWheel}

-- The ticks before the one that calls a timer with `rotation` turns in the slot `ts`: the wheel
-- comes to its slot, and then goes round as often.
abbrev pub ticks_left : TimeWheel → ℕ → ℕ → ℕ
ticks_left w ts rotation = (ts + slot_count - w.cur_slot) % slot_count + rotation * slot_count

abbrev pub added : (ℕ → Timers) → ℕ → ℕ × TwTask → ℕ → Timers
added lists ts c i = if ts == i then c ∷ lists i else lists i

-- The ticks of a time-out: one for less than a slot's time, and else as many as it has whole slots.
abbrev pub IsTicks : ℕ → ℕ → Type 0
IsTicks timeout n =
    ((timeout < slot_interval) × (n ≡ 1))
    ⊎ ((slot_interval ≤ timeout)
        × (n * slot_interval ≤ timeout)
        × (timeout < n * slot_interval + slot_interval))

pub record Scheduled (w : TimeWheel) (lists : ℕ → Timers) (timer timeout : ℕ)
    (r : TimeWheel × Option ℕ) : Type 0 where
  pub slot : ℕ
  pub rotation : ℕ
  pub on_wheel : slot < slot_count
  pub wheel : IsWheel r.0 (added lists slot (timer, new_task rotation slot))
  pub in_time : IsTicks timeout (ticks_left w slot rotation)
  pub address : r.1 ≡ some timer
  pub same_slot : r.0.cur_slot ≡ w.cur_slot

ticks_for-IsTicks : (timeout : ℕ) → IsTicks timeout (ticks_for timeout)
ticks_for-IsTicks timeout = elim (Bool-cases (ltb timeout slot_interval)) [
  | inl less ↦ inl (ground arith, rw less refl)
  | inr more ↦ rw more (inr (ground arith, omega arith, omega arith))
]

fresh-has :
    (m : Memory) (p : Option ℕ) (a : ℕ) (xs : Timers) → Chain m p xs → m a ≡ none → has a xs ≡ false
fresh-has m p a [] c e = refl
fresh-has m p a ((b, k) ∷ xs) c e = ground (arith, c.0, fresh-has m (some b) a xs c.2 e)

record Inserted (w : TimeWheel) (timer ts : ℕ) (k : TwTask) (xs : Timers) (r : TimeWheel)
    : Type 0 where
  wheel :
      r ≡ record { slots = set w.slots ts (some timer); cur_slot = w.cur_slot; memory = r.memory }
  chain : Chain r.memory none ((timer, k) ∷ xs)
  same : SameOutside ((timer, k) ∷ xs) w.memory r.memory

insert_front-Inserted :
    (w : TimeWheel) (timer ts : ℕ) (k : TwTask) (xs : Timers)
    → ts < length w.slots
    → Chain w.memory none xs
    → w.memory timer ≡ none
    → Returns (Inserted w timer ts k xs) (
        insert_front
          (record w { memory = update w.memory timer (some (node k none none)) })
          timer
          ts
          (first xs))
unfolding insert_front
insert_front-Inserted w timer ts k [] inside c new =
    rw (store-ok w.slots ts (some timer) inside)
      (record { wheel = refl; chain = (ground arith, refl, tt); same = λ a h. ground arith })
insert_front-Inserted w timer ts k ((b, kb) ∷ vs) inside c new =
    let apart : has timer ((b, kb) ∷ vs) ≡ false =
      fresh-has w.memory none timer ((b, kb) ∷ vs) c new in
    let m = update w.memory timer (some (node k none none)) in
    let m1 = update m timer (some (node k none (some b))) in
    rw
      (
        set_next-node m timer k none none (ground arith) (some b),
        set_prev-node m1 b kb none (first vs) (ground (arith, c.0)) (some timer),
        store-ok w.slots ts (some timer) inside,
      )
      (record {
        wheel = refl;
        chain = (
          ground arith,
          apart,
          (ground arith, c.1, Chain-frame w.memory _ (some b) vs c.2 (λ a h. ground arith)),
        );
        same = λ a h. ground arith;
      })

module _ (w : TimeWheel) (lists : ℕ → Timers) (v : IsWheel w lists) (timer ts : ℕ) (k : TwTask)
    (on : ts < slot_count) (here : k.time_slot ≡ ts) (new : w.memory timer ≡ none) where
  inserted-IsWheel :
      (r : TimeWheel) → Inserted w timer ts k (lists ts) r → IsWheel r (added lists ts (timer, k))
  inserted-IsWheel r s =
      let out : (i : ℕ) → i < slot_count → has timer (lists i) ≡ false =
        λ i h. fresh-has w.memory none timer (lists i) (v.chains i h) new in
      let not_new : (i : ℕ)
          → i < slot_count
          → (a : ℕ) → has a (lists i) ≡ true
          → (timer == a) ≡ false =
        λ i h a g. elim (Bool-cases (timer == a)) [
          | inl e ↦
              let same : timer ≡ a = ground arith in
              let z : has a (lists i) ≡ false =
                subst (λ x. has x (lists i) ≡ false) same (out i h) in
              cc
          | inr e ↦ e
        ] in
      let slots : r.slots ≡ set w.slots ts (some timer) = ap (λ x. x.slots) s.wheel in
      record {
        size = ap length slots ∙ length-set w.slots ts (some timer) ∙ v.size;
        cur = omega (arith, ap (λ x. x.cur_slot) s.wheel, v.cur);
        heads = λ i h.
            ap (λ x. get_or x i none) slots
            ∙ ground (arith, get_or-set w.slots ts i (some timer) none, v.size, v.heads i h);
        chains = λ i h. elim (Bool-cases (ts == i)) [
          | inl e ↦
              let at_ts : ts ≡ i = ground arith in
              rw e (subst (λ x. Chain r.memory none ((timer, k) ∷ lists x)) at_ts s.chain)
          | inr e ↦ rw e (
              Chain-outside w.memory r.memory none (lists i) ((timer, k) ∷ lists ts) (v.chains i h)
                s.same
                (λ a g. elim (Bool-cases (has a (lists ts))) [
                  | inl there ↦ let z : i ≡ ts = v.apart a i ts h on g there in ground arith
                  | inr f ↦ ground (arith, f, not_new i h a g)
                ]))
        ];
        apart = λ a i j p q g h. ground (arith, v.apart a i j p q, not_new i p a, not_new j q a);
        placed = λ i h. elim (Bool-cases (ts == i)) [
          | inl e ↦ rw e (ground arith, v.placed i h)
          | inr e ↦ rw e (v.placed i h)
        ];
      }

-- add_timer on a wheel whose timers are known puts a new timer, at the address that `new` gives, in
-- front of the timers of a slot, such that the ticks before the one that will call it are the
-- whole slots in the time-out, or 1 where there is none. No other timer is moved.
pub add_timer-Scheduled :
    (timer timeout : ℕ) (w : TimeWheel) (lists : ℕ → Timers)
    → IsWheel w lists
    → w.memory timer ≡ none
    → Returns (Scheduled w lists timer timeout) (add_timer timer (pos timeout) w)
unfolding add_timer
add_timer-Scheduled timer timeout w lists v new =
    let ticks = ticks_for timeout in
    let ts = (w.cur_slot + ticks % slot_count) % slot_count in
    let k = new_task (ticks / slot_count) ts in
    let on : ts < slot_count = omega arith in
    let w1 = record w { memory = update w.memory timer (some (node k none none)) } in
    rw (load-ok w.slots ts none (omega (arith, v.size)), v.heads ts on)
      (Returns-bind (Inserted w timer ts k (lists ts)) (Scheduled w lists timer timeout)
        (insert_front w1 timer ts (first (lists ts))) _
        (insert_front-Inserted w timer ts k (lists ts) (omega (arith, v.size)) (v.chains ts on) new)
        (λ r s. record {
          slot = ts;
          rotation = ticks / slot_count;
          on_wheel = on;
          wheel = inserted-IsWheel w lists v timer ts k on refl new r s;
          in_time = subst (IsTicks timeout) (omega (arith, v.cur)) (ticks_for-IsTicks timeout);
          address = refl;
          same_slot = ap (λ x. x.cur_slot) s.wheel;
        }))
