-- ===== src/TimeWheel/Fires.antt =====
-- When the wheel of 11-5 time_wheel_timer.h calls a timer.
use mathlib.Core.Path.{subst}
use mathlib.Core.List.{Memᴰ}
use mathlib.Core.List.Memᴰ
use you_shuang.Base.{
  ℕ, zero, suc, ◌+◌, ◌-◌, ◌*◌, ◌%◌, ◌≤◌, ◌<◌, ◌≡◌, ◌≢◌, refl, true, false, inl, inr, [], ◌++◌, none,
  some, arith, ◌==◌, Bool-cases, Run, ok, ◌>>=◌, Returns, Returns-map, Returns-bind,
}
use you_shuang.TimeWheel.{slot_count, TwTask, TimeWheel, Calls, tick}
use you_shuang.TimeWheel.Sweep.{Timers, waits, turned, expired}
use you_shuang.TimeWheel.Wheel.{IsWheel, after, Turned, tick-Turned}
use you_shuang.TimeWheel.Add.{ticks_left}
use you_shuang.TimeWheel.Rising.{AllRising, IsRising-is_safe, after-AllRising}
use you_shuang.TimeWheel.Only.{IsOnly, turned-IsOnly, same-IsOnly, tick-quiet}
use you_shuang.TimeWheel.Members.{kept-Memᴰ, has-Memᴰ, expired-Memᴰ, calls-Memᴰ, node_of-Memᴰ}

-- One tick after another.
unfoldable pub ticks : ℕ → ℕ → TimeWheel → Run (TimeWheel × Calls)
ticks fuel zero w = ok (w, [])
ticks fuel (suc n) w = do r ← tick fuel w; s ← ticks fuel n r.0; ok (s.0, r.1 ++ s.1)

-- The timer at `a`, with the call `f` of `d`, is called by the tick after `n` more.
record Waiting (fuel : ℕ) (a f d n : ℕ) (w : TimeWheel) : Type 0 where
  lists : ℕ → Timers
  wheel : IsWheel w lists
  good : AllRising fuel lists
  slot : ℕ
  task : TwTask
  on : slot < slot_count
  there : Memᴰ (a, task) (lists slot)
  fun : task.cb_func ≡ some f
  arg : task.user_data ≡ some d
  left : ticks_left w slot task.rotation ≡ n
  only : IsOnly lists a task f d

-- A tick brings the wheel one slot on.
less_here :
    (c c' s r n : ℕ)
    → c < slot_count
    → c ≡ s
    → c' ≡ (c + 1) % slot_count
    → 0 < r
    → (s + slot_count - c) % slot_count + r * slot_count ≡ suc n
    → (s + slot_count - c') % slot_count + (r - 1) * slot_count ≡ n
less_here c c' s r n h e e' p q = omega arith

less_away :
    (c c' s r n : ℕ)
    → c < slot_count
    → s < slot_count
    → c ≢ s
    → c' ≡ (c + 1) % slot_count
    → (s + slot_count - c) % slot_count + r * slot_count ≡ suc n
    → (s + slot_count - c') % slot_count + r * slot_count ≡ n
less_away c c' s r n h g e e' q = omega arith

waits_here :
    (c s r n : ℕ) → c ≡ s → (s + slot_count - c) % slot_count + r * slot_count ≡ suc n → 0 < r
waits_here c s r n e q = omega arith

none_left :
    (c s r : ℕ)
    → c < slot_count
    → s < slot_count
    → (s + slot_count - c) % slot_count + r * slot_count ≡ 0
    → (s ≡ c) × (r ≡ 0)
none_left c s r h g q = (omega arith, omega arith)

module _ (fuel a f d : ℕ) where
  next-Waiting :
      (n : ℕ) (w : TimeWheel) (s : Waiting fuel a f d (suc n) w) (r : TimeWheel × Calls)
      → Turned w s.lists r
      → Waiting fuel a f d n r.0
  next-Waiting n w s r t =
      let c = w.cur_slot in
      let on_c = s.wheel.cur in
      elim (Bool-cases (c == s.slot)) [
        | inl e ↦
            let here : c ≡ s.slot = ground arith in
            let more : waits s.task ≡ true =
              ground (arith, waits_here c s.slot s.task.rotation n here s.left) in
            record {
              lists = after w s.lists;
              wheel = t.wheel;
              good = after-AllRising fuel w s.lists s.good;
              slot = s.slot;
              task = turned s.task;
              on = s.on;
              there = rw e (kept-Memᴰ a s.task (s.lists s.slot) more s.there);
              fun = s.fun;
              arg = s.arg;
              left =
                  less_here c r.0.cur_slot s.slot s.task.rotation n on_c here t.next
                    (waits_here c s.slot s.task.rotation n here s.left) s.left;
              only = turned-IsOnly w s.lists s.wheel s.slot a s.task f d s.on s.there s.only here;
            }
        | inr e ↦
            let away : c ≢ s.slot = ground arith in
            record {
              lists = after w s.lists;
              wheel = t.wheel;
              good = after-AllRising fuel w s.lists s.good;
              slot = s.slot;
              task = s.task;
              on = s.on;
              there = rw e s.there;
              fun = s.fun;
              arg = s.arg;
              left = less_away c r.0.cur_slot s.slot s.task.rotation n on_c s.on away t.next s.left;
              only = same-IsOnly w s.lists s.wheel s.slot a s.task f d s.on s.there s.only away;
            }
      ]

  tick-Waiting :
      (n : ℕ) (w : TimeWheel)
      → Waiting fuel a f d (suc n) w
      → Returns (λ r. Waiting fuel a f d n r.0 × (¬ Memᴰ (f, d) r.1)) (tick fuel w)
  tick-Waiting n w s =
      let c = w.cur_slot in
      let on_c = s.wheel.cur in
      Returns-map (Turned w s.lists) (λ r. Waiting fuel a f d n r.0 × (¬ Memᴰ (f, d) r.1))
        (tick fuel w)
        (tick-Turned fuel w s.lists s.wheel (s.good.callable c on_c)
          (IsRising-is_safe (s.lists c) (s.good.rising c on_c)) (s.good.short c on_c))
        (λ r t. (
          next-Waiting n w s r t,
          tick-quiet w s.lists s.wheel s.slot a s.task f d s.on s.there s.only r t
              (s.good.callable c on_c)
              (λ here. ground (arith, waits_here c s.slot s.task.rotation n here s.left)),
        ))

  ticks-Waiting :
      (m j n : ℕ) (w : TimeWheel)
      → m + j ≡ n
      → Waiting fuel a f d n w
      → Returns (λ r. Waiting fuel a f d j r.0 × (¬ Memᴰ (f, d) r.1)) (ticks fuel m w)
  unfolding ticks
  ticks-Waiting zero j n w h s =
      let e : n ≡ j = omega arith in (subst (λ x. Waiting fuel a f d x w) e s, λ m. Memᴰ.not-nil m)
  ticks-Waiting (suc m) j zero w h s = absurd (omega arith)
  ticks-Waiting (suc m) j (suc n) w h s =
      let Q : TimeWheel × Calls → Type 0 = λ r. Waiting fuel a f d j r.0 × (¬ Memᴰ (f, d) r.1) in
      Returns-bind (λ r. Waiting fuel a f d n r.0 × (¬ Memᴰ (f, d) r.1)) Q (tick fuel w) _
        (tick-Waiting n w s)
        (λ r t.
          Returns-bind Q Q (ticks fuel m r.0) _ (ticks-Waiting m j n r.0 (omega arith) t.0)
            (λ x y. (y.0, λ z. elim (Memᴰ.append_cases r.1 z) [ inl u ↦ t.1 u | inr u ↦ y.1 u ])))

  -- The timer has been called, and is deleted.
  abbrev pub Fired : TimeWheel × Calls → Type 0
  Fired r = Memᴰ (f, d) r.1 × (r.0.memory a ≡ none)

  tick-Fired : (w : TimeWheel) → Waiting fuel a f d 0 w → Returns Fired (tick fuel w)
  tick-Fired w s =
      let c = w.cur_slot in
      let on_c = s.wheel.cur in
      let (here, zero_turns) = none_left c s.slot s.task.rotation on_c s.on s.left in
      let still : waits s.task ≡ false = ground (arith, zero_turns) in
      let m : Memᴰ (a, s.task) (expired (s.lists c)) =
        expired-Memᴰ a s.task (s.lists c) still
          (subst (λ i. Memᴰ (a, s.task) (s.lists i)) here s.there) in
      Returns-map (Turned w s.lists) Fired (tick fuel w)
        (tick-Turned fuel w s.lists s.wheel (s.good.callable c on_c)
          (IsRising-is_safe (s.lists c) (s.good.rising c on_c)) (s.good.short c on_c))
        (λ r t. (
          rw t.called (calls-Memᴰ a s.task f d (expired (s.lists c)) s.fun s.arg m),
          t.freed a (has-Memᴰ a s.task (expired (s.lists c)) m),
        ))

  rest-Fired :
      (n : ℕ) (w : TimeWheel) → Waiting fuel a f d n w → Returns Fired (ticks fuel (suc n) w)
  unfolding ticks
  rest-Fired zero w s =
      Returns-bind Fired Fired (tick fuel w) _ (tick-Fired w s)
        (λ r t. (Memᴰ.append_left [] t.0, t.1))
  rest-Fired (suc n) w s =
      Returns-bind (λ r. Waiting fuel a f d n r.0 × (¬ Memᴰ (f, d) r.1)) Fired (tick fuel w) _
        (tick-Waiting n w s)
        (λ r t.
          Returns-bind Fired Fired (ticks fuel (suc n) r.0) _ (rest-Fired n r.0 t.0)
            (λ x y. (Memᴰ.append_right r.1 y.0, y.1)))

  there-Waiting : (n : ℕ) (w : TimeWheel) → Waiting fuel a f d n w → w.memory a ≢ none
  there-Waiting n w s =
      node_of-Memᴰ w.memory none a s.task (s.lists s.slot) (s.wheel.chains s.slot s.on) s.there

-- On a wheel where all timers have callbacks, every slot has fewer timers than the fuel, and in no
-- slot a timer has less turns to wait than one in front of it, a timer is there for as many ticks as
-- are left to it by its slot and its turns, and none of these ticks makes its call, where no other
-- timer has the same call; the tick after them calls it and deletes it. None of the ticks fails.
pub ticks-Fired :
    (fuel m : ℕ) (w : TimeWheel) (lists : ℕ → Timers) (slot a : ℕ) (k : TwTask) (f d : ℕ)
    → IsWheel w lists
    → AllRising fuel lists
    → slot < slot_count
    → Memᴰ (a, k) (lists slot)
    → k.cb_func ≡ some f
    → k.user_data ≡ some d
    → IsOnly lists a k f d
    → m ≤ ticks_left w slot k.rotation
    → Returns
        (λ r.
          (r.0.memory a ≢ none)
          × (¬ Memᴰ (f, d) r.1)
          × Returns (Fired fuel a f d) (ticks fuel (suc (ticks_left w slot k.rotation - m)) r.0))
        (ticks fuel m w)
ticks-Fired fuel m w lists slot a k f d v g on there fun arg only h =
    let n = ticks_left w slot k.rotation in
    Returns-map (λ r. Waiting fuel a f d (n - m) r.0 × (¬ Memᴰ (f, d) r.1)) _ (ticks fuel m w)
      (ticks-Waiting fuel a f d m (n - m) n w (omega arith) (record {
        lists = lists;
        wheel = v;
        good = g;
        slot = slot;
        task = k;
        on = on;
        there = there;
        fun = fun;
        arg = arg;
        left = refl;
        only = only;
      }))
      (λ r s.
        (there-Waiting fuel a f d (n - m) r.0 s.0, s.1, rest-Fired fuel a f d (n - m) r.0 s.0))
