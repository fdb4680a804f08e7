-- ===== src/Tests/TimeWheel.antt =====
-- Tests of TimeWheel.
use mathlib.Core.List.{Memᴰ}
use mathlib.Core.List.Memᴰ
use mathlib.Core.Option.{some_inj}
use you_shuang.Base.{
  ℕ, zero, suc, ◌<◌, ◌≡◌, ◌≢◌, true, [], ◌∷◌, Option, none, some, arith, refl, sym, ap, ◌∙◌, fault,
  Returns, length, get_or, replicate, ◌==◌, if◌then◌else◌,
}
use you_shuang.Base.Int.{pos}
use you_shuang.Nodes.Chain.{node, has, first, Chain}
use you_shuang.TimeWheel.{slot_count, TwTask, TimeWheel, Memory, add_timer, tick}
use you_shuang.TimeWheel.Sweep.{Timers, is_safe, is_safe_behind, AllCallable}
use you_shuang.TimeWheel.Wheel.{AllPlaced, IsWheel, Turned, tick-Turned}
use you_shuang.TimeWheel.Dangling.{tick-fault}
use you_shuang.TimeWheel.Rising.{AllRising, IsRising}
use you_shuang.TimeWheel.Fires.{ticks, Fired, ticks-Fired}
use you_shuang.TimeWheel.Only.{IsOnly}
use you_shuang.TimeWheel.Add.{Scheduled, add_timer-Scheduled}

abbrev task : ℕ → ℕ → TwTask
task p r = record { rotation = r; time_slot = 0; cb_func = some p; user_data = some p }

-- Three timers in the first slot, with their rotations.
abbrev memory : ℕ → ℕ → ℕ → Memory
memory r s t p =
    if p == 1
    then some (node (task 1 r) none (some 2))
    else if p == 2
    then some (node (task 2 s) (some 1) (some 3))
    else if p == 3
    then some (node (task 3 t) (some 2) none)
    else none

abbrev timers : ℕ → ℕ → ℕ → Timers
timers r s t = (1, task 1 r) ∷ (2, task 2 s) ∷ (3, task 3 t) ∷ []

abbrev in_first : Timers → ℕ → Timers
in_first xs zero = xs
in_first xs (suc i) = []

abbrev wheel : Memory → Timers → TimeWheel
wheel m xs = record { slots = first xs ∷ replicate 59 none; cur_slot = 0; memory = m }

get_or-replicate : (n i : ℕ) → get_or {A = Option ℕ} (replicate n none) i none ≡ none
unfolding get_or
get_or-replicate zero i = refl
get_or-replicate (suc n) zero = refl
get_or-replicate (suc n) (suc i) = get_or-replicate n i

wheel-IsWheel :
    (m : Memory) (xs : Timers)
    → Chain m none xs
    → AllPlaced 0 xs
    → IsWheel (wheel m xs) (in_first xs)
unfolding get_or
wheel-IsWheel m xs c p = record {
  size = refl;
  cur = omega arith;
  heads = heads;
  chains = λ i h. chains i;
  apart = λ a i j q r g h. apart a i j g h;
  placed = λ i h. placed i;
}
  where
    heads : (i : ℕ) → i < slot_count → get_or (wheel m xs).slots i none ≡ first (in_first xs i)
    heads zero h = refl
    heads (suc i) h = get_or-replicate 59 i

    chains : (i : ℕ) → Chain m none (in_first xs i)
    chains zero = c
    chains (suc i) = tt

    placed : (i : ℕ) → AllPlaced i (in_first xs i)
    placed zero = p
    placed (suc i) = tt

    apart : (a i j : ℕ) → has a (in_first xs i) ≡ true → has a (in_first xs j) ≡ true → i ≡ j
    apart a zero zero g h = refl
    apart a zero (suc j) g h = cc
    apart a (suc i) j g h = cc

three-IsWheel :
    (r s t : ℕ) → IsWheel (wheel (memory r s t) (timers r s t)) (in_first (timers r s t))
three-IsWheel r s t =
    wheel-IsWheel (memory r s t) (timers r s t) (refl, refl, (refl, refl, (refl, refl, tt)))
      (refl, (refl, (refl, tt)))

-- The first expires, the others wait.
tick-Turned_example :
    Returns
      (Turned (wheel (memory 0 1 2) (timers 0 1 2)) (in_first (timers 0 1 2)))
      (tick 4 (wheel (memory 0 1 2) (timers 0 1 2)))
unfolding is_safe is_safe_behind
tick-Turned_example =
    tick-Turned 4 (wheel (memory 0 1 2) (timers 0 1 2)) (in_first (timers 0 1 2))
      (three-IsWheel 0 1 2)
      ((1, refl), (1, refl), ((2, refl), (2, refl), ((3, refl), (3, refl), tt))) refl (omega arith)

-- The second expires behind the first, which waits, and before the third.
tick-fault_example : tick 4 (wheel (memory 1 0 0) (timers 1 0 0)) ≡ fault
unfolding is_safe is_safe_behind
tick-fault_example =
    tick-fault 4 (wheel (memory 1 0 0) (timers 1 0 0)) (in_first (timers 1 0 0))
      (three-IsWheel 1 0 0)
      ((1, refl), (1, refl), ((2, refl), (2, refl), ((3, refl), (3, refl), tt))) refl

add_timer-Scheduled_example :
    Returns
      (Scheduled (wheel (memory 0 1 2) (timers 0 1 2)) (in_first (timers 0 1 2)) 4 150)
      (add_timer 4 (pos 150) (wheel (memory 0 1 2) (timers 0 1 2)))
add_timer-Scheduled_example =
    add_timer-Scheduled 4 150 (wheel (memory 0 1 2) (timers 0 1 2)) (in_first (timers 0 1 2))
      (three-IsWheel 0 1 2) refl

rising : AllRising 4 (in_first (timers 0 1 2))
rising = record { rising = rising_at; callable = callable_at; short = short_at }
  where
    rising_at : (i : ℕ) → i < slot_count → IsRising (in_first (timers 0 1 2) i)
    rising_at zero h = ((omega arith, (omega arith, tt)), ((omega arith, tt), (tt, tt)))
    rising_at (suc i) h = tt

    callable_at : (i : ℕ) → i < slot_count → AllCallable (in_first (timers 0 1 2) i)
    callable_at zero h = ((1, refl), (1, refl), ((2, refl), (2, refl), ((3, refl), (3, refl), tt)))
    callable_at (suc i) h = tt

    short_at : (i : ℕ) → i < slot_count → length (in_first (timers 0 1 2) i) < 4
    short_at zero h = omega arith
    short_at (suc i) h = omega arith

-- The third timer alone has its call.
third-IsOnly : IsOnly (in_first (timers 0 1 2)) 3 (task 3 2) 3 3
third-IsOnly zero b j h (Memᴰ.head e) p q =
    let z : some 1 ≡ some 3 = ap (λ x. x.1.cb_func) (sym e) ∙ p in
    absurd (ground (arith, some_inj.0 z))
third-IsOnly zero b j h (Memᴰ.tail (Memᴰ.head e)) p q =
    let z : some 2 ≡ some 3 = ap (λ x. x.1.cb_func) (sym e) ∙ p in
    absurd (ground (arith, some_inj.0 z))
third-IsOnly zero b j h (Memᴰ.tail (Memᴰ.tail (Memᴰ.head e))) p q = e
third-IsOnly zero b j h (Memᴰ.tail (Memᴰ.tail (Memᴰ.tail m))) p q = absurd (Memᴰ.not-nil m)
third-IsOnly (suc i) b j h m p q = absurd (Memᴰ.not-nil m)

-- The third timer is called by the tick after 120, and not before.
ticks-Fired_example :
    Returns
      (λ r. (r.0.memory 3 ≢ none) × (¬ Memᴰ (3, 3) r.1) × Returns (Fired 4 3 3 3) (ticks 4 21 r.0))
      (ticks 4 100 (wheel (memory 0 1 2) (timers 0 1 2)))
ticks-Fired_example =
    ticks-Fired 4 100 (wheel (memory 0 1 2) (timers 0 1 2)) (in_first (timers 0 1 2)) 0 3 (task 3 2)
      3 3 (three-IsWheel 0 1 2) rising (omega arith) (Memᴰ.tail (Memᴰ.tail (Memᴰ.head refl))) refl
      refl third-IsOnly (omega arith)
