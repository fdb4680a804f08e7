-- ===== src/Tests/TimeHeap.antt =====
-- Tests of TimeHeap.
use you_shuang.Base.{
  get_or, ◌*◌, ◌≢◌, zero, suc, ◌<◌, ◌≡◌, List, [], ◌∷◌, Option, none, some, arith, refl, Returns, ℕ,
  fault,
}
use you_shuang.TimeHeap.{expire_of, Timer, Memory, TimeHeap, add_timer, pop_timer}
use you_shuang.TimeHeap.Order.{at, key, expire_in, IsLive, IsHeapFrom, IsApart}
use you_shuang.TimeHeap.Down.{DownInv}
use you_shuang.TimeHeap.Add.{IsTimeHeap, Added, add_timer-Added}
use you_shuang.TimeHeap.Resize.{add_timer-full}
use you_shuang.TimeHeap.{from_array, tick}
use you_shuang.TimeHeap.Tick.{Ticked, tick-Ticked}
use you_shuang.TimeHeap.Build.{Built, from_array-Built}
use you_shuang.TimeHeap.Pop.{Popped, pop_timer-Popped}

abbrev timer_at : ℕ → Timer
timer_at p = record { expire = 10 * p; cb_func = some p; user_data = p }

-- A timer stands at each address; the one at `p` expires at `10 * p`.
abbrev memory : Memory
memory p = some (timer_at p)

abbrev two_timers : TimeHeap
two_timers = record {
  array = some 1 ∷ some 3 ∷ none ∷ [];
  capacity = 3;
  cur_size = 2;
  memory = memory;
}

abbrev full_heap : TimeHeap
full_heap = record { array = some 1 ∷ some 3 ∷ []; capacity = 2; cur_size = 2; memory = memory }

-- Both heaps begin with the same entries.
module _ (rest : List (Option ℕ)) where
  abbrev entries : List (Option ℕ)
  entries = some 1 ∷ some 3 ∷ rest

  entries-IsLive : (i : ℕ) → i < 2 → IsLive memory (at entries i)
  unfolding key expire_in expire_of get_or
  entries-IsLive zero h = refl
  entries-IsLive (suc zero) h = refl
  entries-IsLive (suc (suc i)) h = absurd (omega arith)

  entries-ordered : IsHeapFrom 0 memory 2 entries
  unfolding key expire_in expire_of get_or
  entries-ordered zero p q r = absurd (omega arith)
  entries-ordered (suc zero) p q r = omega arith
  entries-ordered (suc (suc i)) p q r = absurd (omega arith)

  entries-IsApart : IsApart 2 entries
  unfolding get_or
  entries-IsApart zero zero p q e = refl
  entries-IsApart zero (suc zero) p q e = cc
  entries-IsApart (suc zero) zero p q e = cc
  entries-IsApart (suc zero) (suc zero) p q e = refl
  entries-IsApart (suc (suc i)) j p q e = absurd (omega arith)
  entries-IsApart i (suc (suc j)) p q e = absurd (omega arith)

two_timers-IsTimeHeap : IsTimeHeap two_timers
two_timers-IsTimeHeap = record {
  size = refl;
  fits = omega arith;
  live = entries-IsLive (none ∷ []);
  ordered = entries-ordered (none ∷ []);
  apart = entries-IsApart (none ∷ []);
}

full_heap-IsTimeHeap : IsTimeHeap full_heap
full_heap-IsTimeHeap = record {
  size = refl;
  fits = omega arith;
  live = entries-IsLive [];
  ordered = entries-ordered [];
  apart = entries-IsApart [];
}

two_is_new : (i : ℕ) → i < 2 → at two_timers.array i ≢ some 2
unfolding get_or
two_is_new zero h e = cc
two_is_new (suc zero) h e = cc
two_is_new (suc (suc i)) h e = absurd (omega arith)

add_timer-Added_example : Returns (Added two_timers 2) (add_timer two_timers (some 2))
unfolding key expire_in expire_of
add_timer-Added_example =
    add_timer-Added two_timers 2 two_timers-IsTimeHeap (omega arith) refl two_is_new

add_timer-full_example : add_timer full_heap (some 2) ≡ fault
add_timer-full_example = add_timer-full full_heap 2 full_heap-IsTimeHeap (omega arith)

pop_timer-Popped_example : Returns (Popped two_timers) (pop_timer two_timers)
pop_timer-Popped_example = pop_timer-Popped two_timers two_timers-IsTimeHeap (omega arith)

abbrev late_top : List (Option ℕ)
late_top = some 5 ∷ some 1 ∷ some 3 ∷ []

late_top-IsLive : (i : ℕ) → i < 3 → IsLive memory (at late_top i)
unfolding key expire_in expire_of get_or
late_top-IsLive zero h = refl
late_top-IsLive (suc zero) h = refl
late_top-IsLive (suc (suc zero)) h = refl
late_top-IsLive (suc (suc (suc i))) h = absurd (omega arith)

late_top-DownInv : DownInv 0 memory 3 late_top 0
late_top-DownInv = record {
  inside = omega arith;
  fits = omega arith;
  live = late_top-IsLive;
  edges = λ c p q r t. absurd (omega arith);
  bridged = λ c p q r t u. absurd (omega arith);
}

tick-Ticked_example : Returns (Ticked 20 [] two_timers) (tick two_timers 20)
tick-Ticked_example = tick-Ticked two_timers 20 two_timers-IsTimeHeap (omega arith)

from_array-Built_example : Returns (Built memory (entries []) 3) (from_array memory (entries []) 3)
from_array-Built_example =
    from_array-Built memory (entries []) 3 (entries-IsLive []) (entries-IsApart []) (omega arith)
