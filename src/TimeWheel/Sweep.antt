-- ===== src/TimeWheel/Sweep.antt =====
-- What a tick of the wheel of 11-5 time_wheel_timer.h means for the timers of its slot.
use you_shuang.Base.{
  ℕ, ◌-◌, ◌≡◌, Bool, true, false, [], ◌∷◌, Option, none, some, arith, ltb, if◌then◌else◌,
}
use you_shuang.Nodes.Chain.{Nodes, has}
use you_shuang.TimeWheel.{TwTask, Calls}

abbrev pub Timers : Type 0
Timers = Nodes TwTask

abbrev pub waits : TwTask → Bool
waits k = ltb 0 k.rotation

abbrev pub turned : TwTask → TwTask
turned k = record k { rotation = k.rotation - 1 }

-- The timers that wait for another turn, one turn less.
unfoldable pub kept : Timers → Timers
kept [] = []
kept ((a, k) ∷ xs) = if waits k then (a, turned k) ∷ kept xs else kept xs

-- The others, which have expired.
unfoldable pub expired : Timers → Timers
expired [] = []
expired ((a, k) ∷ xs) = if waits k then expired xs else (a, k) ∷ expired xs

-- Of the timers behind one that waits, none but the last has expired.
unfoldable pub is_safe_behind : Timers → Bool
is_safe_behind [] = true
is_safe_behind ((a, k) ∷ []) = true
is_safe_behind ((a, k) ∷ c ∷ xs) = if waits k then is_safe_behind (c ∷ xs) else false

-- Those that have expired stand in front of all that wait, or are the last.
unfoldable pub is_safe : Timers → Bool
is_safe [] = true
is_safe ((a, k) ∷ xs) = if waits k then is_safe_behind xs else is_safe xs

-- The call of a timer; an unset callback does not occur.
abbrev value : Option ℕ → ℕ
value none = 0
value (some n) = n

unfoldable pub calls : Timers → Calls
calls [] = []
calls ((a, k) ∷ xs) = (value k.cb_func, value k.user_data) ∷ calls xs

abbrev pub AllCallable : Timers → Type 0
AllCallable [] = Unit {0}
AllCallable ((a, k) ∷ xs) =
    ((f : ℕ) × (k.cb_func ≡ some f)) × ((d : ℕ) × (k.user_data ≡ some d)) × AllCallable xs

pub has-kept : (a : ℕ) (xs : Timers) → has a xs ≡ false → has a (kept xs) ≡ false
unfolding kept
has-kept a [] h = h
has-kept a ((b, k) ∷ xs) h = ground (arith, has-kept a xs)

pub has-expired : (a : ℕ) (xs : Timers) → has a xs ≡ false → has a (expired xs) ≡ false
unfolding expired
has-expired a [] h = h
has-expired a ((b, k) ∷ xs) h = ground (arith, has-expired a xs)
