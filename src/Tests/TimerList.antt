-- ===== src/Tests/TimerList.antt =====
-- Tests of TimerList.
use you_shuang.Base.{ℕ, ◌*◌, ◌≡◌, [], ◌∷◌, none, some, arith, refl, Returns, ◌==◌, if◌then◌else◌}
use you_shuang.TimerList.{Task, Memory, TimerList, add_timer, adjust_timer, del_timer, tick}
use you_shuang.TimerList.Lists.{Timers, IsList, insert}
use you_shuang.Nodes.Chain.{node, SameOutside}
use you_shuang.TimerList.Sorted.{
  Represents, add_timer-Represents, adjust_timer-Represents, del_timer-Represents,
}
use you_shuang.TimerList.Tick.{Swept, tick-Swept}

abbrev task : ℕ → Task
task p = record { expire = 10 * p; cb_func = some p; user_data = p }

-- The timers at 1, 3 and 5 are in the list; the one at 4 is new.
abbrev memory : Memory
memory p =
    if p == 1
    then some (node (task 1) none (some 3))
    else if p == 3
    then some (node (task 3) (some 1) (some 5))
    else if p == 5
    then some (node (task 5) (some 3) none)
    else if p == 4
    then some (node (task 4) none none)
    else none

abbrev timers : Timers
timers = (1, task 1) ∷ (3, task 3) ∷ (5, task 5) ∷ []

abbrev three : TimerList
three = record { head = some 1; tail = some 5; memory = memory }

three-IsList : IsList three timers
three-IsList = record {
  head_is = refl;
  tail_is = refl;
  chain = (refl, refl, (refl, refl, (refl, refl, tt)));
}

three-Represents : Represents three timers
three-Represents = record { list = three-IsList; sorted = omega arith }

add_timer-Represents_example :
    Returns
      (λ l'.
        Represents l' (insert (4, task 4) timers)
        × SameOutside ((4, task 4) ∷ timers) memory l'.memory)
      (add_timer 4 three (some 4))
add_timer-Represents_example =
    add_timer-Represents 4 three 4 (task 4) timers three-Represents refl refl (omega arith)

-- The timer at 3 now expires at 70.
abbrev put_off : Task
put_off = record (task 3) { expire = 70 }

abbrev changed : TimerList
changed = record three {
  memory = λ p. if p == 3 then some (node put_off (some 1) (some 5)) else memory p;
}

changed-IsList : IsList changed ((1, task 1) ∷ (3, put_off) ∷ (5, task 5) ∷ [])
changed-IsList = record {
  head_is = refl;
  tail_is = refl;
  chain = (refl, refl, (refl, refl, (refl, refl, tt)));
}

adjust_timer-Represents_example :
    Returns
      (λ l'.
        Represents l' (insert (3, put_off) ((1, task 1) ∷ (5, task 5) ∷ []))
        × SameOutside ((1, task 1) ∷ (3, put_off) ∷ (5, task 5) ∷ []) changed.memory l'.memory)
      (adjust_timer 2 changed (some 3))
adjust_timer-Represents_example =
    adjust_timer-Represents 2 changed 3 put_off ((1, task 1) ∷ []) ((5, task 5) ∷ []) changed-IsList
      (omega arith) (omega arith) (omega arith)

del_timer-Represents_example :
    Returns
      (λ l'.
        Represents l' ((1, task 1) ∷ (5, task 5) ∷ [])
        × (l'.memory 3 ≡ none)
        × SameOutside timers memory l'.memory)
      (del_timer three (some 3))
del_timer-Represents_example =
    del_timer-Represents three 3 (task 3) ((1, task 1) ∷ []) ((5, task 5) ∷ []) three-Represents

tick-Swept_example : Returns (Swept 30 memory timers) (tick 4 three 30)
tick-Swept_example =
    tick-Swept 4 30 three timers three-Represents ((1, refl), ((3, refl), ((5, refl), tt)))
      (omega arith)
