-- ===== src/Tests/ProcessPool.antt =====
-- Tests of ProcessPool.
use you_shuang.Base.{
  ℕ, ◌<◌, ◌++◌, List, ◌≡◌, [], ◌∷◌, none, some, true, false, arith, refl, Returns,
}
use you_shuang.ProcessPool.{
  Pool, sigchld, events, on_listenfd, on_sig_pipe, dispatch, on_signal, run_loop,
}
use you_shuang.ProcessPool.Create.{Created, in_child, processpool}
use you_shuang.ProcessPool.Create.Roles.{in_parents, Joined, processpool-Joined}
use you_shuang.ProcessPool.Dispatch.{at, Dispatched, dispatch-Dispatched}
use mathlib.Core.Logic.{◌↔◌}
use you_shuang.ProcessPool.{is_alive}
use you_shuang.ProcessPool.Signals.{Reaped, sigchld-Reaped}
use you_shuang.ProcessPool.Loop.{IsPool, run_loop-IsPool}

-- Three children; that at 1 has ended.
abbrev three : Pool
three = record {
  sub_process =
      record { pid = some 10; pipefd = (5, 15) }
      ∷ record { pid = none; pipefd = (6, 16) }
      ∷ record { pid = some 12; pipefd = (7, 17) }
      ∷ [];
  sub_process_counter = 1;
  stop = false;
  acts = [];
}

three-IsPool : IsPool 3 three
three-IsPool = record { size = refl; counter_lt = omega arith }

dispatch-Dispatched_example : Returns (Dispatched three) (dispatch three)
dispatch-Dispatched_example = dispatch-Dispatched three (omega arith)

run_loop-IsPool_example :
    Returns
      (IsPool 3)
      (run_loop (events (on_listenfd ∷ on_sig_pipe (sigchld (10 ∷ 12 ∷ []) ∷ []) ∷ []) ∷ []) three)
run_loop-IsPool_example =
    run_loop-IsPool 3 (events (on_listenfd ∷ on_sig_pipe (sigchld (10 ∷ 12 ∷ []) ∷ []) ∷ []) ∷ [])
      three three-IsPool

sigchld-Reaped_example :
    Reaped (10 ∷ []) three (on_signal (sigchld (10 ∷ [])) three)
    × (((on_signal (sigchld (10 ∷ [])) three).stop ≡ true) ↔ (
        (k : ℕ)
        → k < 3
        → is_alive (at (on_signal (sigchld (10 ∷ [])) three).sub_process k) ≡ false))
sigchld-Reaped_example = sigchld-Reaped (10 ∷ []) three

-- The second of three children.
abbrev first_child : List ((ℕ × ℕ) × ℕ)
first_child = ((5, 15), 10) ∷ []

abbrev third_child : List ((ℕ × ℕ) × ℕ)
third_child = ((7, 17), 12) ∷ []

processpool-Joined_example :
    (p : Created) × (c : Created) × (processpool
        (0, 0)
        (in_parents (first_child ++ (((6, 16), 11) ∷ third_child)))
      ≡ some p)
    × (processpool
          (0, 0)
          (in_parents first_child ++ ((some (6, 16), in_child) ∷ in_parents third_child))
        ≡ some c)
    × Joined first_child 3 (6, 16) 11 p c
processpool-Joined_example =
    processpool-Joined (0, 0) first_child third_child (6, 16) 11 (omega arith)
