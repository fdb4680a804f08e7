-- ===== src/Tests/NonactiveConnect.antt =====
-- Tests of NonactiveConnect.
use mathlib.Core.Option.{some-ne-none}
use you_shuang.Base.{sym, ℕ, ◌≡◌, false, List, [], ◌∷◌, Option, some, none, arith, refl}
use you_shuang.NonactiveConnect.{Opened, start, sigalrm, Event, on_listenfd, on_pipe, main_loop}
use you_shuang.NonactiveConnect.Known.{Known, after_rounds, Undone, Matches}
use you_shuang.NonactiveConnect.Dangling.{main_loop-Matches}

abbrev opened : Opened
opened = record { epollfd = 6; listenfd = 3; pipefd = (4, 5) }

abbrev nothing : Known
nothing = record { accepted = []; head = none; timeout = false; stop = false }

start-Undone : Undone nothing start
start-Undone = record {
  deleted = λ p. refl;
  head_is = refl;
  timeout_is = refl;
  stop_is = refl;
  clients = record {
    timers = λ fd d e. absurd (some-ne-none d (sym e));
    here = λ fd e. absurd (ground (arith, e));
    gone = λ fd e. refl;
  };
  quiet = tt;
}

-- Two connections, with one address for their timers, and then the alarm, where the first timer is read.
abbrev two_then_alarm : List (Option (List Event × ℕ))
two_then_alarm =
    some (on_listenfd (some 7) 100 1000 ∷ [], 1000)
    ∷ some (on_listenfd (some 8) 100 1001 ∷ [], 1001)
    ∷ some (on_pipe (sigalrm ∷ []) ∷ [], 1005)
    ∷ []

alarm_undefined : after_rounds two_then_alarm nothing ≡ none
alarm_undefined = refl

main_loop-Matches_example :
    Matches (after_rounds two_then_alarm nothing) (main_loop 1 opened two_then_alarm start)
main_loop-Matches_example =
    main_loop-Matches 1 opened two_then_alarm nothing start start-Undone (omega arith)
