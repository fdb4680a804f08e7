-- ===== src/Tests/CgiServer.antt =====
-- Tests of CgiServer, and of a child of the pool with it.
use mathlib.Core.Option.{some-ne-none}
use you_shuang.Base.{
  ℕ, ◌≡◌, true, List, [], ◌∷◌, map, Option, some, none, arith, refl, sym, ap, Returns, Unless, Run,
  ok, fault,
}
use you_shuang.Base.Bytes.{bytes}
use you_shuang.CgiServer.{CgiConn, in_child, Given, init, process}
use you_shuang.CgiServer.Content.{IsReading, Outcome, concat, process-Outcome}
use you_shuang.CgiServer.Safety.{cgi_conn, cgi_conn-IsTaskClass}
use you_shuang.ProcessPool.Child.{
  told, ChildEvent, on_pipe, on_client, Child, handle, handle_all, new_child, run_child,
}
use you_shuang.ProcessPool.Child.Safe.{AllFair, AnyBeyond}
use you_shuang.CgiServer.Children.{AllSafe, run_child-AllSafe}

-- "ls\r" and "\n".
abbrev pieces : List (List ℕ)
pieces = (108 ∷ 115 ∷ 13 ∷ []) ∷ (10 ∷ []) ∷ []

abbrev given : Given
given = record { received = map bytes pieces; access = λ name. true; fork = in_child }

init-IsReading : IsReading (init 7) []
unfolding init
init-IsReading = record {
  buf_is = refl;
  idx_is = refl;
  room = omega arith;
  no_end = λ j h e. absurd (omega arith);
}

process-Outcome_example : Returns (Outcome given 7 (concat pieces)) (process given (init 7))
unfolding init
process-Outcome_example =
    process-Outcome given pieces (init 7) [] init-IsReading (omega arith, (omega arith, tt))
      (omega arith) refl

-- The parent tells of a connection, on which the client sends its request.
abbrev rounds : List (Option (List (ChildEvent cgi_conn)))
rounds = some (on_pipe told (some 7) ∷ []) ∷ some (on_client 7 given ∷ []) ∷ none ∷ []

abbrev user_of : Run (Child cgi_conn) → Option CgiConn
user_of (ok s) = s.users 7
user_of fault = none

accepted :
    (s : Child cgi_conn)
    → handle_all cgi_conn (on_pipe told (some 7) ∷ []) (new_child cgi_conn) ≡ ok s
    → s.users 7 ≡ some (init 7)
unfolding handle_all handle
accepted s e = sym (ap user_of e)

rounds-Fair : AllFair cgi_conn cgi_conn-IsTaskClass (new_child cgi_conn) rounds
unfolding init
rounds-Fair = (
  (tt, λ t e. tt),
  λ s e. (((init 7, accepted s e, (omega arith, (omega arith, tt))), λ t e. tt), λ t e. tt),
)

run_child-AllSafe_example :
    Unless
      (AnyBeyond cgi_conn cgi_conn-IsTaskClass rounds)
      AllSafe
      (run_child cgi_conn rounds (new_child cgi_conn))
run_child-AllSafe_example =
    run_child-AllSafe rounds (new_child cgi_conn) (λ fd t e. absurd (some-ne-none t (sym e)))
      rounds-Fair
