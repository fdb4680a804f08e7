-- ===== src/CgiServer/Children.antt =====
-- A child of the pool of 15-1 processpool.h with the class cgi_conn of 15-2 pool_CGIServer.cpp.
use you_shuang.Base.{ℕ, ◌<◌, ◌≡◌, List, Option, some, Unless}
use you_shuang.CgiServer.{CgiConn}
use you_shuang.CgiServer.Safety.{IsSafe, cgi_conn, cgi_conn-IsTaskClass}
use you_shuang.ProcessPool.Child.{user_per_process, ChildEvent, Child, run_child}
use you_shuang.ProcessPool.Child.Safe.{AllFair, AnyBeyond, run_child-AllValid}

-- Every object that was initialised has a place in the table, and room for a NUL in its buffer.
abbrev pub AllSafe : Child cgi_conn → Type 0
AllSafe s = (fd : ℕ) (c : CgiConn) → s.users fd ≡ some c → (fd < user_per_process) × IsSafe c

-- A child that serves clients by cgi_conn makes an access out of bounds, of its table or of a buffer,
-- only if accept gives a descriptor behind the table, which the code does not test; else every object
-- that was initialised keeps its place, its buffer's size and room for a NUL there. Events come for
-- connections that were accepted, and recv gives no more than process() asks for.
pub run_child-AllSafe :
    (rounds : List (Option (List (ChildEvent cgi_conn)))) (s : Child cgi_conn)
    → AllSafe s
    → AllFair cgi_conn cgi_conn-IsTaskClass s rounds
    → Unless (AnyBeyond cgi_conn cgi_conn-IsTaskClass rounds) AllSafe (run_child cgi_conn rounds s)
run_child-AllSafe rounds s v f = run_child-AllValid cgi_conn cgi_conn-IsTaskClass rounds s v f
