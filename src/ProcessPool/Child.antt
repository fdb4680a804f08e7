-- ===== src/ProcessPool/Child.antt =====
-- 15-1 processpool.h: run_child, the loop of a child of the pool, for any class of tasks.
pub mod Safe
use you_shuang.Base.{
  ℕ, zero, suc, ◌+◌, Bool, true, false, List, [], ◌∷◌, ◌++◌, map, Option, none, some, ltb, ◌==◌,
  if◌then◌else◌, Run, ok, fault, ◌>>=◌, or_fault, ◌≡◌,
}
use you_shuang.ProcessPool.{Signal, sigchld, sigterm, sigint, other_signal}

abbrev pub user_per_process : ℕ
user_per_process = 65536

-- The class of tasks, the template's parameter T: its objects, what the calls of its process() give
-- and what it does, and its two members that the pool calls.
pub record TaskClass : Type 1 where
  pub T : Type 0
  pub Given : Type 0
  pub Effect : Type 0
  pub init : ℕ → T
  pub process : Given → T → Run (T × List Effect)

-- What it promises: its objects are well-formed after init(), and process() keeps them so.
pub record IsTaskClass (C : TaskClass) : Type 1 where
  pub IsValid : C.T → Type 0
  pub IsFair : C.Given → C.T → Type 0
  pub init-IsValid : (fd : ℕ) → IsValid (C.init fd)
  pub process-IsValid :
      (g : C.Given) (t : C.T)
      → IsValid t
      → IsFair g t
      → (r : C.T × List C.Effect) × (C.process g t ≡ ok r) × IsValid r.0

-- What recv gives on the pipe of the parent: the number that it sends, EAGAIN, another error, or the
-- end of the connection.
pub data PipeRead : Type 0 where
  told pipe_again pipe_failed pipe_closed : PipeRead

module _ (C : TaskClass) where
  -- What the child does: a connection is watched by epoll, or a task has an effect.
  pub data Act : Type 0 where
    addfd : ℕ → Act
    effect : C.Effect → Act

  -- `users` has an object for each descriptor: `none` where init() was not called.
  pub record Child : Type 0 where
    pub users : ℕ → Option C.T
    pub stop : Bool
    pub acts : List Act

  -- An event of epoll_wait: on the pipe, with what accept gives; on the signal pipe; on the connection
  -- of a client, with what the calls of process() give; or another.
  pub data ChildEvent : Type 0 where
    on_pipe : PipeRead → Option ℕ → ChildEvent
    on_sig_pipe : List Signal → ChildEvent
    on_client : ℕ → C.Given → ChildEvent
    on_other : ChildEvent

  abbrev put : (ℕ → Option C.T) → ℕ → C.T → ℕ → Option C.T
  put users fd t x = if fd == x then some t else users x

  -- The access to users[fd].
  in_users : ℕ → Run ℕ
  in_users fd = if ltb fd user_per_process then ok fd else fault

  accept_client : Option ℕ → Child → Run Child
  accept_client none s = ok s
  accept_client (some connfd) s = do
    c ← in_users connfd
    ok (record s { users = put s.users c (C.init c); acts = s.acts ++ (addfd c ∷ []) })

  -- The parent tells of a connection; the number that it sends is not read, and EAGAIN counts as one.
  on_parent : PipeRead → Option ℕ → Child → Run Child
  on_parent pipe_failed accepted s = ok s
  on_parent pipe_closed accepted s = ok s
  on_parent told accepted s = accept_client accepted s
  on_parent pipe_again accepted s = accept_client accepted s

  stops : Signal → Bool → Bool
  stops sigterm stop = true
  stops sigint stop = true
  stops (sigchld pids) stop = stop
  stops other_signal stop = stop

  on_signals : List Signal → Child → Child
  on_signals [] s = s
  on_signals (g ∷ gs) s = on_signals gs (record s { stop = stops g s.stop })

  run_task : ℕ → C.Given → Child → Run Child
  run_task sockfd g s = do
    c ← in_users sockfd
    t ← or_fault (s.users c)
    r ← C.process g t
    ok (record s { users = put s.users c r.0; acts = s.acts ++ map effect r.1 })

  unfoldable pub handle : ChildEvent → Child → Run Child
  unfolding on_parent accept_client on_signals stops run_task in_users
  handle (on_pipe read accepted) s = on_parent read accepted s
  handle (on_sig_pipe gs) s = ok (on_signals gs s)
  handle (on_client sockfd g) s = run_task sockfd g s
  handle on_other s = ok s

  unfoldable pub handle_all : List ChildEvent → Child → Run Child
  handle_all [] s = ok s
  handle_all (e ∷ es) s = handle e s >>= handle_all es

  -- The loop over what epoll_wait gives, where `none` is a failure; behind the last it waits.
  unfoldable pub run_child : List (Option (List ChildEvent)) → Child → Run Child
  unfolding handle_all
  run_child [] s = ok s
  run_child (none ∷ rest) s = ok s
  run_child (some es ∷ rest) s =
      let round = handle_all es s >>= run_child rest in if s.stop then ok s else round

  abbrev pub new_child : Child
  new_child = record { users = λ fd. none; stop = false; acts = [] }
