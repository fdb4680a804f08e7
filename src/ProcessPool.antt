-- ===== src/ProcessPool.antt =====
-- The parent of the pool of processes: run_parent of 15-1 processpool.h.
pub mod Dispatch
pub mod Signals
pub mod Loop
pub mod Child
pub mod Create
use you_shuang.Base.{
  ℕ, zero, suc, ◌+◌, ◌%◌, Bool, true, false, List, [], ◌∷◌, ◌++◌, Option, none, some, ◌==◌,
  if◌then◌else◌, Run, ok, fault, ◌>>=◌, load, length,
}

-- A child; `none` is the pid -1. `pipefd` has the ends of the parent and of the child.
pub record Process : Type 0 where
  pub pid : Option ℕ
  pub pipefd : ℕ × ℕ

-- What the parent asks the kernel for: to tell a child of a connection, to close a pipe, to end a
-- child by SIGTERM.
pub data Act : Type 0 where
  send_conn close_pipe kill_child : ℕ → Act

-- The length of `sub_process` is m_process_number.
pub record Pool : Type 0 where
  pub sub_process : List Process
  pub sub_process_counter : ℕ
  pub stop : Bool
  pub acts : List Act

-- A byte that came through the signal pipe. With SIGCHLD stand the pids that the calls of waitpid
-- return until one returns none.
pub data Signal : Type 0 where
  sigchld : List ℕ → Signal
  sigterm sigint other_signal : Signal

-- An event of epoll_wait: on the listening socket, on the signal pipe, with the bytes that recv
-- gives there (none if it gives nothing), or another one.
pub data Event : Type 0 where
  on_listenfd : Event
  on_sig_pipe : List Signal → Event
  on_other : Event

-- What epoll_wait gives: events (none where a signal interrupted it), or a failure.
pub data Answer : Type 0 where
  events : List Event → Answer
  failure : Answer

-- m_pid != -1
unfoldable pub is_alive : Process → Bool
is_alive c = elim c.pid [ none ↦ false | some p ↦ true ]

-- The `do` loop, with the number of rounds that may be left.
find_child : ℕ → List Process → ℕ → ℕ → Run ℕ
find_child zero children start i = fault
find_child (suc fuel) children start i = do
  c ← load children i
  let next = (i + 1) % length children
  let rest = find_child fuel children start next
  if is_alive c then ok i else if next == start then ok next else rest

connect : Pool → ℕ → Process → Pool × Bool
connect s i c = (
  record s {
    sub_process_counter = (i + 1) % length s.sub_process;
    acts = s.acts ++ (send_conn c.pipefd.0 ∷ []);
  },
  true,
)

-- A new connection, and whether the loop over the events goes on.
pub dispatch : Pool → Run (Pool × Bool)
dispatch s = do
  i ← find_child (length s.sub_process) s.sub_process s.sub_process_counter s.sub_process_counter
  c ← load s.sub_process i
  ok (if is_alive c then connect s i c else (record s { stop = true }, false))

-- The loop over the children for a pid that waitpid gave.
is_pid : ℕ → Option ℕ → Bool
is_pid p none = false
is_pid p (some q) = q == p

has_pid : ℕ → Process → Bool
has_pid p c = is_pid p c.pid

join : ℕ → Process → Process
join p c = if has_pid p c then record c { pid = none } else c

join_all : ℕ → List Process → List Process
join_all p [] = []
join_all p (c ∷ cs) = join p c ∷ join_all p cs

closed_by : ℕ → List Process → List Act
closed_by p [] = []
closed_by p (c ∷ cs) =
    if has_pid p c then close_pipe c.pipefd.0 ∷ closed_by p cs else closed_by p cs

reap : List ℕ → Pool → Pool
reap [] s = s
reap (p ∷ ps) s = reap ps (record s {
  sub_process = join_all p s.sub_process;
  acts = s.acts ++ closed_by p s.sub_process;
})

-- The loop that decides whether the parent stops.
all_ended : Bool → List Process → Bool
all_ended stop [] = stop
all_ended stop (c ∷ cs) = all_ended (if is_alive c then false else stop) cs

kills : List Process → List Act
kills [] = []
kills (c ∷ cs) = elim c.pid [ none ↦ kills cs | some p ↦ kill_child p ∷ kills cs ]

unfoldable pub on_signal : Signal → Pool → Pool
unfolding reap join_all closed_by join has_pid is_pid all_ended kills
on_signal (sigchld pids) s = let t = reap pids s in record t { stop = all_ended true t.sub_process }
on_signal sigterm s = record s { acts = s.acts ++ kills s.sub_process }
on_signal sigint s = record s { acts = s.acts ++ kills s.sub_process }
on_signal other_signal s = s

on_signals : List Signal → Pool → Pool
on_signals [] s = s
on_signals (g ∷ gs) s = on_signals gs (on_signal g s)

-- The loop over the events of one round.
handle : List Event → Pool → Run Pool
handle [] s = ok s
handle (on_listenfd ∷ es) s = do (t, goes_on) ← dispatch s; if goes_on then handle es t else ok t
handle (on_sig_pipe gs ∷ es) s = handle es (on_signals gs s)
handle (on_other ∷ es) s = handle es s

-- The loop of the parent over the answers of epoll_wait; behind the last it waits.
unfoldable pub run_loop : List Answer → Pool → Run Pool
unfolding handle dispatch connect find_child on_signals
run_loop [] s = ok s
run_loop (failure ∷ rest) s = ok s
run_loop (events es ∷ rest) s =
    let round = handle es s >>= run_loop rest in if s.stop then ok s else round
