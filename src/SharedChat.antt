-- ===== src/SharedChat.antt =====
-- 13-4 sharedMemory_chatroomServer.cpp: the loop of the parent process of the chat server, with the
-- table of users and the table from the pids of their child processes to their places.
pub mod Users
pub mod Broadcast
pub mod Loop
pub mod Slots
pub mod Child
use you_shuang.Base.{
  ℕ, zero, suc, ◌+◌, ◌-◌, Bool, true, false, ◌&&◌, List, [], ◌∷◌, ◌++◌, Option, none, some, ltb,
  leb, ◌==◌, if◌then◌else◌, not, Run, ok, fault, ◌>>=◌, update, load, store,
}

abbrev pub user_limit : ℕ
user_limit = 5

abbrev pub process_limit : ℕ
process_limit = 65536

-- The address of the client is not modelled: nothing reads it. `pipefd` has the ends of the parent
-- and of the child.
pub record ClientData : Type 0 where
  pub connfd : ℕ
  pub pid : ℕ
  pub pipefd : ℕ × ℕ

-- What the parent does to its surroundings: a child is forked for a place in the table, a message
-- that names a connection goes down a pipe, and so on.
pub data Act : Type 0 where
  run_child send_number : ℕ → ℕ → Act
  epoll_add epoll_del close_fd kill_child turn_away : ℕ → Act

-- `sub_process` has a place for each pid below `process_limit`, where `none` is -1.
pub record Server : Type 0 where
  pub users : List ClientData
  pub sub_process : ℕ → Option ℕ
  pub user_count : ℕ
  pub stop_server : Bool
  pub terminate : Bool
  pub acts : List Act

-- The access to sub_process[pid].
in_table : ℕ → Run ℕ
in_table pid = if ltb pid process_limit then ok pid else fault

-- The parent's part after a fork: `none` is that it failed.
forked : Server → ℕ → Option ℕ → Run Server
forked s connfd none = ok (record s { acts = s.acts ++ (close_fd connfd ∷ []) })
forked s connfd (some pid) = do
  u ← load s.users s.user_count
  users ← store s.users s.user_count (record u { pid = pid })
  p ← in_table pid
  ok (record s {
    users = users;
    sub_process = update s.sub_process p (some s.user_count);
    user_count = s.user_count + 1;
    acts =
        s.acts
        ++ (run_child pid s.user_count
            ∷ close_fd connfd
            ∷ close_fd u.pipefd.1
            ∷ epoll_add u.pipefd.0
            ∷ []);
  })

-- A connection that accept gave, with the pipe that socketpair gives and what fork gives.
pub connect : ℕ → ℕ × ℕ → Option ℕ → Server → Run Server
connect connfd pipe fork s =
    let admit = (do
      u ← load s.users s.user_count
      users ← store s.users s.user_count (record u { connfd = connfd; pipefd = pipe })
      forked (record s { users = users }) connfd fork) in
    if leb user_limit s.user_count
    then ok (record s { acts = s.acts ++ (turn_away connfd ∷ close_fd connfd ∷ []) })
    else admit

-- The user at `del_user` leaves: the last user takes its place.
remove_user : Server → ℕ → Run Server
remove_user s del_user = do
  behind ← load s.users s.user_count
  gone ← load s.users del_user
  moved ← if s.user_count == 0 then fault else load s.users (s.user_count - 1)
  users ← store s.users del_user moved
  p ← in_table moved.pid
  ok (record s {
    users = users;
    sub_process = update s.sub_process p (some del_user);
    user_count = s.user_count - 1;
    acts = s.acts ++ (epoll_del behind.pipefd.0 ∷ close_fd gone.pipefd.0 ∷ []);
  })

reap_user : Server → Option ℕ → Run Server
reap_user s none = ok s
reap_user s (some del_user) = if ltb user_limit del_user then ok s else remove_user s del_user

-- A pid that waitpid gives.
pub reap : ℕ → Server → Run Server
reap pid s = do
  p ← in_table pid
  reap_user (record s { sub_process = update s.sub_process p none }) (s.sub_process p)

pub reap_all : List ℕ → Server → Run Server
reap_all [] s = ok s
reap_all (p ∷ ps) s = reap p s >>= reap_all ps

-- A loop over the users from `j`, `n` of them, which does `act` for each.
pub for_users : (ClientData → List Act) → ℕ → ℕ → List ClientData → Run (List Act)
for_users act zero j users = ok []
for_users act (suc n) j users = do
  u ← load users j
  rest ← for_users act n (j + 1) users
  ok (act u ++ rest)

-- The signals: SIGCHLD with the pids that waitpid gives, SIGTERM, SIGINT, and those that do nothing.
pub data Signal : Type 0 where
  sigchld : List ℕ → Signal
  sigterm sigint other_signal : Signal

pub check_stop : Server → Server
check_stop s = if s.terminate && (s.user_count == 0) then record s { stop_server = true } else s

pub kill_all : Server → Run Server
kill_all s = do
  a ← for_users (λ u. kill_child u.pid ∷ []) s.user_count 0 s.users
  ok (record s { terminate = true; acts = s.acts ++ a })

pub end_server : Server → Run Server
end_server s = if s.user_count == 0 then ok (record s { stop_server = true }) else kill_all s

pub on_signal : Signal → Server → Run Server
on_signal (sigchld pids) s = do t ← reap_all pids s; ok (check_stop t)
on_signal sigterm s = end_server s
on_signal sigint s = end_server s
on_signal other_signal s = ok s

pub on_signals : List Signal → Server → Run Server
on_signals [] s = ok s
on_signals (g ∷ gs) s = on_signal g s >>= on_signals gs

-- The number of a connection, which came through the pipe `sockfd`, goes to all other children.
pub broadcast : ℕ → ℕ → Server → Run Server
broadcast sockfd child s = do
  a ←
      for_users (λ u. if u.pipefd.0 == sockfd then [] else send_number u.pipefd.0 child ∷ [])
        s.user_count 0 s.users
  ok (record s { acts = s.acts ++ a })

-- An event of epoll_wait with what the calls for it give: accept fails, or gives a connection (and
-- socketpair a pipe, and fork a pid); recv gives signals, or the number of a connection, or nothing.
pub data Event : Type 0 where
  accept_failed other_event : Event
  accepted : ℕ → ℕ × ℕ → Option ℕ → Event
  signals : List Signal → Event
  from_child : ℕ → Option ℕ → Event

unfoldable pub on_event : Event → Server → Run Server
unfolding connect forked in_table on_signals on_signal end_server reap_all reap reap_user
    remove_user check_stop kill_all broadcast for_users
on_event accept_failed s = ok s
on_event other_event s = ok s
on_event (accepted connfd pipe fork) s = connect connfd pipe fork s
on_event (signals gs) s = on_signals gs s
on_event (from_child sockfd none) s = ok s
on_event (from_child sockfd (some child)) s = broadcast sockfd child s

-- The loop over the events of one round.
pub on_events : List Event → Server → Run Server
on_events [] s = ok s
on_events (e ∷ es) s = on_event e s >>= on_events es

-- The loop over what epoll_wait gives, where `none` is a failure; behind the last it waits.
unfoldable pub main_loop : List (Option (List Event)) → Server → Run Server
unfolding on_events
main_loop [] s = ok s
main_loop (none ∷ rest) s = ok s
main_loop (some es ∷ rest) s =
    let round = on_events es s >>= main_loop rest in if s.stop_server then ok s else round
