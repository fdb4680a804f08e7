-- ===== src/WebServer.antt =====
-- 15-6 WebServer.cpp: the loop of main, which hands what epoll_wait gives to the connections of
-- 15-4 http_conn.h, and the requests that are read to the thread pool.
pub mod Counts
pub mod Users
pub mod Safe
use you_shuang.Base.{
  ℕ, zero, suc, ◌+◌, Bool, true, false, List, [], ◌∷◌, ◌++◌, map, Option, none, some, ltb, ◌==◌,
  if◌then◌else◌, Run, ok, fault, ◌>>=◌, or_fault, update,
}
use you_shuang.Base.Int.{ℤ, pos, lebℤ}
use you_shuang.Base.Bytes.{Received}
use you_shuang.Http.Conn.{HttpConn, Call, init, close_conn}
use you_shuang.Http.Reading.{read}
use you_shuang.Http.Writing.{Sent, write}

abbrev pub max_fd : ℕ
max_fd = 65536

-- What the server does: a call of a connection, the text of show_error, a close, or a request for
-- the pool.
pub data Act : Type 0 where
  kernel : Call → Act
  send close append : ℕ → Act

-- `users` has `none` where init() was not called. The static m_user_count stands here. `blocked`
-- says that main is inside of a call of append, which does not return (ThreadPool/Stuck); no worker
-- then comes to a request, so main alone changes the connections.
pub record Server : Type 0 where
  pub users : ℕ → Option HttpConn
  pub user_count : ℤ
  pub acts : List Act
  pub blocked : Bool

-- What epoll_wait gives: the listening descriptor, with what accept gives; a connection that has
-- ended; one to be read, with what recv gives; one to be written to, with what writev gives; or
-- another.
pub data Event : Type 0 where
  on_listenfd : Option ℕ → Event
  on_hangup : ℕ → Event
  on_readable : ℕ → List Received → Event
  on_writable : ℕ → List Sent → Event
  on_other : Event

-- A connection with the static counter, and with the calls it makes from now on.
abbrev pub with_count : ℤ → HttpConn → HttpConn
with_count n c = record c { user_count = n; calls = [] }

-- The object behind a call of one of its members, at users[fd].
abbrev put : ℕ → HttpConn → Server → Server
put fd c s = record s {
  users = update s.users fd (some c);
  user_count = c.user_count;
  acts = s.acts ++ map kernel c.calls;
}

-- users[fd], which init() was called for.
unfoldable pub user : ℕ → Server → Run HttpConn
user fd s = do
  c ← (if ltb fd max_fd then or_fault (s.users fd) else fault)
  ok (with_count s.user_count c)

unfoldable pub close_user : ℕ → HttpConn → Server → Server
close_user fd c s = put fd (close_conn c true) s

abbrev pub call_append : ℕ → Server → Server
call_append fd s = record s { acts = s.acts ++ (append fd ∷ []); blocked = true }

abbrev show_error : ℕ → Server → Server
show_error connfd s = record s { acts = s.acts ++ (send connfd ∷ close connfd ∷ []) }

-- `garbage` is what new leaves in the objects.
unfoldable pub accept_user : (ℕ → HttpConn) → Option ℕ → Server → Run Server
accept_user garbage none s = ok s
accept_user garbage (some connfd) s =
    let inits = put connfd (init (with_count s.user_count (garbage connfd)) connfd) s in
    if lebℤ (pos max_fd) s.user_count
    then ok (show_error connfd s)
    else if ltb connfd max_fd
    then ok inits
    else fault

unfoldable pub handle : (ℕ → HttpConn) → Event → Server → Run Server
handle garbage (on_listenfd accepted) s = accept_user garbage accepted s
handle garbage (on_hangup fd) s = do c ← user fd s; ok (close_user fd c s)
handle garbage (on_readable fd answers) s = do
  c ← user fd s
  (d, more) ← read c answers
  ok (if more then call_append fd (put fd d s) else close_user fd d s)
handle garbage (on_writable fd answers) s = do
  c ← user fd s
  let (d, more) = write c answers
  ok (if more then put fd d s else close_user fd d s)
handle garbage on_other s = ok s

unfoldable pub handle_all : (ℕ → HttpConn) → List Event → Server → Run Server
handle_all garbage [] s = ok s
handle_all garbage (e ∷ es) s =
    let rest = handle garbage e s >>= handle_all garbage es in if s.blocked then ok s else rest

-- How main ends: by a failure of epoll_wait, or behind the events.
abbrev end_server : ℕ → ℕ → Server → Server
end_server epollfd listenfd s = record s {
  users = λ fd. none;
  acts = s.acts ++ (close epollfd ∷ close listenfd ∷ []);
}

-- The loop over what epoll_wait gives, where `none` is a failure; its body ends with a return, so
-- what follows the first is not read.
unfoldable pub main_loop : (ℕ → HttpConn) → ℕ → ℕ → List (Option (List Event)) → Server → Run Server
main_loop garbage epollfd listenfd [] s = ok s
main_loop garbage epollfd listenfd (none ∷ rest) s = ok s
main_loop garbage epollfd listenfd (some es ∷ rest) s = do
  t ← handle_all garbage es s
  ok (if t.blocked then t else end_server epollfd listenfd t)

abbrev pub start : Server
start = record { users = λ fd. none; user_count = pos 0; acts = []; blocked = false }
