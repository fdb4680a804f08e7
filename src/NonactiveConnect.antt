-- ===== src/NonactiveConnect.antt =====
-- 11-3 nonactive_connect.cpp: a server that means to close the connections that are idle, with a
-- timer for each in the list of 11-2 lst_timer.h.
pub mod Known
pub mod Gone
pub mod Clients
pub mod Dangling
use you_shuang.Base.{
  ℕ, zero, suc, ◌+◌, ◌-◌, ◌*◌, Bool, true, false, List, [], ◌∷◌, ◌++◌, Option, none, some, ltb, leb,
  ◌==◌, if◌then◌else◌, Run, ok, fault, ◌>>=◌, or_fault, update, length, replicate,
}
use you_shuang.Base.Bytes.{overwrite, Received, again, error, bytes}
use you_shuang.Nodes.{at, delete}
use you_shuang.TimerList.{
  Task, Memory, TimerList, add_timer, adjust_timer, del_timer, Calls, tick, destroy,
}

abbrev pub fd_limit : ℕ
fd_limit = 65535

abbrev pub timeslot : ℕ
timeslot = 5

abbrev pub buffer_size : ℕ
buffer_size = 64

-- The static epollfd, which main's own variable of this name hides.
abbrev static_epollfd : ℕ
static_epollfd = 0

-- The pointer to cb_func, the one callback of the program.
abbrev pub cb_func_pointer : ℕ
cb_func_pointer = 1

-- The address of the client is not kept. A user's own index stands for a pointer to it.
pub record ClientData : Type 0 where
  pub sockfd : ℕ
  pub buf : List ℕ
  pub timer : Option ℕ

-- What the server asks of the kernel; an epoll table is named by its descriptor.
pub data Act : Type 0 where
  addfd : ℕ → ℕ → Act
  epoll_del : ℕ → ℕ → Act
  close alarm : ℕ → Act

-- What main has opened.
pub record Opened : Type 0 where
  pub epollfd : ℕ
  pub listenfd : ℕ
  pub pipefd : ℕ × ℕ

-- `users` has `none` where nothing has been written.
pub record Server : Type 0 where
  pub users : ℕ → Option ClientData
  pub timer_lst : TimerList
  pub timeout : Bool
  pub stop_server : Bool
  pub acts : List Act

pub data Signal : Type 0 where
  sigalrm sigterm other_signal : Signal

-- An event of epoll_wait: on the listening descriptor, with what accept gives, the address that new
-- gives for a timer, and the time; on the pipe, with the signals that recv gives, none where it
-- fails; on a client's connection, with what recv gives, and the time; or another.
pub data Event : Type 0 where
  on_listenfd : Option ℕ → ℕ → ℕ → Event
  on_pipe : List Signal → Event
  on_client : ℕ → Received → ℕ → Event
  on_other : Event

abbrev pub start : Server
start = record {
  users = λ fd. none;
  timer_lst = record { head = none; tail = none; memory = λ p. none };
  timeout = false;
  stop_server = false;
  acts = alarm timeslot ∷ [];
}

unfoldable pub cb_func : ℕ → Server → Run Server
cb_func user_data s = do
  d ← or_fault (s.users user_data)
  ok (record s { acts = s.acts ++ (epoll_del static_epollfd d.sockfd ∷ close d.sockfd ∷ []) })

-- The calls that tick makes; they leave its list alone.
unfoldable pub run_calls : Calls → Server → Run Server
run_calls [] s = ok s
run_calls ((f, user_data) ∷ fs) s =
    if f == cb_func_pointer then cb_func user_data s >>= run_calls fs else fault

-- `new util_timer`, with the fields that are then written.
abbrev new_timer : Memory → ℕ → Task → Memory
new_timer m timer k = update m timer (some (record { task = k; prev = none; next = none }))

unfoldable pub on_signals : List Signal → Server → Server
on_signals [] s = s
on_signals (sigalrm ∷ gs) s = on_signals gs (record s { timeout = true })
on_signals (sigterm ∷ gs) s = on_signals gs (record s { stop_server = true })
on_signals (other_signal ∷ gs) s = on_signals gs s

-- The connection is closed, and its timer taken out.
unfoldable pub close_client : ℕ → Option ℕ → Server → Run Server
close_client fd timer s = do
  t ← cb_func fd s
  l ← del_timer t.timer_lst timer
  ok (record t { timer_lst = l })

-- `fuel` bounds the timers of the list.
module _ (fuel : ℕ) where
  -- `cur` is the time.
  unfoldable pub timer_handler : ℕ → Server → Run Server
  timer_handler cur s = do
    r ← tick fuel s.timer_lst cur
    t ← run_calls r.1 (record s { timer_lst = r.0 })
    ok (record t { acts = t.acts ++ (alarm timeslot ∷ []) })

  -- A failure of accept is not seen, and -1 indexes the users. `delete timer` ends the branch.
  unfoldable pub accept_client : Opened → Option ℕ → ℕ → ℕ → Server → Run Server
  accept_client o none timer cur s = fault
  accept_client o (some connfd) timer cur s =
      let l = s.timer_lst in
      let k : Task = record {
        expire = cur + 3 * timeslot;
        cb_func = some cb_func_pointer;
        user_data = connfd;
      } in
      let d : ClientData = record { sockfd = connfd; buf = []; timer = some timer } in
      let accepted = (do
        added ← add_timer fuel (record l { memory = new_timer l.memory timer k }) (some timer)
        m ← delete added.memory timer
        ok (record s {
          users = update s.users connfd (some d);
          timer_lst = record added { memory = m };
          acts = s.acts ++ (addfd o.epollfd connfd ∷ []);
        })) in
      if ltb connfd fd_limit then accepted else fault

  -- The time of a connection is put off.
  unfoldable pub put_off : ℕ → Option ℕ → Server → Run Server
  put_off cur none s = ok s
  put_off cur (some timer) s = do
    n ← at s.timer_lst.memory (some timer)
    let k = record n.task { expire = cur + 3 * timeslot }
    l ←
        adjust_timer fuel
          (record s.timer_lst {
            memory = update s.timer_lst.memory timer (some (record n { task = k }));
          })
          (some timer)
    ok (record s { timer_lst = l })

  -- recv is asked for what the buffer holds but one; an answer that is longer breaks its contract.
  unfoldable pub on_data : ℕ → Received → ℕ → Server → Run Server
  on_data fd got cur s = do
    d ← or_fault (s.users fd)
    let kept : List ℕ → Server = λ bs. record s {
      users =
          update s.users fd (some (record d { buf = overwrite (replicate buffer_size 0) 0 bs }));
    }
    elim got [
      | again ↦ ok (kept [])
      | error ↦ close_client fd d.timer (kept [])
      | bytes bs ↦ elim bs [
        | [] ↦ close_client fd d.timer (kept [])
        | b ∷ cs ↦
            if ltb (length (b ∷ cs)) buffer_size then put_off cur d.timer (kept (b ∷ cs)) else fault
      ]
    ]

  unfoldable pub handle : Opened → Event → Server → Run Server
  handle o (on_listenfd accepted timer cur) s = accept_client o accepted timer cur s
  handle o (on_pipe gs) s = ok (on_signals gs s)
  handle o (on_client fd got cur) s = on_data fd got cur s
  handle o on_other s = ok s

  unfoldable pub handle_all : Opened → List Event → Server → Run Server
  handle_all o [] s = ok s
  handle_all o (e ∷ es) s = handle o e s >>= handle_all o es

  -- Behind the events, the timers, by the time.
  unfoldable pub on_timeout : ℕ → Server → Run Server
  on_timeout cur s = do
    let timed = (do t ← timer_handler cur s; ok (record t { timeout = false }))
    if s.timeout then timed else ok s

  -- The end of main; the list is destroyed behind it.
  unfoldable pub end_server : Opened → Server → Run Server
  end_server o s = do
    l ← destroy fuel s.timer_lst
    ok (record s {
      timer_lst = l;
      acts = s.acts ++ (close o.listenfd ∷ close (o.pipefd.1) ∷ close (o.pipefd.0) ∷ []);
    })

  -- The loop over what epoll_wait gives, with the time behind its events, where `none` is a failure;
  -- behind the last it waits.
  unfoldable pub main_loop : Opened → List (Option (List Event × ℕ)) → Server → Run Server
  main_loop o [] s = if s.stop_server then end_server o s else ok s
  main_loop o (none ∷ rest) s = end_server o s
  main_loop o (some (es, cur) ∷ rest) s =
      let round = handle_all o es s >>= on_timeout cur >>= main_loop o rest in
      if s.stop_server then end_server o s else round
