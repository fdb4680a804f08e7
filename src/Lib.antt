-- ===== src/Lib.antt =====
-- Models and proofs for the server programs of YouShuang, the examples of a book on Linux
-- servers: each program stands in files at the top of the repository, named by chapter and
-- number.
--
-- The HTTP server (15-4 http_conn.h, 15-5 http_conn.cpp, with the main of 15-6 WebServer.cpp) and
-- its forerunner (8-3 parse_line.cpp) read a request by two state machines. A slave machine cuts
-- lines out of the read buffer, and the main machine parses a line by its state. The files:
--
--   Http/Text: the C string functions that the parsers call, on offsets of the buffer.
--   Http/Line: parse_line (prase_line in 8-3). Http/Line/Outcome: how a call ends.
--     Http/Line/Skip, Pieces, Resume: data that arrives in pieces, and one line.
--   Http/Request: parse_request_line.
--   Http/Conn: the class http_conn, init, close_conn, unmap, and the calls of epoll as a log.
--   Http/Reading: read, parse_headers, parse_content, do_request, process_read.
--   Http/Response: add_response and its callers, process_write.
--   Http/Writing: write. Http/Writing/Keeps: what it leaves alone. Http/Process: process.
--   WebServer: the loop of main in 15-6 WebServer.cpp, on the connections. WebServer/Counts: the
--     open ones. WebServer/Users: what is kept of them. WebServer/Safe: the events of a round.
--   ParseLine: the analysis and the loop of main in 8-3 parse_line.cpp.
--
-- The time heap (11-6 timeHeap.h) keeps timers in a binary heap of pointers by their time of
-- expiry. TimeHeap models the whole class but its destructor: the timers stand in a memory where
-- delete leaves nothing, so a use after free is a fault, and the calls of callbacks are a log
-- (the callbacks do not change the heap). Its walks have fuel of the number of entries and one,
-- and tick has a round for each timer.
--
--   TimeHeap: the class time_heap. TimeHeap/Order: the order of the heap and what an exchange of
--     entries keeps.
--   TimeHeap/Down: percolate_down. TimeHeap/Add: add_timer. TimeHeap/Resize: resize.
--     TimeHeap/Pop: pop_timer. TimeHeap/Tick: tick. TimeHeap/Build: the constructors.
--
-- The sorted timer list (11-2 lst_timer.h) is a doubly linked list. TimerList models the whole
-- class on a memory of nodes; its theorems say which list of timers the nodes stand for. The
-- loops have fuel, which one round more than there are timers is enough for.
--
--   TimerList: the class sort_timer_lst. TimerList/Lists: what a list stands for. Nodes,
--     Nodes/Chain: the nodes, and what a chain of them stands for. TimerList/Add: add_timer.
--     TimerList/Unlink, Delete: del_timer. TimerList/Adjust: adjust_timer. TimerList/Sorted: the
--     order of expiry. TimerList/Tick: tick and the destructor.
--
-- The server of 11-3 (11-3 nonactive_connect.cpp) gives each connection a timer in the sorted
-- list, to close those that are idle. NonactiveConnect models the loop of its main on the model
-- of the list; the answers of epoll_wait, accept, recv, time and new are the argument. Its fuel
-- bounds the timers of the list; since the program deletes each timer that it puts there, one
-- round is enough for it.
--
--   NonactiveConnect: the server. NonactiveConnect/Known: what the events say of a run.
--     NonactiveConnect/Gone: the list when its timers are deleted. NonactiveConnect/Clients: what
--     then comes from clients. NonactiveConnect/Dangling: every run.
--
-- The time wheel (11-5 time_wheel_timer.h) has 60 slots with a doubly linked list each. TimeWheel
-- models the whole class on the nodes of the sorted list; the timers of a slot are a list, and
-- what a tick means for it is in TimeWheel/Sweep. The loop of tick has a round more than there
-- are timers in the slot. The client sets the callback of a timer behind add_timer, so a new one
-- has none.
--
--   TimeWheel: the class time_wheel. TimeWheel/Inner, Behind, Loop, Front: the loop of tick.
--     TimeWheel/Wheel: a tick. TimeWheel/Dangling: where tick fails. TimeWheel/Add: add_timer.
--     TimeWheel/Rising, Members, Only, Fires: when a timer is called.
--
-- The process pool (15-1 processpool.h) hands each new connection to one of its children.
-- ProcessPool models the loop of run_parent; the answers of epoll_wait, recv and waitpid are its
-- argument, and what it asks of the kernel is a log. The search for a child has a round for each
-- child. ProcessPool/Child models the loop of run_child for any class of tasks: the template's
-- parameter is a record of the two members that the pool calls, and IsTaskClass says what the
-- class promises. CgiServer models the class cgi_conn (15-2 pool_CGIServer.cpp) that main gives
-- to the pool, and shows that it keeps the promise.
--
--   ProcessPool: run_parent. ProcessPool/Dispatch: a new connection. ProcessPool/Signals:
--     SIGCHLD. ProcessPool/Loop: all events. ProcessPool/Create: the constructor, create and run.
--     ProcessPool/Create/Roles: the parent and its children. ProcessPool/Child: run_child.
--     ProcessPool/Child/Safe: a child with any class of tasks.
--   CgiServer: the class cgi_conn. CgiServer/Scan: the search for "\r\n". CgiServer/Content: a
--     request in pieces. CgiServer/Safety: what the pool asks for. CgiServer/Children: a child of
--     the pool with it.
--
-- The example of 9-3 (9-3 ET LT.cpp) reads from connections in the two modes of epoll. EpollModes
-- models its two handlers; the kernel, with what recv gives, is a parameter, and EpollModes/Agree
-- names what recv promises. The loop of ET mode has a round more than there are bytes to read.
--
--   EpollModes: the handlers lt and et. EpollModes/Agree: both read the same.
--
-- The chat server of 9-7 (9-7 chatroom_server.cpp) has a table of descriptors for poll and the
-- data of each client by its descriptor. PollChat models a round of its loop over what poll,
-- accept and recv give. A round has at most 7 passes: one for the listening descriptor, which may
-- add a user, and one for each of at most 5 users, with one to spare.
--
--   PollChat: the loop. PollChat/Table: users come and leave. PollChat/Round: a round.
--
-- The chat server of 13-4 (13-4 sharedMemory_chatroomServer.cpp) forks a child for each user, and
-- the children pass messages through shared memory. SharedChat models the loop of a child, and
-- the loop of the parent on its table of users and its table from pids to places: what the calls
-- give is the argument, and what the parent asks of the kernel is a log.
--
--   SharedChat: the loop of the parent. SharedChat/Users: a user comes or leaves.
--     SharedChat/Broadcast: the loops over the users. SharedChat/Loop: all events.
--     SharedChat/Slots: the places of the shared memory. SharedChat/Child: run_child.
--     SharedChat/Child/Memory: what it does to the memory.
--
-- The thread pool (15-3 threadpool.h) has a queue of requests behind a mutex and a semaphore
-- (14-2 locker.h). Locker has the two classes on pthreads, which is a parameter with the laws of
-- its manual; ThreadPool has the steps of the threads that append and of the workers, and a
-- relation that lets them follow in any order.
--
--   Locker: sem and locker. ThreadPool: append and run. ThreadPool/Moves: what a thread can do.
--     ThreadPool/Clients, Workers, Stuck: what is reachable.
--
-- A run of the code is a value or a fault (Base/Faults): undefined behaviour, such as an index
-- out of bounds, is a fault. The kernel is a parameter: the answers of recv and writev are lists,
-- with EAGAIN behind the last of them, and stat and mmap are a record of functions. add_headers
-- of http_conn is declared bool and ends without a return, which is undefined behaviour: whether
-- such a call faults or returns with no value in particular is an argument of the response's
-- functions (NoReturn), and their theorems say both. Printing is left out but for the data that
-- 9-3 prints.
--
-- The loop of process_read has fuel of twice the unchecked bytes and two, and that of
-- parse_content in 8-3 the unchecked bytes and one: each round takes a line of at least one byte,
-- or the one round for a message body. Running out of fuel is a result of its own.
--
-- Not modelled: the set-up of sockets, signals and processes, which is system calls only; the
-- main programs but for their loops; and the short programs of the other chapters, which show one
-- system call each.
mod Base
pub mod Http
pub mod ParseLine
pub mod TimeHeap
pub mod Nodes
pub mod TimerList
pub mod TimeWheel
pub mod ProcessPool
pub mod CgiServer
pub mod SharedChat
pub mod PollChat
pub mod Locker
pub mod ThreadPool
mod Tests
pub mod NonactiveConnect
pub mod WebServer
pub mod EpollModes
