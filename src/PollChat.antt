-- ===== src/PollChat.antt =====
-- 9-7 chatroom_server.cpp: the loop of the chat server on poll, with its table of descriptors and the
-- data of each client by its descriptor.
pub mod Table
pub mod Round
use you_shuang.Base.{
  ℕ, zero, suc, ◌+◌, ◌-◌, ◌≡◌, Bool, true, false, ◌&&◌, ◌||◌, List, [], ◌∷◌, ◌++◌, Option, none,
  some, ltb, leb, ◌==◌, if◌then◌else◌, Run, ok, fault, ◌>>=◌, load, store, length, replicate,
}

abbrev pub user_limit : ℕ
user_limit = 5

abbrev pub buffer_size : ℕ
buffer_size = 64

abbrev pub fd_limit : ℕ
fd_limit = 65535

-- The bits of poll that the program uses.
pub record Bits : Type 0 where
  pub pollin : Bool
  pub pollout : Bool
  pub pollerr : Bool
  pub pollrdhup : Bool

abbrev pub no_bits : Bits
no_bits = record { pollin = false; pollout = false; pollerr = false; pollrdhup = false }

-- `events |= ~POLLIN` and `events |= ~POLLOUT`: all other bits are set.
abbrev pub all_but_pollin : Bits → Bits
all_but_pollin e = record { pollin = e.pollin; pollout = true; pollerr = true; pollrdhup = true }

abbrev pub all_but_pollout : Bits → Bits
all_but_pollout e = record { pollin = true; pollout = e.pollout; pollerr = true; pollrdhup = true }

pub record PollFd : Type 0 where
  pub fd : ℕ
  pub events : Bits
  pub revents : Bits

-- `write_buf` points to the `buf` of the client with this descriptor, or is null. The address of the
-- client is not modelled: nothing reads it.
pub record ClientData : Type 0 where
  pub write_buf : Option ℕ
  pub buf : List ℕ

pub data Act : Type 0 where
  turn_away close_fd : ℕ → Act
  send_text : ℕ → List ℕ → Act

pub record Chat : Type 0 where
  pub fds : List PollFd
  pub users : ℕ → ClientData
  pub user_counter : ℕ
  pub acts : List Act

-- What recv gives: EAGAIN, another error, the end of the connection, or bytes.
pub data Incoming : Type 0 where
  again failed closed : Incoming
  data_of : List ℕ → Incoming

-- What the calls of one pass of the loop give: accept, where `none` is a failure, and recv.
pub record Given : Type 0 where
  pub accepted : Option ℕ
  pub received : Incoming

-- The access to users[fd].
in_users : ℕ → Run ℕ
in_users fd = if ltb fd fd_limit then ok fd else fault

abbrev put : (ℕ → ClientData) → ℕ → ClientData → ℕ → ClientData
put users fd u x = if fd == x then u else users x

abbrev add_act : Act → Chat → Chat
add_act a s = record s { acts = s.acts ++ (a ∷ []) }

pub accept_user : Option ℕ → Chat → Run Chat
accept_user none s = ok s
accept_user (some connfd) s =
    let admit = (do
      c ← in_users connfd
      fds ← store s.fds (s.user_counter + 1) (record {
        fd = connfd;
        events = record { pollin = true; pollout = false; pollerr = true; pollrdhup = true };
        revents = no_bits;
      })
      ok (record s { fds = fds; user_counter = s.user_counter + 1 })) in
    if leb user_limit s.user_counter
    then ok (add_act (close_fd connfd) (add_act (turn_away connfd) s))
    else admit

-- The user of the entry `i` leaves: the last entry takes its place. A count below zero is a fault.
pub remove_user : ℕ → Chat → Run Chat
remove_user i s = do
  p ← load s.fds i
  last ← load s.fds s.user_counter
  a ← in_users p.fd
  b ← in_users last.fd
  fds ← store s.fds i last
  let next = record s {
    fds = fds;
    users = put s.users a (s.users b);
    user_counter = s.user_counter - 1;
    acts = s.acts ++ (close_fd p.fd ∷ []);
  }
  if s.user_counter == 0 then fault else ok next

-- The loop that tells the other users of the data of `connfd`, for `n` entries from `j`.
notify : ℕ → ℕ → ℕ → Chat → Run Chat
notify connfd zero j s = ok s
notify connfd (suc n) j s = do
  p ← load s.fds j
  c ← in_users p.fd
  fds ← store s.fds j (record p { events = record (all_but_pollin p.events) { pollout = true } })
  let rest = notify connfd n (j + 1) s
  let told = notify connfd n (j + 1) (record s {
    fds = fds;
    users = put s.users c (record (s.users c) { write_buf = some connfd });
  })
  if p.fd == connfd then rest else told

-- The data of a client: the state, and the entry that the loop goes on with.
pub receive : ℕ → ℕ → Incoming → Chat → Run (Chat × ℕ)
receive i connfd again s = ok (s, i + 1)
receive i connfd failed s = do t ← remove_user i s; ok (t, i)
receive i connfd closed s = ok (s, i + 1)
receive i connfd (data_of bs) s =
    let written = record s {
      users =
          put s.users connfd
            (record (s.users connfd) { buf = bs ++ replicate (buffer_size - length bs) 0 });
    } in
    let told = (do t ← notify connfd s.user_counter 1 written; ok (t, i + 1)) in
    if ltb (length bs) buffer_size then told else fault

-- The bytes in front of the first NUL.
text_of : List ℕ → List ℕ
text_of [] = []
text_of (b ∷ bs) = if b == 0 then [] else b ∷ text_of bs

write_to : ℕ → PollFd → Option ℕ → Chat → Run Chat
write_to i p none s = ok s
write_to i p (some q) s = do
  fds ← store s.fds i (record p { events = record (all_but_pollout p.events) { pollin = true } })
  ok (record s {
    fds = fds;
    users = put s.users p.fd (record (s.users p.fd) { write_buf = none });
    acts = s.acts ++ (send_text p.fd (text_of (s.users q).buf) ∷ []);
  })

-- One pass of the loop over the entries, at the entry `i`; it gives the next one.
pass : ℕ → Given → ℕ → Chat → Run (Chat × ℕ)
pass listenfd g i s = do
  p ← load s.fds i
  let accepts = (do t ← accept_user g.accepted s; ok (t, i + 1))
  let leaves = (do t ← remove_user i s; ok (t, i))
  let receives = (do
    c ← in_users p.fd
    receive i c g.received
        (record s { users = put s.users c (record (s.users c) { buf = replicate buffer_size 0 }) }))
  let writes = (do c ← in_users p.fd; t ← write_to i p (s.users c).write_buf s; ok (t, i + 1))
  if (p.fd == listenfd) && p.revents.pollin
      then accepts
      else if p.revents.pollerr
      then ok (s, i + 1)
      else if p.revents.pollrdhup
      then leaves
      else if p.revents.pollin
      then receives
      else if p.revents.pollout
      then writes
      else ok (s, i + 1)

-- The loop over the entries, with the passes that may be left, and what the calls of each give.
pass_loop : ℕ → (ℕ → Given) → ℕ → ℕ → Chat → Run Chat
pass_loop listenfd given zero i s = fault
pass_loop listenfd given (suc fuel) i s =
    let go_on = pass listenfd (given fuel) i s >>= (λ r. pass_loop listenfd given fuel r.1 r.0) in
    if ltb i (s.user_counter + 1) then go_on else ok s

-- poll gives the bits of the first `n` entries.
set_revents : (ℕ → Bits) → ℕ → ℕ → List PollFd → Run (List PollFd)
set_revents bits zero i fds = ok fds
set_revents bits (suc n) i fds = do
  p ← load fds i
  next ← store fds i (record p { revents = bits i })
  set_revents bits n (i + 1) next

-- A round of the main loop. Each pass leaves an entry behind or removes one, and the pass of the
-- listening descriptor may add one: `user_limit + 2` are enough.
unfoldable pub round : ℕ → (ℕ → Bits) → (ℕ → Given) → Chat → Run Chat
unfolding pass_loop pass accept_user remove_user notify receive text_of write_to set_revents
    in_users
round listenfd bits given s = do
  fds ← set_revents bits (s.user_counter + 1) 0 s.fds
  pass_loop listenfd given (user_limit + 2) 0 (record s { fds = fds })
