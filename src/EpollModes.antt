-- ===== src/EpollModes.antt =====
-- 9-3 ET LT.cpp: reading from a connection when epoll reports its data once (ET), and when it
-- reports it for as long as it is there (LT).
pub mod Agree
use you_shuang.Base.{
  ℕ, zero, suc, ◌-◌, Bool, true, false, List, [], ◌∷◌, ◌++◌, Option, none, some, length,
}
use you_shuang.Base.Bytes.{Received, again, error, bytes, until_nul}

abbrev pub buffer_size : ℕ
buffer_size = 10

-- The kernel's side of the connections: what recv gives on a descriptor that is asked for some bytes.
pub record Kernel : Type 1 where
  pub Sockets : Type 0
  pub recv : ℕ → ℕ → Sockets → Received × Sockets

-- What the handlers do. A descriptor is `none` where accept failed, which is not tested; of the
-- printed lines, those of the data and of its end are kept: that of the data has the number of bytes,
-- and then the bytes as a string, up to the first NUL.
pub data Act : Type 0 where
  addfd : Option ℕ → Bool → Act
  close : ℕ → Act
  got : ℕ → List ℕ → Act
  read_later : Act

pub data Event : Type 0 where
  on_listenfd : Option ℕ → Event
  on_readable : ℕ → Event
  on_other : Event

-- The buffer is zeroed before recv, which is asked for less than its size, so it ends in a NUL.
abbrev pub print_got : List ℕ → Act
print_got bs = got (length bs) (until_nul bs)

module _ (K : Kernel) where
  pub record Server : Type 0 where
    pub sockets : K.Sockets
    pub acts : List Act

  abbrev pub do_act : Act → Server → Server
  do_act a s = record s { acts = s.acts ++ (a ∷ []) }

  abbrev pub with_sockets : K.Sockets → Server → Server
  with_sockets k s = record s { sockets = k }

  lt_received : ℕ → Received → Server → Server
  lt_received fd again s = do_act (close fd) s
  lt_received fd error s = do_act (close fd) s
  lt_received fd (bytes []) s = do_act (close fd) s
  lt_received fd (bytes (b ∷ bs)) s = do_act (print_got (b ∷ bs)) s

  lt_event : Event → Server → Server
  lt_event (on_listenfd connfd) s = do_act (addfd connfd false) s
  lt_event (on_readable fd) s =
      let (r, k) = K.recv fd (buffer_size - 1) s.sockets in lt_received fd r (with_sockets k s)
  lt_event on_other s = s

  unfoldable pub lt : List Event → Server → Server
  unfolding lt_event lt_received
  lt [] s = s
  lt (e ∷ es) s = lt es (lt_event e s)

  -- A round of the loop of et, and how it goes on; behind the end of the connection it does so.
  et_received : ℕ → Received → Server → (Server → Option Server) → Option Server
  et_received fd again s go_on = some (do_act read_later s)
  et_received fd error s go_on = some (do_act (close fd) s)
  et_received fd (bytes []) s go_on = go_on (do_act (close fd) s)
  et_received fd (bytes (b ∷ bs)) s go_on = go_on (do_act (print_got (b ∷ bs)) s)

  -- The loop, with the rounds that may be left; `none` is that there is none.
  unfoldable pub et_loop : ℕ → ℕ → Server → Option Server
  unfolding et_received
  et_loop zero fd s = none
  et_loop (suc fuel) fd s =
      let (r, k) = K.recv fd (buffer_size - 1) s.sockets in
      et_received fd r (with_sockets k s) (et_loop fuel fd)

  et_event : ℕ → Event → Server → Option Server
  et_event fuel (on_listenfd connfd) s = some (do_act (addfd connfd true) s)
  et_event fuel (on_readable fd) s = et_loop fuel fd s
  et_event fuel on_other s = some s

  et_next : Option Server → (Server → Option Server) → Option Server
  et_next none go_on = none
  et_next (some s) go_on = go_on s

  unfoldable pub et : ℕ → List Event → Server → Option Server
  unfolding et_event et_next
  et fuel [] s = some s
  et fuel (e ∷ es) s = et_next (et_event fuel e s) (et fuel es)
