-- ===== src/WebServer/Safe.antt =====
-- What the loop of 15-6 WebServer.cpp keeps.
use you_shuang.Base.{
  ℕ, ◌-◌, ◌≤◌, ◌≡◌, refl, true, false, ◌⊎◌, inl, inr, List, [], ◌∷◌, Option, none, some, arith, ltb,
  Bool-cases, ok, Returns-bind, Unless, Unless-bind, Unless-Returns,
}
use you_shuang.Base.Int.{pos, lebℤ}
use you_shuang.Http.Conn.{HttpConn, read_buffer_size}
use you_shuang.Http.Reading.Fills.{IsWithin}
use you_shuang.Http.Writing.{write}
use you_shuang.Http.Writing.Keeps.{Kept, write-Kept}
use you_shuang.WebServer.{
  max_fd, Server, Event, on_listenfd, on_hangup, on_readable, on_writable, on_other, with_count,
  put, accept_user, handle, handle_all,
}
use you_shuang.WebServer.Counts.{is_open}
use you_shuang.WebServer.Users.{
  IsServer, read-Kept, put-Kept, close_user-IsServer, user-Returns, with_count-IsReading,
  acts-IsServer, init-IsServer,
}

-- users[fd] was initialised.
abbrev pub IsUser : Server → ℕ → (HttpConn → Type 0) → Type 0
IsUser s fd P = (c : HttpConn) × (s.users fd ≡ some c) × P c

-- accept gives a descriptor that is not of an open connection; the events are those of connections
-- that were initialised; and recv gives no more than it is asked for.
abbrev IsFairEvent : Server → Event → Type 0
IsFairEvent s (on_listenfd (some fd)) = is_open (s.users fd) ≡ 0
IsFairEvent s (on_listenfd none) = Unit {0}
IsFairEvent s (on_hangup fd) = IsUser s fd (λ c. Unit {0})
IsFairEvent s (on_readable fd answers) =
    IsUser s fd (λ c. IsWithin (read_buffer_size - c.read_idx) answers)
IsFairEvent s (on_writable fd answers) = IsUser s fd (λ c. Unit {0})
IsFairEvent s on_other = Unit {0}

abbrev pub AllFair : (ℕ → HttpConn) → Server → List Event → Type 0
AllFair garbage s [] = Unit {0}
AllFair garbage s (e ∷ es) =
    IsFairEvent s e
    × ((t : Server) → handle garbage e s ≡ ok t → t.blocked ≡ false → AllFair garbage t es)

-- accept gives a descriptor behind the table of the users.
abbrev IsBeyond : Event → Type 0
IsBeyond (on_listenfd (some fd)) = max_fd ≤ fd
IsBeyond _ = ⊥

abbrev pub AnyBeyond : List Event → Type 0
AnyBeyond [] = ⊥
AnyBeyond (e ∷ es) = IsBeyond e ⊎ AnyBeyond es

accept_user-IsServer :
    (garbage : ℕ → HttpConn) (o : Option ℕ) (s : Server)
    → IsServer s
    → IsFairEvent s (on_listenfd o)
    → Unless (IsBeyond (on_listenfd o)) IsServer (accept_user garbage o s)
unfolding accept_user
accept_user-IsServer garbage none s v f = v
accept_user-IsServer garbage (some fd) s v f = elim (Bool-cases (lebℤ (pos max_fd) s.user_count)) [
  | inl full ↦ simp full (acts-IsServer s _ s.blocked v)
  | inr room ↦ elim (Bool-cases (ltb fd max_fd)) [
    | inl y ↦ simp (room, y) (init-IsServer fd (garbage fd) s v (ground arith) f)
    | inr y ↦ simp (room, y) (ground arith)
  ]
]

handle-IsServer :
    (garbage : ℕ → HttpConn) (e : Event) (s : Server)
    → IsServer s
    → IsFairEvent s e
    → Unless (IsBeyond e) IsServer (handle garbage e s)
unfolding handle
handle-IsServer garbage (on_listenfd o) s v f = accept_user-IsServer garbage o s v f
handle-IsServer garbage (on_hangup fd) s v f =
    let (c, e, u) = f in
    let h = v.bounded fd c e in
    let same : Kept (with_count s.user_count c) (with_count s.user_count c) = record {
      sockfd_same = refl;
      count_same = refl;
      reading = with_count-IsReading s.user_count c (v.reading fd c e);
    } in
    rw (user-Returns fd s c h e) (close_user-IsServer fd c _ s v h e same)
handle-IsServer garbage (on_readable fd answers) s v f =
    let (c, e, w) = f in
    let h = v.bounded fd c e in
    rw (user-Returns fd s c h e) (
      Unless-Returns ⊥ IsServer _ (
        Returns-bind (λ r. Kept (with_count s.user_count c) r.0) IsServer _ _
          (read-Kept (with_count s.user_count c) answers
            (with_count-IsReading s.user_count c (v.reading fd c e)) w)
          (λ r k. elim (Bool-cases r.1) [
            | inl y ↦ simp y (acts-IsServer (put fd r.0 s) _ true (put-Kept fd c r.0 s v h e k))
            | inr n ↦ simp n (close_user-IsServer fd c r.0 s v h e k)
          ])))
handle-IsServer garbage (on_writable fd answers) s v f =
    let (c, e, w) = f in
    let h = v.bounded fd c e in
    let k =
      write-Kept (with_count s.user_count c) answers
        (with_count-IsReading s.user_count c (v.reading fd c e)) in
    rw (user-Returns fd s c h e) (elim (Bool-cases (write (with_count s.user_count c) answers).1) [
      | inl y ↦ rw y (put-Kept fd c _ s v h e k)
      | inr n ↦ rw n (close_user-IsServer fd c _ s v h e k)
    ])
handle-IsServer garbage on_other s v f = v

handle_all-blocked :
    (garbage : ℕ → HttpConn) (es : List Event) (s : Server)
    → IsServer s
    → s.blocked ≡ true
    → Unless (AnyBeyond es) IsServer (handle_all garbage es s)
unfolding handle_all
handle_all-blocked garbage [] s v b = v
handle_all-blocked garbage (e ∷ es) s v b = simp b v

-- The events of a round keep the static count of users the number of connections that are open, and
-- each connection its own descriptor, its place in the table and its indices in order. They make an
-- access out of bounds only if accept gives a descriptor behind the table, which the code does not
-- test. The events are those of connections that were initialised, accept gives none that is open,
-- and recv gives no more than it is asked for. A request that is read ends the round, in append.
pub handle_all-IsServer :
    (garbage : ℕ → HttpConn) (es : List Event) (s : Server)
    → IsServer s
    → AllFair garbage s es
    → s.blocked ≡ false
    → Unless (AnyBeyond es) IsServer (handle_all garbage es s)
unfolding handle_all
handle_all-IsServer garbage [] s v f b = v
handle_all-IsServer garbage (e ∷ es) s v f b = simp b (
    Unless-bind (IsBeyond e) (AnyBeyond es) (AnyBeyond (e ∷ es)) IsServer IsServer
      (handle garbage e s) (handle_all garbage es) (handle-IsServer garbage e s v f.0) inl inr
      (λ t go w. elim (Bool-cases t.blocked) [
        | inl y ↦ handle_all-blocked garbage es t w y
        | inr n ↦ handle_all-IsServer garbage es t w (f.1 t go n) n
      ]))
