-- ===== src/PollChat/Table.antt =====
-- The table of descriptors of 9-7 chatroom_server.cpp as users come and leave.
use you_shuang.Base.{
  ℕ, zero, suc, ◌+◌, ◌≤◌, ◌<◌, ◌≡◌, ◌≢◌, refl, sym, ap, ◌∙◌, true, false, ◌⊎◌, inl, inr, List,
  Option, none, some, arith, ltb, leb, ◌==◌, Bool-cases, same_or_not, if◌then◌else◌, length, get_or,
  set, get_or-set, length-set, load-ok, store-ok, Returns, Returns-bind,
}
use you_shuang.PollChat.{
  user_limit, buffer_size, fd_limit, no_bits, PollFd, Chat, Incoming, again, failed, closed,
  data_of, Given, in_users, accept_user, remove_user, notify, receive,
}

abbrev pub no_fd : PollFd
no_fd = record { fd = 0; events = no_bits; revents = no_bits }

abbrev pub at : List PollFd → ℕ → PollFd
at fds i = get_or fds i no_fd

-- The listening descriptor stands in front, and then the users' ones.
pub record IsChat (listenfd : ℕ) (s : Chat) : Type 0 where
  pub size : length s.fds ≡ user_limit + 1
  pub room : s.user_counter ≤ user_limit
  pub front : (at s.fds 0).fd ≡ listenfd
  pub users :
      (i : ℕ)
      → 0 < i
      → i ≤ s.user_counter
      → ((at s.fds i).fd < fd_limit) × ((at s.fds i).fd ≢ listenfd)

-- accept gives new descriptors in the range of the table, and recv no more bytes than it is asked for.
pub record IsFair (listenfd : ℕ) (g : Given) : Type 0 where
  pub new : (fd : ℕ) → g.accepted ≡ some fd → (fd < fd_limit) × (fd ≢ listenfd)
  pub within : (bs : List ℕ) → g.received ≡ data_of bs → length bs < buffer_size

module _ (listenfd : ℕ) where
  -- Other events, revents, users or acts make no difference.
  pub same-IsChat :
      (s t : Chat)
      → t.user_counter ≡ s.user_counter
      → length t.fds ≡ length s.fds
      → ((i : ℕ) → (at t.fds i).fd ≡ (at s.fds i).fd)
      → IsChat listenfd s
      → IsChat listenfd t
  same-IsChat s t n l e v = record {
    size = l ∙ v.size;
    room = omega (arith, n, v.room);
    front = e 0 ∙ v.front;
    users = λ i p q.
        let u = v.users i p (omega (arith, n)) in
        (omega (arith, e i, u.0), λ z. u.1 (sym (e i) ∙ z));
  }

  fd-set :
      (fds : List PollFd) (i : ℕ) (p : PollFd) (j : ℕ)
      → i < length fds
      → (at (set fds i p) j).fd ≡ (if i == j then p.fd else (at fds j).fd)
  fd-set fds i p j h = elim (Bool-cases (i == j)) [
    | inl e ↦
        let z : get_or (set fds i p) j no_fd ≡ p = get_or-set fds i j p no_fd h ∙ rw e refl in
        rw e (ap (λ x. x.fd) z)
    | inr e ↦
        let z : get_or (set fds i p) j no_fd ≡ at fds j =
          get_or-set fds i j p no_fd h ∙ rw e refl in
        rw e (ap (λ x. x.fd) z)
  ]

  -- An entry with the same descriptor.
  pub same-fd :
      (fds : List PollFd) (i : ℕ) (p : PollFd)
      → i < length fds
      → p.fd ≡ (at fds i).fd
      → (j : ℕ) → (at (set fds i p) j).fd ≡ (at fds j).fd
  same-fd fds i p h e j = elim (same_or_not i j) [
    | inl same ↦ ground (arith, fd-set fds i p j h, e, ap (λ x. (at fds x).fd) same)
    | inr other ↦ ground (arith, fd-set fds i p j h)
  ]

  pub accept_user-IsChat :
      (o : Option ℕ) (s : Chat)
      → ((fd : ℕ) → o ≡ some fd → (fd < fd_limit) × (fd ≢ listenfd))
      → IsChat listenfd s
      → Returns (IsChat listenfd) (accept_user o s)
  unfolding accept_user in_users
  accept_user-IsChat none s f v = v
  accept_user-IsChat (some fd) s f v = elim (Bool-cases (leb user_limit s.user_counter)) [
    | inl e ↦ rw e (same-IsChat s (record s { acts = _ }) refl refl (λ i. refl) v)
    | inr e ↦
        let n = s.user_counter + 1 in
        let g = f fd refl in
        let below : ltb fd fd_limit ≡ true = ground (arith, g.0) in
        let inside : n < length s.fds = ground (arith, v.size) in
        let entry : PollFd = record {
          fd = fd;
          events = record { pollin = true; pollout = false; pollerr = true; pollrdhup = true };
          revents = no_bits;
        } in
        rw (e, below, store-ok s.fds n entry inside)
          (record {
            size = length-set s.fds n entry ∙ v.size;
            room = ground arith;
            front = ground (arith, fd-set s.fds n entry 0 inside, v.front);
            users = λ i p q. elim (Bool-cases (n == i)) [
              | inl here ↦
                  let z : (at (set s.fds n entry) i).fd ≡ fd =
                    fd-set s.fds n entry i inside ∙ rw here refl in
                  (omega (arith, z, g.0), λ y. g.1 (sym z ∙ y))
              | inr there ↦
                  let z : (at (set s.fds n entry) i).fd ≡ (at s.fds i).fd =
                    fd-set s.fds n entry i inside ∙ rw there refl in
                  let u = v.users i p (ground arith) in
                  (omega (arith, z, u.0), λ y. u.1 (sym z ∙ y))
            ];
          })
  ]

  pub remove_user-IsChat :
      (i : ℕ) (s : Chat)
      → 0 < i
      → i ≤ s.user_counter
      → IsChat listenfd s
      → Returns (λ t. IsChat listenfd t × (t.user_counter + 1 ≡ s.user_counter)) (remove_user i s)
  unfolding remove_user in_users
  remove_user-IsChat i s p q v =
      let n = s.user_counter in
      let last = at s.fds n in
      let inside : i < length s.fds = omega (arith, v.size, v.room) in
      let ui = v.users i p q in
      let un = v.users n (omega arith) (omega arith) in
      let bi : ltb (at s.fds i).fd fd_limit ≡ true = ground (arith, ui.0) in
      let bn : ltb (at s.fds n).fd fd_limit ≡ true = ground (arith, un.0) in
      let some_users : (n == 0) ≡ false = ground arith in
      rw
        (
          load-ok s.fds i no_fd inside,
          load-ok s.fds n no_fd (omega (arith, v.size, v.room)),
          bi,
          bn,
          store-ok s.fds i last inside,
          some_users,
        )
        (
          record {
            size = length-set s.fds i last ∙ v.size;
            room = omega (arith, v.room);
            front = ground (arith, fd-set s.fds i last 0 inside, v.front);
            users = λ j g h. elim (Bool-cases (i == j)) [
              | inl here ↦
                  let z : (at (set s.fds i last) j).fd ≡ last.fd =
                    fd-set s.fds i last j inside ∙ rw here refl in
                  (omega (arith, z, un.0), λ y. un.1 (sym z ∙ y))
              | inr there ↦
                  let z : (at (set s.fds i last) j).fd ≡ (at s.fds j).fd =
                    fd-set s.fds i last j inside ∙ rw there refl in
                  let u = v.users j g (omega arith) in (omega (arith, z, u.0), λ y. u.1 (sym z ∙ y))
            ];
          },
          omega arith,
        )

  notify-IsChat :
      (connfd n j : ℕ) (s : Chat)
      → 0 < j
      → j + n ≡ s.user_counter + 1
      → IsChat listenfd s
      → Returns (λ t. IsChat listenfd t × (t.user_counter ≡ s.user_counter)) (notify connfd n j s)
  unfolding notify in_users
  notify-IsChat connfd zero j s p q v = (v, refl)
  notify-IsChat connfd (suc n) j s p q v =
      let inside : j < length s.fds = omega (arith, v.size, v.room) in
      let u = v.users j p (omega arith) in
      let b : ltb (at s.fds j).fd fd_limit ≡ true = ground (arith, u.0) in
      rw (load-ok s.fds j no_fd inside, b, store-ok s.fds j _ inside)
        (elim (Bool-cases ((at s.fds j).fd == connfd)) [
          | inl e ↦ rw e (notify-IsChat connfd n (j + 1) s (omega arith) (omega arith) v)
          | inr e ↦ rw e (
              notify-IsChat connfd n (j + 1) _ (omega arith) (omega arith)
                (same-IsChat s _ refl (length-set s.fds j _) (same-fd s.fds j _ inside refl) v))
        ])

  -- A pass at an entry of a user leaves the entry behind, or removes it.
  abbrev pub Passed : ℕ → Chat → Chat × ℕ → Type 0
  Passed i s r =
      IsChat listenfd r.0
      × (((r.1 ≡ i + 1) × (r.0.user_counter ≡ s.user_counter))
          ⊎ ((r.1 ≡ i) × (r.0.user_counter + 1 ≡ s.user_counter)))

  pub receive-Passed :
      (i connfd : ℕ) (r : Incoming) (s : Chat)
      → 0 < i
      → i ≤ s.user_counter
      → ((bs : List ℕ) → r ≡ data_of bs → length bs < buffer_size)
      → IsChat listenfd s
      → Returns (Passed i s) (receive i connfd r s)
  unfolding receive
  receive-Passed i connfd again s p q f v = (v, inl (refl, refl))
  receive-Passed i connfd closed s p q f v = (v, inl (refl, refl))
  receive-Passed i connfd failed s p q f v =
      Returns-bind (λ t. IsChat listenfd t × (t.user_counter + 1 ≡ s.user_counter)) (Passed i s)
        (remove_user i s) _ (remove_user-IsChat i s p q v) (λ t k. (k.0, inr (refl, k.1)))
  receive-Passed i connfd (data_of bs) s p q f v =
      let e : ltb (length bs) buffer_size ≡ true = ground (arith, f bs refl) in
      rw e (
        Returns-bind (λ t. IsChat listenfd t × (t.user_counter ≡ s.user_counter)) (Passed i s)
          (notify connfd s.user_counter 1 _) _
          (notify-IsChat connfd s.user_counter 1 _ (omega arith) (omega arith)
            (same-IsChat s _ refl refl (λ j. refl) v))
          (λ t k. (k.0, inl (refl, k.1))))
