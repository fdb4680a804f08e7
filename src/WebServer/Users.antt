-- ===== src/WebServer/Users.antt =====
-- The connections of 15-6 WebServer.cpp, and the count of them.
use mathlib.Core.Option.{some_inj, some-ne-none}
use mathlib.Core.Path.{subst}
use you_shuang.Base.{
  ℕ, ◌+◌, ◌-◌, ◌≤◌, ◌<◌, ◌≡◌, refl, sym, ap, ◌∙◌, Bool, true, inl, inr, List, none, some, arith,
  ltb, leb, ◌==◌, Bool-cases, Option-cases, ok, length-replicate, Returns, Returns-map,
}
use you_shuang.Base.Int.{ℤ, pos, negsuc, ◌+ℤ◌}
use you_shuang.Base.Bytes.{Received}
use you_shuang.Http.Conn.{HttpConn, read_buffer_size, init, close_conn}
use you_shuang.Http.Reading.{read}
use you_shuang.Http.Reading.Terminates.{IsReading}
use you_shuang.Http.Reading.Fills.{IsWithin, Filled, read-Filled}
use you_shuang.Http.Writing.Keeps.{Kept}
use you_shuang.WebServer.{max_fd, Act, Server, with_count, put, user, close_user}
use you_shuang.WebServer.Counts.{socket_count, is_open, open_count, open_count-update}

-- The count of users is that of the connections that are open; each object that was initialised has
-- its own descriptor, or none, its indices are in order, and it has a place in the table.
pub record IsServer (s : Server) : Type 0 where
  pub counted : s.user_count ≡ pos (open_count s.users max_fd)
  pub own : (fd : ℕ) (c : HttpConn) → s.users fd ≡ some c → (x : ℕ) → c.sockfd ≡ some x → x ≡ fd
  pub reading : (fd : ℕ) (c : HttpConn) → s.users fd ≡ some c → IsReading c
  pub bounded : (fd : ℕ) (c : HttpConn) → s.users fd ≡ some c → fd < max_fd

pub read-Kept :
    (c : HttpConn) (answers : List Received)
    → IsReading c
    → IsWithin (read_buffer_size - c.read_idx) answers
    → Returns (λ r. Kept c r.0) (read c answers)
unfolding read
read-Kept c answers v w = elim (Bool-cases (leb read_buffer_size c.read_idx)) [
  | inl full ↦ rw full (record { sockfd_same = refl; count_same = refl; reading = v })
  | inr room ↦
      Returns-map (Filled c answers) (λ r. Kept c r.0) (read c answers)
        (read-Filled c answers v (ground arith) w)
        (λ r f. record {
          sockfd_same = f.others_same.0;
          count_same = f.others_same.1;
          reading = f.valid;
        })
]

-- An object is written, and the count with it.
put-IsServer :
    (fd m : ℕ) (c : HttpConn) (s : Server)
    → IsServer s
    → fd < max_fd
    → IsReading c
    → ((x : ℕ) → c.sockfd ≡ some x → x ≡ fd)
    → c.user_count ≡ pos m
    → m + is_open (s.users fd) ≡ open_count s.users max_fd + socket_count c.sockfd
    → IsServer (put fd c s)
put-IsServer fd m c s v h r o e n = record {
  counted = e ∙ ap pos (omega (arith, n, open_count-update s.users fd max_fd (some c) h));
  own = λ x d z. elim (Bool-cases (fd == x)) [
    | inl y ↦
        let w : some c ≡ some d = rw y at z in
        let same : fd ≡ x = ground arith in
        λ a b. o a (ap HttpConn.sockfd (some_inj.0 w) ∙ b) ∙ same
    | inr y ↦ let w : s.users x ≡ some d = rw y at z in v.own x d w
  ];
  reading = λ x d z. elim (Bool-cases (fd == x)) [
    | inl y ↦ let w : some c ≡ some d = rw y at z in subst IsReading (some_inj.0 w) r
    | inr y ↦ let w : s.users x ≡ some d = rw y at z in v.reading x d w
  ];
  bounded = λ x d z. elim (Bool-cases (fd == x)) [
    | inl y ↦ let same : fd ≡ x = ground arith in omega arith
    | inr y ↦ let w : s.users x ≡ some d = rw y at z in v.bounded x d w
  ];
}

-- A member that leaves the descriptor and the count alone, at users[fd].
pub put-Kept :
    (fd : ℕ) (c d : HttpConn) (s : Server)
    → IsServer s
    → fd < max_fd
    → s.users fd ≡ some c
    → Kept (with_count s.user_count c) d
    → IsServer (put fd d s)
put-Kept fd c d s v h e k =
    put-IsServer fd (open_count s.users max_fd) d s v h k.reading
      (λ x z. v.own fd c e x (sym k.sockfd_same ∙ z)) (k.count_same ∙ v.counted)
      (ap (λ o. open_count s.users max_fd + is_open o) e
        ∙ ap (λ o. open_count s.users max_fd + socket_count o) (sym k.sockfd_same))

decrease : (n : ℕ) → 1 ≤ n → pos n +ℤ negsuc 0 ≡ pos (n - 1)
decrease n h = let e : leb 1 (n + 0) ≡ true = ground arith in rw e (ap pos (omega arith))

pub close_user-IsServer :
    (fd : ℕ) (c d : HttpConn) (s : Server)
    → IsServer s
    → fd < max_fd
    → s.users fd ≡ some c
    → Kept (with_count s.user_count c) d
    → IsServer (close_user fd d s)
unfolding close_user close_conn
close_user-IsServer fd c d s v h e k = elim (Option-cases d.sockfd) [
  | inl z ↦ simp z (put-Kept fd c d s v h e k)
  | inr (x, z) ↦
      let n = open_count s.users max_fd in
      let one : is_open (s.users fd) ≡ 1 = ap is_open e ∙ ap socket_count (sym k.sockfd_same ∙ z) in
      let some_open : 1 ≤ n = omega (arith, one, open_count-update s.users fd max_fd none h) in
      let less : d.user_count +ℤ negsuc 0 ≡ pos (n - 1) =
        ap (λ u. u +ℤ negsuc 0) (k.count_same ∙ v.counted) ∙ decrease n some_open in
      simp z (
        put-IsServer fd (n - 1) _ s v h
          (record {
            size = k.reading.size;
            line_le = k.reading.line_le;
            checked_le = k.reading.checked_le;
            filled = k.reading.filled;
          })
          (λ a b. absurd (some-ne-none a (sym b))) less (omega (arith, one, some_open)))
]

pub user-Returns :
    (fd : ℕ) (s : Server) (c : HttpConn)
    → fd < max_fd
    → s.users fd ≡ some c
    → user fd s ≡ ok (with_count s.user_count c)
unfolding user
user-Returns fd s c h e = let y : ltb fd max_fd ≡ true = ground arith in simp (y, e) refl

pub with_count-IsReading : (n : ℤ) (c : HttpConn) → IsReading c → IsReading (with_count n c)
with_count-IsReading n c v = record {
  size = v.size;
  line_le = v.line_le;
  checked_le = v.checked_le;
  filled = v.filled;
}

pub acts-IsServer :
    (s : Server) (acts : List Act) (blocked : Bool)
    → IsServer s
    → IsServer (record s { acts = acts; blocked = blocked })
acts-IsServer s acts blocked v = record {
  counted = v.counted;
  own = v.own;
  reading = v.reading;
  bounded = v.bounded;
}

increase : (n : ℕ) → pos n +ℤ pos 1 ≡ pos (n + 1)
increase n = let e : leb 0 (n + 1) ≡ true = ground arith in rw e (ap pos (omega arith))

-- A new connection has its descriptor, and is counted.
pub init-IsServer :
    (fd : ℕ) (c : HttpConn) (s : Server)
    → IsServer s
    → fd < max_fd
    → is_open (s.users fd) ≡ 0
    → IsServer (put fd (init (with_count s.user_count c) fd) s)
unfolding init
init-IsServer fd c s v h z =
    let n = open_count s.users max_fd in
    put-IsServer fd (n + 1) _ s v h
      (record {
        size = length-replicate {A = ℕ} read_buffer_size 0;
        line_le = omega arith;
        checked_le = omega arith;
        filled = omega arith;
      })
      (λ x e. sym (some_inj.0 e)) (ap (λ u. u +ℤ pos 1) v.counted ∙ increase n) (omega (arith, z))
