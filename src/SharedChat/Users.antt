-- ===== src/SharedChat/Users.antt =====
-- The tables of 13-4 sharedMemory_chatroomServer.cpp as users come and leave.
use mathlib.Core.Path.{subst}
use mathlib.Core.List.{Memᴰ}
use mathlib.Core.List.Memᴰ
use you_shuang.Base.{
  ℕ, ◌+◌, ◌-◌, ◌≤◌, ◌<◌, ◌≡◌, ◌≢◌, refl, sym, ap, ◌∙◌, true, false, inl, inr, List, ◌++◌, Option,
  none, some, arith, ltb, leb, ◌==◌, Bool-cases, same_or_not, if◌then◌else◌, update, length, get_or,
  set, get_or-set, length-set, load-ok, store-ok, Returns,
}
use you_shuang.SharedChat.{
  user_limit, process_limit, ClientData, Server, Act, run_child, connect, forked, in_table, reap,
  reap_user, remove_user,
}

abbrev pub nobody : ClientData
nobody = record { connfd = 0; pid = 0; pipefd = (0, 0) }

abbrev pub at : List ClientData → ℕ → ClientData
at users i = get_or users i nobody

-- The users stand in the first places, and the table finds the place of each by its pid.
pub record IsChat (s : Server) : Type 0 where
  pub size : length s.users ≡ user_limit + 1
  pub room : s.user_count ≤ user_limit
  pub small : (i : ℕ) → i < s.user_count → (at s.users i).pid < process_limit
  pub mapped : (i : ℕ) → i < s.user_count → s.sub_process (at s.users i).pid ≡ some i

-- A user has this pid.
abbrev pub IsChild : Server → ℕ → Type 0
IsChild s pid = (i : ℕ) × (i < s.user_count) × ((at s.users i).pid ≡ pid)

pub pids_differ :
    (s : Server)
    → IsChat s
    → (i j : ℕ) → i < s.user_count
    → j < s.user_count
    → (at s.users i).pid ≡ (at s.users j).pid
    → i ≡ j
pids_differ s v i j p q e =
    let z : some i ≡ some j = sym (v.mapped i p) ∙ ap s.sub_process e ∙ v.mapped j q in cc

-- The user with `pid` has left, and the others have stayed.
pub record Left (s : Server) (pid : ℕ) (t : Server) : Type 0 where
  pub valid : IsChat t
  pub count : t.user_count + 1 ≡ s.user_count
  pub gone : (i : ℕ) → i < t.user_count → (at t.users i).pid ≢ pid
  pub stays :
      (i : ℕ)
      → i < s.user_count
      → (at s.users i).pid ≢ pid
      → (j : ℕ) × (j < t.user_count) × (at t.users j ≡ at s.users i)
  pub before : (a : Act) → Memᴰ a s.acts → Memᴰ a t.acts
  pub old :
      (j : ℕ) → j < t.user_count → (i : ℕ) × (i < s.user_count) × (at t.users j ≡ at s.users i)

module _ (s : Server) (v : IsChat s) (d : ℕ) (inside : d < s.user_count) where
  abbrev pid : ℕ
  pid = (at s.users d).pid

  abbrev end : ℕ
  end = s.user_count - 1

  abbrev users' : List ClientData
  users' = set s.users d (at s.users end)

  users'-at : (i : ℕ) → at users' i ≡ (if d == i then at s.users end else at s.users i)
  users'-at i = get_or-set s.users d i (at s.users end) nobody (omega (arith, v.size, v.room))

  abbrev table' : ℕ → Option ℕ
  table' = update (update s.sub_process pid none) (at s.users end).pid (some d)

  removed-Left :
      (acts : List Act)
      → Left s pid (record {
        users = users';
        sub_process = table';
        user_count = end;
        stop_server = s.stop_server;
        terminate = s.terminate;
        acts = s.acts ++ acts;
      })
  removed-Left acts = record {
    valid = record {
      size = length-set s.users d (at s.users end) ∙ v.size;
      room = omega (arith, v.room);
      small = λ i h. ground (arith, users'-at i, v.small i, v.small end);
      mapped = λ i h.
          ground (arith, users'-at i, v.mapped i, pids_differ s v i end, pids_differ s v i d);
    };
    count = omega arith;
    gone = λ i h e. ground (arith, users'-at i, pids_differ s v end d, pids_differ s v i d);
    stays = λ i h ne. elim (same_or_not end i) [
      | inl same ↦ (d, ground (arith, same), ground (arith, users'-at d, same))
      | inr other ↦ (i, omega arith, ground (arith, users'-at i))
    ];
    before = λ a m. Memᴰ.append_left acts m;
    old = λ j h. elim (Bool-cases (d == j)) [
      | inl e ↦ (end, omega arith, rw (users'-at j, e))
      | inr e ↦ (j, omega arith, rw (users'-at j, e))
    ];
  }

  reap_at : Returns (Left s pid) (reap pid s)
  unfolding reap reap_user remove_user in_table
  reap_at =
      let users_at =
        λ (i : ℕ) (h : i < user_limit + 1). load-ok s.users i nobody (omega (arith, v.size)) in
      let below : ltb pid process_limit ≡ true = ground (arith, v.small d) in
      let in_limit : ltb user_limit d ≡ false = ground (arith, v.room) in
      let some_users : (s.user_count == 0) ≡ false = ground arith in
      let last_below : ltb (at s.users end).pid process_limit ≡ true =
        ground (arith, v.small end) in
      rw
        (
          below,
          v.mapped d inside,
          in_limit,
          users_at s.user_count (omega (arith, v.room)),
          users_at d (omega (arith, v.room)),
          some_users,
          users_at end (omega (arith, v.room)),
          store-ok s.users d (at s.users end) (omega (arith, v.size, v.room)),
          last_below,
        )
        (removed-Left _)

-- The user with the pid that waitpid gives leaves, whichever place it has: the others stay, each
-- with its place in the table, and there is one user less.
pub reap-Left : (s : Server) (p : ℕ) → IsChat s → IsChild s p → Returns (Left s p) (reap p s)
reap-Left s p v (d, inside, here) =
    subst (λ x. Returns (Left s x) (reap x s)) here (reap_at s v d inside)

-- A new user has come, behind the others, or has been turned away.
pub record Joined (s : Server) (pid connfd : ℕ) (pipe : ℕ × ℕ) (t : Server) : Type 0 where
  pub valid : IsChat t
  pub count : t.user_count ≡ s.user_count + 1
  pub newcomer : at t.users s.user_count ≡ record { connfd = connfd; pid = pid; pipefd = pipe }
  pub stays : (i : ℕ) → i < s.user_count → at t.users i ≡ at s.users i
  pub before : (a : Act) → Memᴰ a s.acts → Memᴰ a t.acts
  pub told : Memᴰ (run_child pid s.user_count) t.acts

-- A new connection joins where there is room and its child's pid is new: it stands behind the other
-- users, which stay, and the table finds each user.
pub connect-Joined :
    (s : Server) (connfd : ℕ) (pipe : ℕ × ℕ) (pid : ℕ)
    → IsChat s
    → s.user_count < user_limit
    → pid < process_limit
    → ¬ IsChild s pid
    → Returns (Joined s pid connfd pipe) (connect connfd pipe (some pid) s)
unfolding connect forked in_table
connect-Joined s connfd pipe pid v room small new =
    let n = s.user_count in
    let e : leb user_limit n ≡ false = ground arith in
    let first = record (at s.users n) { connfd = connfd; pipefd = pipe } in
    let users1 = set s.users n first in
    let size1 : length users1 ≡ length s.users = length-set s.users n first in
    let here : at users1 n ≡ first = ground (arith, get_or-set s.users n n first nobody, v.size) in
    let users2 = set users1 n (record first { pid = pid }) in
    let users-at : (i : ℕ)
        → at users2 i ≡ (if n == i then record first { pid = pid } else at s.users i) =
      λ i. ground (
        arith,
        get_or-set users1 n i (record first { pid = pid }) nobody,
        get_or-set s.users n i first nobody,
        size1,
        v.size,
      ) in
    let below : ltb pid process_limit ≡ true = ground arith in
    rw
      (
        e,
        load-ok s.users n nobody (omega (arith, v.size)),
        store-ok s.users n first (omega (arith, v.size)),
        load-ok users1 n nobody (omega (arith, v.size, size1)),
        here,
        store-ok users1 n (record first { pid = pid }) (omega (arith, v.size, size1)),
        below,
      )
      (record {
        valid = record {
          size = length-set users1 n (record first { pid = pid }) ∙ size1 ∙ v.size;
          room = omega arith;
          small = λ i h. ground (arith, users-at i, v.small i);
          mapped = λ i h.
              let other : i < n → (at s.users i).pid ≢ pid = λ q f. new (i, q, f) in
              ground (arith, users-at i, v.mapped i, other);
        };
        count = refl;
        newcomer = ground (arith, users-at n);
        stays = λ i h. ground (arith, users-at i);
        before = λ a m. Memᴰ.append_left _ m;
        told = Memᴰ.append_right s.acts (Memᴰ.head refl);
      })
