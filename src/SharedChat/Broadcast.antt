-- ===== src/SharedChat/Broadcast.antt =====
-- The loops over the users in 13-4 sharedMemory_chatroomServer.cpp: a message to all others, and the
-- end of all children.
use mathlib.Core.Path.{subst}
use mathlib.Core.List.{Memᴰ}
use mathlib.Core.List.Memᴰ
use mathlib.Core.Logic.{⊎_elim}
use you_shuang.Base.{
  ℕ, zero, suc, ◌+◌, ◌≤◌, ◌<◌, ◌≡◌, ◌≢◌, ◌⊎◌, refl, true, false, inl, inr, List, [], ◌∷◌, arith,
  ◌==◌, Bool-cases, if◌then◌else◌, length, load-ok, Returns, Returns-bind, same_or_not,
}
use you_shuang.SharedChat.{
  ClientData, Server, Act, send_number, kill_child, for_users, broadcast, kill_all,
}
use you_shuang.SharedChat.Users.{nobody, at, IsChat}

-- The acts are those for the users from `j` to before `k`.
record Done (act : ClientData → List Act) (users : List ClientData) (j k : ℕ) (acts : List Act)
    : Type 0 where
  each : (a : Act) (i : ℕ) → j ≤ i → i < k → Memᴰ a (act (at users i)) → Memᴰ a acts
  only : (a : Act) → Memᴰ a acts → (i : ℕ) × (j ≤ i) × (i < k) × Memᴰ a (act (at users i))

for_users-Done :
    (act : ClientData → List Act) (n j k : ℕ) (users : List ClientData)
    → j + n ≡ k
    → k ≤ length users
    → Returns (Done act users j k) (for_users act n j users)
unfolding for_users
for_users-Done act zero j k users e h = record {
  each = λ a i p q m. absurd (omega arith);
  only = λ a m. absurd (Memᴰ.not-nil m);
}
for_users-Done act (suc n) j k users e h = rw (load-ok users j nobody (omega arith)) (
    Returns-bind (Done act users (j + 1) k) (Done act users j k) _ _
      (for_users-Done act n (j + 1) k users (omega arith) h)
      (λ rest d. record {
        each = λ a i p q m. elim (same_or_not j i) [
          | inl same ↦ Memᴰ.append_left rest (subst (λ x. Memᴰ a (act (at users x))) same m)
          | inr other ↦ Memᴰ.append_right (act (at users j)) (d.each a i (omega arith) q m)
        ];
        only = λ a m.
            ⊎_elim (λ here. (j, omega arith, omega arith, here))
              (λ there. let (i, p, q, n) = d.only a there in (i, omega arith, q, n))
              (Memᴰ.append_cases (act (at users j)) m);
      }))

-- The number `child` has gone to every user but the one with the pipe `sockfd`, and nothing else
-- has been done.
pub record Sent (s : Server) (sockfd child : ℕ) (t : Server) : Type 0 where
  pub same : t ≡ record s { acts = t.acts }
  pub before : (a : Act) → Memᴰ a s.acts → Memᴰ a t.acts
  pub sent :
      (i : ℕ)
      → i < s.user_count
      → (at s.users i).pipefd.0 ≢ sockfd
      → Memᴰ (send_number (at s.users i).pipefd.0 child) t.acts
  pub only :
      (a : Act)
      → Memᴰ a t.acts
      → Memᴰ a s.acts
        ⊎ ((i : ℕ) × (i < s.user_count)
            × ((at s.users i).pipefd.0 ≢ sockfd)
            × (a ≡ send_number (at s.users i).pipefd.0 child))

-- A message of one child goes to every other user's child, and to no other.
pub broadcast-Sent :
    (s : Server) (sockfd child : ℕ)
    → IsChat s
    → Returns (Sent s sockfd child) (broadcast sockfd child s)
unfolding broadcast
broadcast-Sent s sockfd child v =
    Returns-bind (Done act s.users 0 s.user_count) (Sent s sockfd child) _ _
      (for_users-Done act s.user_count 0 s.user_count s.users (omega arith)
        (omega (arith, v.room, v.size)))
      (λ acts d. record {
        same = refl;
        before = λ a m. Memᴰ.append_left acts m;
        sent = λ i h ne.
            let e : ((at s.users i).pipefd.0 == sockfd) ≡ false = ground arith in
            Memᴰ.append_right s.acts (
              d.each (send_number (at s.users i).pipefd.0 child) i (omega arith) h
                (rw e (Memᴰ.head refl)));
        only = λ a m.
            ⊎_elim inl (λ new. let (i, p, q, n) = d.only a new in inr (from a i q n))
              (Memᴰ.append_cases s.acts m);
      })
  where
    act : ClientData → List Act
    act u = if u.pipefd.0 == sockfd then [] else send_number u.pipefd.0 child ∷ []

    from :
        (a : Act) (i : ℕ)
        → i < s.user_count
        → Memᴰ a (act (at s.users i))
        → (j : ℕ) × (j < s.user_count)
          × ((at s.users j).pipefd.0 ≢ sockfd)
          × (a ≡ send_number (at s.users j).pipefd.0 child)
    from a i h m = elim (Bool-cases ((at s.users i).pipefd.0 == sockfd)) [
      | inl e ↦ absurd (Memᴰ.not-nil (rw e at m))
      | inr e ↦ (i, h, ground arith, Memᴰ.eq_of_singleton (rw e at m))
    ]

-- Every user's child is told to end, and no other; the server will stop when all have.
pub record Killed (s t : Server) : Type 0 where
  pub same : t ≡ record s { terminate = true; acts = t.acts }
  pub told : (i : ℕ) → i < s.user_count → Memᴰ (kill_child (at s.users i).pid) t.acts
  pub only :
      (a : Act)
      → Memᴰ a t.acts
      → Memᴰ a s.acts ⊎ ((i : ℕ) × (i < s.user_count) × (a ≡ kill_child (at s.users i).pid))

pub kill_all-Killed : (s : Server) → IsChat s → Returns (Killed s) (kill_all s)
unfolding kill_all
kill_all-Killed s v =
    Returns-bind (Done (λ u. kill_child u.pid ∷ []) s.users 0 s.user_count) (Killed s) _ _
      (for_users-Done (λ u. kill_child u.pid ∷ []) s.user_count 0 s.user_count s.users (omega arith)
        (omega (arith, v.room, v.size)))
      (λ acts d. record {
        same = refl;
        told = λ i h.
            Memᴰ.append_right s.acts
              (d.each (kill_child (at s.users i).pid) i (omega arith) h (Memᴰ.head refl));
        only = λ a m.
            ⊎_elim inl
              (λ new. let (i, p, q, n) = d.only a new in inr (i, q, Memᴰ.eq_of_singleton n))
              (Memᴰ.append_cases s.acts m);
      })
