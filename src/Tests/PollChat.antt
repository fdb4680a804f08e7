-- ===== src/Tests/PollChat.antt =====
-- Tests of PollChat.
use mathlib.Core.Option.{some_inj}
use you_shuang.Base.{
  ℕ, zero, suc, ◌<◌, ◌≤◌, ◌≡◌, ◌≢◌, true, [], ◌∷◌, none, some, arith, refl, ap, replicate, length,
  get_or, Returns,
}
use you_shuang.PollChat.{Bits, no_bits, PollFd, Chat, data_of, Given, round, fd_limit, buffer_size}
use you_shuang.PollChat.Table.{no_fd, IsChat, IsFair, at}
use you_shuang.PollChat.Round.{round-IsChat}

abbrev entry : ℕ → PollFd
entry fd = record { fd = fd; events = no_bits; revents = no_bits }

-- The listening descriptor is 3; there are two users.
abbrev two_users : Chat
two_users = record {
  fds = entry 3 ∷ entry 4 ∷ entry 5 ∷ no_fd ∷ no_fd ∷ no_fd ∷ [];
  users = λ fd. record { write_buf = none; buf = replicate buffer_size 0 };
  user_counter = 2;
  acts = [];
}

two_users-IsChat : IsChat 3 two_users
unfolding get_or
two_users-IsChat = record { size = refl; room = omega arith; front = refl; users = users }
  where
    users :
        (i : ℕ)
        → 0 < i
        → i ≤ 2
        → ((at two_users.fds i).fd < fd_limit) × ((at two_users.fds i).fd ≢ 3)
    users zero p q = absurd (omega arith)
    users (suc zero) p q = (omega arith, λ e. omega arith)
    users (suc (suc zero)) p q = (omega arith, λ e. omega arith)
    users (suc (suc (suc i))) p q = absurd (omega arith)

-- A connection comes, and every user has sent two bytes.
abbrev input : ℕ → Bits
input i = record no_bits { pollin = true }

abbrev given : ℕ → Given
given k = record { accepted = some 6; received = data_of (104 ∷ 105 ∷ []) }

given-IsFair : (k : ℕ) → IsFair 3 (given k)
given-IsFair k = record {
  new = λ fd e. let same : 6 ≡ fd = some_inj.0 e in (omega arith, λ z. omega arith);
  within = λ bs e.
      let same : (104 ∷ 105 ∷ []) ≡ bs = cc in
      let n : 2 ≡ length bs = ap length same in omega arith;
}

round-IsChat_example : Returns (IsChat 3) (round 3 input given two_users)
round-IsChat_example = round-IsChat 3 input given two_users refl refl given-IsFair two_users-IsChat
