-- ===== src/Tests/SharedChat.antt =====
-- Tests of SharedChat.
use mathlib.Core.List.{Memᴰ}
use you_shuang.Base.{
  ℕ, zero, suc, ◌+◌, ◌<◌, ◌≢◌, false, [], ◌∷◌, none, some, arith, refl, ◌>>=◌, Returns, Unless,
  get_or, ◌==◌, if◌then◌else◌,
}
use you_shuang.SharedChat.{ClientData, Server, run_child, accepted, connect, reap, main_loop}
use you_shuang.Base.{◌*◌, replicate, length-replicate}
use you_shuang.SharedChat.{user_limit}
use you_shuang.SharedChat.Child.{
  buffer_size, Child, data_of, from_client, from_parent, run_child_loop,
}
use you_shuang.SharedChat.Child.Memory.{Kept, run_child_loop-Kept}
use you_shuang.SharedChat.Users.{nobody, at, IsChat, IsChild}
use you_shuang.SharedChat.Loop.{AnyBeyond, main_loop-IsChat}
use you_shuang.SharedChat.Slots.{slot_clash}

abbrev user : ℕ → ClientData
user n = record { connfd = n; pid = 100 + n; pipefd = (10 + n, 20 + n) }

-- Three users, whose children have the pids 100, 101 and 102.
abbrev three : Server
three = record {
  users = user 0 ∷ user 1 ∷ user 2 ∷ nobody ∷ nobody ∷ nobody ∷ [];
  sub_process = λ p.
      if p == 100 then some 0 else if p == 101 then some 1 else if p == 102 then some 2 else none;
  user_count = 3;
  stop_server = false;
  terminate = false;
  acts = run_child 102 2 ∷ [];
}

three-cases : (P : ℕ → Type 0) → P 0 → P 1 → P 2 → (i : ℕ) → i < 3 → P i
three-cases P a b c zero h = a
three-cases P a b c (suc zero) h = b
three-cases P a b c (suc (suc zero)) h = c
three-cases P a b c (suc (suc (suc i))) h = absurd (omega arith)

three-IsChat : IsChat three
unfolding get_or
three-IsChat = record {
  size = refl;
  room = omega arith;
  small = three-cases _ (omega arith) (omega arith) (omega arith);
  mapped = three-cases _ refl refl refl;
}

new_pid : ¬ IsChild three 200
unfolding get_or
new_pid (i, h, e) =
    let each : (i : ℕ) → i < 3 → (at three.users i).pid ≢ 200 =
      three-cases _ (λ e. omega arith) (λ e. omega arith) (λ e. omega arith) in
    each i h e

main_loop-IsChat_example :
    Unless
      (AnyBeyond (some (accepted 7 (8, 9) (some 200) ∷ []) ∷ none ∷ []))
      IsChat
      (main_loop (some (accepted 7 (8, 9) (some 200) ∷ []) ∷ none ∷ []) three)
main_loop-IsChat_example =
    main_loop-IsChat (some (accepted 7 (8, 9) (some 200) ∷ []) ∷ none ∷ []) three three-IsChat
      ((new_pid, λ t e. tt), λ t e. tt)

slot_clash_example :
    Returns
      (λ t.
        IsChild t 102
        × IsChild t 200
        × Memᴰ (run_child 102 2) t.acts
        × Memᴰ (run_child 200 2) t.acts)
      (reap 100 three >>= connect 7 (8, 9) (some 200))
unfolding get_or
slot_clash_example =
    slot_clash three 0 7 (8, 9) 200 three-IsChat (omega arith) (omega arith) new_pid
      (Memᴰ.head refl)

abbrev child : Child
child = record { share_mem = replicate (user_limit * buffer_size) 0; stop_child = false; sent = [] }

-- The client of the user 2 sends two bytes, the parent tells of the user 4, and epoll_wait fails.
run_child_loop-Kept_example : Returns (Kept 2 child) (
    run_child_loop 2
      (some (from_client (data_of (104 ∷ 105 ∷ [])) ∷ from_parent (data_of 4) ∷ []) ∷ none ∷ [])
      child)
run_child_loop-Kept_example =
    run_child_loop-Kept 2
      (some (from_client (data_of (104 ∷ 105 ∷ [])) ∷ from_parent (data_of 4) ∷ []) ∷ none ∷ [])
      child (omega arith) (length-replicate {A = ℕ} (user_limit * buffer_size) 0)
      ((omega arith, (omega arith, tt)), tt)
