-- ===== src/SharedChat/Child.antt =====
-- 13-4 sharedMemory_chatroomServer.cpp: run_child, the loop of the child process of a user.
pub mod Memory
use you_shuang.Base.{
  ℕ, zero, suc, ◌+◌, ◌-◌, ◌*◌, Bool, true, false, List, [], ◌∷◌, ◌++◌, Option, none, some, leb,
  if◌then◌else◌, Run, ok, fault, ◌>>=◌, length, replicate, take, drop,
}
use you_shuang.Base.Bytes.{overwrite}
use you_shuang.SharedChat.{user_limit}

abbrev pub buffer_size : ℕ
buffer_size = 1024

-- What a child sends: its number to the parent, or bytes to its client.
pub data Sending : Type 0 where
  to_parent : ℕ → Sending
  to_client : List ℕ → Sending

-- `share_mem` is the memory that all children share.
pub record Child : Type 0 where
  pub share_mem : List ℕ
  pub stop_child : Bool
  pub sent : List Sending

-- What recv gives: EAGAIN, another error, or data, which is none at the end of the connection.
pub data Incoming (A : Type 0) : Type 0 where
  again failed closed : Incoming A
  data_of : A → Incoming A

-- An event of epoll_wait: for the connection, for the pipe, or another.
pub data ChildEvent : Type 0 where
  from_client : Incoming (List ℕ) → ChildEvent
  from_parent : Incoming ℕ → ChildEvent
  unknown : ChildEvent

-- memset and recv write into the memory, which has room for them.
write_at : ℕ → List ℕ → Child → Run Child
write_at at bs c =
    if leb (at + length bs) (length c.share_mem)
    then ok (record c { share_mem = overwrite c.share_mem at bs })
    else fault

-- recv gives no more bytes than it is asked for, or breaks its contract.
receive : ℕ → Incoming (List ℕ) → Child → Run Child
receive idx again c = ok c
receive idx failed c = ok (record c { stop_child = true })
receive idx closed c = ok (record c { stop_child = true })
receive idx (data_of bs) c =
    let write = (do
      d ← write_at (idx * buffer_size) bs c
      ok (record d { sent = d.sent ++ (to_parent idx ∷ []) })) in
    if leb (length bs) (buffer_size - 1) then write else fault

-- The bytes of the memory for the client with this number are sent.
forward : Incoming ℕ → Child → Run Child
forward again c = ok c
forward failed c = ok (record c { stop_child = true })
forward closed c = ok (record c { stop_child = true })
forward (data_of client) c =
    if leb (client * buffer_size + buffer_size) (length c.share_mem)
    then ok (record c {
      sent =
          c.sent ++ (to_client (take buffer_size (drop (client * buffer_size) c.share_mem)) ∷ []);
    })
    else fault

child_event : ℕ → ChildEvent → Child → Run Child
child_event idx (from_client r) c =
    write_at (idx * buffer_size) (replicate buffer_size 0) c >>= receive idx r
child_event idx (from_parent r) c = forward r c
child_event idx unknown c = ok c

child_events : ℕ → List ChildEvent → Child → Run Child
child_events idx [] c = ok c
child_events idx (e ∷ es) c = child_event idx e c >>= child_events idx es

-- The loop over what epoll_wait gives, where `none` is a failure; behind the last it waits.
unfoldable pub run_child_loop : ℕ → List (Option (List ChildEvent)) → Child → Run Child
unfolding child_events child_event write_at receive forward
run_child_loop idx [] c = ok c
run_child_loop idx (none ∷ rest) c = ok c
run_child_loop idx (some es ∷ rest) c =
    let round = child_events idx es c >>= run_child_loop idx rest in
    if c.stop_child then ok c else round
