-- ===== src/SharedChat/Child/Memory.antt =====
-- What a child of 13-4 sharedMemory_chatroomServer.cpp does to the shared memory.
use you_shuang.Base.{
  ℕ, ◌+◌, ◌-◌, ◌*◌, ◌≤◌, ◌<◌, ◌≡◌, ◌⊎◌, refl, ap, ◌∙◌, true, inl, inr, List, [], ◌∷◌, Option, none,
  some, arith, leb, Bool-cases, length, length-replicate, replicate, get_or, Returns, Returns-map,
  Returns-bind,
}
use you_shuang.Base.Bytes.{length-overwrite, get_or-overwrite}
use you_shuang.SharedChat.{user_limit}
use you_shuang.SharedChat.Child.{
  buffer_size, Child, Incoming, again, failed, closed, data_of, ChildEvent, from_client,
  from_parent, unknown, write_at, receive, forward, child_event, child_events, run_child_loop,
}

-- recv keeps to its room, and the parent sends numbers of users.
abbrev IsFairEvent : ChildEvent → Type 0
IsFairEvent (from_client (data_of bs)) = length bs < buffer_size
IsFairEvent (from_parent (data_of client)) = client < user_limit
IsFairEvent _ = Unit {0}

abbrev AreFairEvents : List ChildEvent → Type 0
AreFairEvents [] = Unit {0}
AreFairEvents (e ∷ es) = IsFairEvent e × AreFairEvents es

abbrev pub AreFairRounds : List (Option (List ChildEvent)) → Type 0
AreFairRounds [] = Unit {0}
AreFairRounds (none ∷ rest) = Unit {0}
AreFairRounds (some es ∷ rest) = AreFairEvents es × AreFairRounds rest

-- The memory has a part for each user, and the child has changed its own part only.
pub record Kept (idx : ℕ) (c d : Child) : Type 0 where
  pub size : length d.share_mem ≡ user_limit * buffer_size
  pub same :
      (i : ℕ)
      → (i < idx * buffer_size) ⊎ (idx * buffer_size + buffer_size ≤ i)
      → get_or d.share_mem i 0 ≡ get_or c.share_mem i 0

module _ (idx : ℕ) (inside : idx < user_limit) where
  Kept-trans : (a b c : Child) → Kept idx a b → Kept idx b c → Kept idx a c
  Kept-trans a b c p q = record { size = q.size; same = λ i h. q.same i h ∙ p.same i h }

  write_at-Kept :
      (bs : List ℕ) (c : Child)
      → length c.share_mem ≡ user_limit * buffer_size
      → length bs ≤ buffer_size
      → Returns (Kept idx c) (write_at (idx * buffer_size) bs c)
  unfolding write_at
  write_at-Kept bs c v h =
      let fits : idx * buffer_size + length bs ≤ length c.share_mem = omega (arith, v) in
      let e : leb (idx * buffer_size + length bs) (length c.share_mem) ≡ true = ground arith in
      rw e (record {
        size = length-overwrite c.share_mem (idx * buffer_size) bs ∙ v;
        same = λ i out.
            get_or-overwrite c.share_mem (idx * buffer_size) bs i 0 fits
              (elim out [ inl below ↦ inl below | inr above ↦ inr (omega (arith, above)) ]);
      })

  unchanged :
      (c d : Child)
      → length c.share_mem ≡ user_limit * buffer_size
      → d.share_mem ≡ c.share_mem
      → Kept idx c d
  unchanged c d v e = record { size = ap length e ∙ v; same = λ i out. ap (λ m. get_or m i 0) e }

  receive-Kept :
      (r : Incoming (List ℕ)) (c : Child)
      → length c.share_mem ≡ user_limit * buffer_size
      → IsFairEvent (from_client r)
      → Returns (Kept idx c) (receive idx r c)
  unfolding receive
  receive-Kept again c v f = unchanged c c v refl
  receive-Kept failed c v f = unchanged c (record c { stop_child = true }) v refl
  receive-Kept closed c v f = unchanged c (record c { stop_child = true }) v refl
  receive-Kept (data_of bs) c v f =
      let e : leb (length bs) (buffer_size - 1) ≡ true = ground (arith, f) in
      rw e (
        Returns-bind (Kept idx c) (Kept idx c) (write_at (idx * buffer_size) bs c) _
          (write_at-Kept bs c v (omega (arith, f)))
          (λ d k. record { size = k.size; same = k.same }))

  forward-Kept :
      (r : Incoming ℕ) (c : Child)
      → length c.share_mem ≡ user_limit * buffer_size
      → IsFairEvent (from_parent r)
      → Returns (Kept idx c) (forward r c)
  unfolding forward
  forward-Kept again c v f = unchanged c c v refl
  forward-Kept failed c v f = unchanged c (record c { stop_child = true }) v refl
  forward-Kept closed c v f = unchanged c (record c { stop_child = true }) v refl
  forward-Kept (data_of client) c v f =
      let e : leb (client * buffer_size + buffer_size) (length c.share_mem) ≡ true =
        ground (arith, f, v) in
      rw e (unchanged c (record c { sent = _ }) v refl)

  child_event-Kept :
      (e : ChildEvent) (c : Child)
      → length c.share_mem ≡ user_limit * buffer_size
      → IsFairEvent e
      → Returns (Kept idx c) (child_event idx e c)
  unfolding child_event
  child_event-Kept (from_client r) c v f =
      Returns-bind (Kept idx c) (Kept idx c)
        (write_at (idx * buffer_size) (replicate buffer_size 0) c) (receive idx r)
        (write_at-Kept (replicate buffer_size 0) c v
          (omega (arith, length-replicate {A = ℕ} buffer_size 0)))
        (λ d k.
          Returns-map (Kept idx d) (Kept idx c) (receive idx r d) (receive-Kept r d k.size f)
            (λ x q. Kept-trans c d x k q))
  child_event-Kept (from_parent r) c v f = forward-Kept r c v f
  child_event-Kept unknown c v f = unchanged c c v refl

  child_events-Kept :
      (es : List ChildEvent) (c : Child)
      → length c.share_mem ≡ user_limit * buffer_size
      → AreFairEvents es
      → Returns (Kept idx c) (child_events idx es c)
  unfolding child_events
  child_events-Kept [] c v f = unchanged c c v refl
  child_events-Kept (e ∷ es) c v f =
      Returns-bind (Kept idx c) (Kept idx c) (child_event idx e c) (child_events idx es)
        (child_event-Kept e c v f.0)
        (λ d k.
          Returns-map (Kept idx d) (Kept idx c) (child_events idx es d)
            (child_events-Kept es d k.size f.1) (λ x q. Kept-trans c d x k q))

-- Whatever comes, where recv keeps to its room and the parent sends numbers of users, a child makes
-- no access outside the shared memory, and changes nothing in it but the part of its own number.
pub run_child_loop-Kept :
    (idx : ℕ) (rounds : List (Option (List ChildEvent))) (c : Child)
    → idx < user_limit
    → length c.share_mem ≡ user_limit * buffer_size
    → AreFairRounds rounds
    → Returns (Kept idx c) (run_child_loop idx rounds c)
unfolding run_child_loop
run_child_loop-Kept idx [] c inside v f = unchanged idx inside c c v refl
run_child_loop-Kept idx (none ∷ rest) c inside v f = unchanged idx inside c c v refl
run_child_loop-Kept idx (some es ∷ rest) c inside v f = elim (Bool-cases c.stop_child) [
  | inl e ↦ simp e (unchanged idx inside c c v refl)
  | inr e ↦ simp e (
      Returns-bind (Kept idx c) (Kept idx c) (child_events idx es c) (run_child_loop idx rest)
        (child_events-Kept idx inside es c v f.0)
        (λ d k.
          Returns-map (Kept idx d) (Kept idx c) (run_child_loop idx rest d)
            (run_child_loop-Kept idx rest d inside k.size f.1)
            (λ x q. Kept-trans idx inside c d x k q)))
]
