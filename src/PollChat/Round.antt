-- ===== src/PollChat/Round.antt =====
-- A round of the chat server of 9-7 chatroom_server.cpp ends and stays in its tables.
use you_shuang.Base.{
  ℕ, zero, suc, ◌+◌, ◌≤◌, ◌<◌, ◌≡◌, refl, ap, ◌∙◌, true, false, inl, inr, List, Option, none, some,
  arith, ltb, ◌==◌, Bool-cases, length, set, get_or-set, length-set, load-ok, store-ok, Returns,
  Returns-map, Returns-bind,
}
use you_shuang.PollChat.{
  user_limit, fd_limit, Bits, PollFd, Chat, Given, in_users, accept_user, remove_user, write_to,
  pass, pass_loop, set_revents, round,
}
use you_shuang.PollChat.Table.{
  no_fd, at, IsChat, IsFair, same-IsChat, same-fd, accept_user-IsChat, remove_user-IsChat, Passed,
  receive-Passed,
}

module _ (listenfd : ℕ) where
  write_to-Passed :
      (i : ℕ) (o : Option ℕ) (s : Chat)
      → i < length s.fds
      → IsChat listenfd s
      → Returns
          (λ t. IsChat listenfd t × (t.user_counter ≡ s.user_counter))
          (write_to i (at s.fds i) o s)
  unfolding write_to
  write_to-Passed i none s h v = (v, refl)
  write_to-Passed i (some q) s h v = rw (store-ok s.fds i _ h) (
    same-IsChat listenfd s _ refl (length-set s.fds i _) (same-fd listenfd s.fds i _ h refl) v,
    refl,
  )

  pass-Passed :
      (g : Given) (i : ℕ) (s : Chat)
      → 0 < i
      → i ≤ s.user_counter
      → IsFair listenfd g
      → IsChat listenfd s
      → Returns (Passed listenfd i s) (pass listenfd g i s)
  unfolding pass in_users
  pass-Passed g i s p q f v =
      let inside : i < length s.fds = omega (arith, v.size, v.room) in
      let u = v.users i p q in
      let below : ltb (at s.fds i).fd fd_limit ≡ true = ground (arith, u.0) in
      let not_listen : ((at s.fds i).fd == listenfd) ≡ false = ground (arith, u.1) in
      let r = (at s.fds i).revents in
      rw (load-ok s.fds i no_fd inside, not_listen, below)
        (elim (Bool-cases r.pollerr) [
          | inl a ↦ simp a (v, inl (refl, refl))
          | inr a ↦ simp a (elim (Bool-cases r.pollrdhup) [
            | inl b ↦ simp b (
                Returns-bind (λ t. IsChat listenfd t × (t.user_counter + 1 ≡ s.user_counter))
                  (Passed listenfd i s) (remove_user i s) _ (remove_user-IsChat listenfd i s p q v)
                  (λ t k. (k.0, inr (refl, k.1))))
            | inr b ↦ simp b (elim (Bool-cases r.pollin) [
              | inl c ↦ simp c (
                  receive-Passed listenfd i (at s.fds i).fd g.received _ p q f.within
                    (same-IsChat listenfd s _ refl refl (λ j. refl) v))
              | inr c ↦ simp c (elim (Bool-cases r.pollout) [
                | inl d ↦ simp d (
                    Returns-bind (λ t. IsChat listenfd t × (t.user_counter ≡ s.user_counter))
                      (Passed listenfd i s) (write_to i (at s.fds i) _ s) _
                      (write_to-Passed i _ s inside v) (λ t k. (k.0, inl (refl, k.1))))
                | inr d ↦ simp d (v, inl (refl, refl))
              ])
            ])
          ])
        ])

  -- The pass of the listening descriptor.
  front-IsChat :
      (g : Given) (s : Chat)
      → (at s.fds 0).revents.pollrdhup ≡ false
      → (at s.fds 0).revents.pollout ≡ false
      → IsFair listenfd g
      → IsChat listenfd s
      → Returns (λ r. IsChat listenfd r.0 × (r.1 ≡ 1)) (pass listenfd g 0 s)
  unfolding pass
  front-IsChat g s b d f v =
      let listen : ((at s.fds 0).fd == listenfd) ≡ true = ground (arith, v.front) in
      let r = (at s.fds 0).revents in
      rw (load-ok s.fds 0 no_fd (omega (arith, v.size)), listen)
        (elim (Bool-cases r.pollin) [
          | inl c ↦ simp c (
              Returns-bind (IsChat listenfd) (λ r. IsChat listenfd r.0 × (r.1 ≡ 1))
                (accept_user g.accepted s) _ (accept_user-IsChat listenfd g.accepted s f.new v)
                (λ t k. (k, refl)))
          | inr c ↦
              simp (c, b, d)
                (elim (Bool-cases r.pollerr) [
                  | inl a ↦ simp a (v, refl)
                  | inr a ↦ simp a (v, refl)
                ])
        ])

  pass_loop-IsChat :
      (given : ℕ → Given) (fuel i : ℕ) (s : Chat)
      → ((k : ℕ) → IsFair listenfd (given k))
      → 0 < i
      → i ≤ s.user_counter + 1
      → s.user_counter + 1 < fuel + i
      → IsChat listenfd s
      → Returns (IsChat listenfd) (pass_loop listenfd given fuel i s)
  unfolding pass_loop
  pass_loop-IsChat given zero i s f p q h v = absurd (omega arith)
  pass_loop-IsChat given (suc fuel) i s f p q h v = elim (Bool-cases (ltb i (s.user_counter + 1))) [
    | inl e ↦ rw e (
        Returns-bind (Passed listenfd i s) (IsChat listenfd) (pass listenfd (given fuel) i s) _
          (pass-Passed (given fuel) i s p (ground arith) (f fuel) v)
          (λ r k. elim k.1 [
            | inl (a, b) ↦
                pass_loop-IsChat given fuel r.1 r.0 f (omega (arith, a)) (ground (arith, a, b))
                  (omega (arith, a, b)) k.0
            | inr (a, b) ↦
                pass_loop-IsChat given fuel r.1 r.0 f (omega (arith, a)) (ground (arith, a, b))
                  (omega (arith, a, b)) k.0
          ]))
    | inr e ↦ rw e v
  ]

  whole-IsChat :
      (given : ℕ → Given) (fuel : ℕ) (s : Chat)
      → (at s.fds 0).revents.pollrdhup ≡ false
      → (at s.fds 0).revents.pollout ≡ false
      → ((k : ℕ) → IsFair listenfd (given k))
      → user_limit < fuel
      → IsChat listenfd s
      → Returns (IsChat listenfd) (pass_loop listenfd given (suc fuel) 0 s)
  unfolding pass_loop
  whole-IsChat given fuel s b d f h v =
      let go : ltb 0 (s.user_counter + 1) ≡ true = ground arith in
      rw go (
        Returns-bind (λ r. IsChat listenfd r.0 × (r.1 ≡ 1)) (IsChat listenfd)
          (pass listenfd (given fuel) 0 s) _ (front-IsChat (given fuel) s b d (f fuel) v)
          (λ r k.
            pass_loop-IsChat given fuel r.1 r.0 f (omega (arith, k.1)) (omega (arith, k.1))
              (omega (arith, k.1, k.0.room)) k.0))

  -- poll has marked the entries from `i`.
  record Marked (bits : ℕ → Bits) (n i : ℕ) (fds f : List PollFd) : Type 0 where
    size : length f ≡ length fds
    same : (j : ℕ) → (at f j).fd ≡ (at fds j).fd
    below : (j : ℕ) → j < i → at f j ≡ at fds j
    here : 0 < n → (at f i).revents ≡ bits i

  set_revents-Marked :
      (bits : ℕ → Bits) (n i : ℕ) (fds : List PollFd)
      → i + n ≤ length fds
      → Returns (Marked bits n i fds) (set_revents bits n i fds)
  unfolding set_revents
  set_revents-Marked bits zero i fds h = record {
    size = refl;
    same = λ j. refl;
    below = λ j g. refl;
    here = λ g. absurd (omega arith);
  }
  set_revents-Marked bits (suc n) i fds h =
      let inside : i < length fds = omega arith in
      let entry : PollFd = record (at fds i) { revents = bits i } in
      let next = set fds i entry in
      rw (load-ok fds i no_fd inside, store-ok fds i entry inside)
        (Returns-map (Marked bits n (i + 1) next) (Marked bits (suc n) i fds)
          (set_revents bits n (i + 1) next)
          (set_revents-Marked bits n (i + 1) next (omega (arith, length-set fds i entry)))
          (λ f m. record {
            size = m.size ∙ length-set fds i entry;
            same = λ j. m.same j ∙ same-fd listenfd fds i entry inside refl j;
            below = λ j g.
                let e : (i == j) ≡ false = ground arith in
                let z : at next j ≡ at fds j = get_or-set fds i j entry no_fd inside ∙ rw e refl in
                m.below j (omega arith) ∙ z;
            here = λ g.
                let e : (i == i) ≡ true = ground arith in
                let z : at next i ≡ entry = get_or-set fds i i entry no_fd inside ∙ rw e refl in
                ap (λ x. x.revents) (m.below i (omega arith) ∙ z);
          }))

-- Whatever poll, accept and recv give, a round of the loop ends, makes no access outside of the
-- tables and keeps the table of descriptors: poll reports no event of the listening descriptor that
-- was not asked for, and accept and recv keep to their contract.
pub round-IsChat :
    (listenfd : ℕ) (bits : ℕ → Bits) (given : ℕ → Given) (s : Chat)
    → (bits 0).pollrdhup ≡ false
    → (bits 0).pollout ≡ false
    → ((k : ℕ) → IsFair listenfd (given k))
    → IsChat listenfd s
    → Returns (IsChat listenfd) (round listenfd bits given s)
unfolding round
round-IsChat listenfd bits given s b d f v =
    Returns-bind (Marked listenfd bits (s.user_counter + 1) 0 s.fds) (IsChat listenfd)
      (set_revents bits (s.user_counter + 1) 0 s.fds) _
      (set_revents-Marked listenfd bits (s.user_counter + 1) 0 s.fds
        (omega (arith, v.size, v.room)))
      (λ fds m.
        let t = record s { fds = fds } in
        let w = same-IsChat listenfd s t refl m.size m.same v in
        let here = m.here (omega arith) in
        whole-IsChat listenfd given 6 t (ap (λ x. x.pollrdhup) here ∙ b)
          (ap (λ x. x.pollout) here ∙ d) f (omega arith) w)
