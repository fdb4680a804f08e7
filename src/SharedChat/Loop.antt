-- ===== src/SharedChat/Loop.antt =====
-- The loop of the parent in 13-4 sharedMemory_chatroomServer.cpp keeps its tables.
use you_shuang.Base.{
  ℕ, ◌≡◌, ◌≢◌, refl, sym, ap, ◌∙◌, true, false, ◌&&◌, inl, inr, List, [], ◌∷◌, Option, none, some,
  arith, leb, ◌==◌, Bool-cases, Run, ok, ◌>>=◌, length, Returns, Returns-map, Returns-bind,
  Returns-inv, Unless, Unless-bind, Unless-Returns, ltb, ◌⊎◌, ◌≤◌, get_or-set, length-set, load-ok,
  store-ok,
}
use you_shuang.SharedChat.{
  user_limit, process_limit, Server, Signal, sigchld, sigterm, sigint, other_signal, Event,
  accept_failed, other_event, accepted, signals, from_child, connect, forked, in_table, reap,
  reap_all, check_stop, kill_all, end_server, on_signal, on_signals, broadcast, on_event, on_events,
  main_loop,
}
use you_shuang.SharedChat.Users.{
  nobody, at, IsChat, IsChild, Left, reap-Left, Joined, connect-Joined,
}
use you_shuang.SharedChat.Broadcast.{Sent, broadcast-Sent, Killed, kill_all-Killed}

abbrev AllOther : ℕ → List ℕ → Type 0
AllOther p [] = Unit {0}
AllOther p (q ∷ ps) = (q ≢ p) × AllOther p ps

-- waitpid gives pids of children of the parent, each once.
abbrev AllChildren : Server → List ℕ → Type 0
AllChildren s [] = Unit {0}
AllChildren s (p ∷ ps) = IsChild s p × AllOther p ps × AllChildren s ps

abbrev IsFairSignal : Server → Signal → Type 0
IsFairSignal s (sigchld pids) = AllChildren s pids
IsFairSignal s _ = Unit {0}

abbrev AreFairSignals : Server → List Signal → Type 0
AreFairSignals s [] = Unit {0}
AreFairSignals s (g ∷ gs) =
    IsFairSignal s g × ((t : Server) → on_signal g s ≡ ok t → AreFairSignals t gs)

-- fork gives a pid that no other child has.
abbrev IsFair : Server → Event → Type 0
IsFair s (accepted connfd pipe (some pid)) = ¬ IsChild s pid
IsFair s (signals gs) = AreFairSignals s gs
IsFair s _ = Unit {0}

-- fork gives a pid behind the table of the children.
abbrev IsBeyond : Event → Type 0
IsBeyond (accepted connfd pipe (some pid)) = process_limit ≤ pid
IsBeyond _ = ⊥

abbrev AreBeyond : List Event → Type 0
AreBeyond [] = ⊥
AreBeyond (e ∷ es) = IsBeyond e ⊎ AreBeyond es

abbrev pub AnyBeyond : List (Option (List Event)) → Type 0
AnyBeyond [] = ⊥
AnyBeyond (none ∷ rest) = ⊥
AnyBeyond (some es ∷ rest) = AreBeyond es ⊎ AnyBeyond rest

abbrev AreFair : Server → List Event → Type 0
AreFair s [] = Unit {0}
AreFair s (e ∷ es) = IsFair s e × ((t : Server) → on_event e s ≡ ok t → AreFair t es)

abbrev pub AllFair : Server → List (Option (List Event)) → Type 0
AllFair s [] = Unit {0}
AllFair s (none ∷ rest) = Unit {0}
AllFair s (some es ∷ rest) = AreFair s es × ((t : Server) → on_events es s ≡ ok t → AllFair t rest)

-- What stays a child when one has left.
AllChildren-Left :
    (s t : Server) (p : ℕ) (ps : List ℕ)
    → Left s p t
    → AllOther p ps
    → AllChildren s ps
    → AllChildren t ps
AllChildren-Left s t p [] l o c = tt
AllChildren-Left s t p (q ∷ ps) l o c =
    let (i, h, e) = c.0 in
    let (j, g, f) = l.stays i h (λ same. o.0 (sym e ∙ same)) in
    ((j, g, ap (λ u. u.pid) f ∙ e), c.1, AllChildren-Left s t p ps l o.1 c.2)

reap_all-IsChat :
    (ps : List ℕ) (s : Server) → IsChat s → AllChildren s ps → Returns IsChat (reap_all ps s)
unfolding reap_all
reap_all-IsChat [] s v c = v
reap_all-IsChat (p ∷ ps) s v c =
    Returns-bind (Left s p) IsChat (reap p s) (reap_all ps) (reap-Left s p v c.0)
      (λ t l. reap_all-IsChat ps t l.valid (AllChildren-Left s t p ps l c.1 c.2))

same-IsChat :
    (s t : Server)
    → t.users ≡ s.users
    → t.sub_process ≡ s.sub_process
    → t.user_count ≡ s.user_count
    → IsChat s
    → IsChat t
same-IsChat s t u p n v = record {
  size = ap length u ∙ v.size;
  room = omega (arith, n, v.room);
  small = λ i h. rw u (v.small i (omega (arith, n)));
  mapped = λ i h. rw (u, p) (v.mapped i (omega (arith, n)));
}

check_stop-IsChat : (s : Server) → IsChat s → IsChat (check_stop s)
unfolding check_stop
check_stop-IsChat s v = elim (Bool-cases (s.terminate && (s.user_count == 0))) [
  | inl e ↦ same-IsChat s (check_stop s) (rw e) (rw e) (rw e) v
  | inr e ↦ rw e v
]

end_server-IsChat : (s : Server) → IsChat s → Returns IsChat (end_server s)
unfolding end_server
end_server-IsChat s v = elim (Bool-cases (s.user_count == 0)) [
  | inl e ↦ rw e (same-IsChat s (record s { stop_server = true }) refl refl refl v)
  | inr e ↦ rw e (
      Returns-map (Killed s) IsChat (kill_all s) (kill_all-Killed s v) (λ t k.
        same-IsChat s t (ap (λ r. r.users) k.same) (ap (λ r. r.sub_process) k.same)
          (ap (λ r. r.user_count) k.same) v))
]

on_signal-IsChat :
    (g : Signal) (s : Server) → IsChat s → IsFairSignal s g → Returns IsChat (on_signal g s)
unfolding on_signal
on_signal-IsChat (sigchld pids) s v f =
    Returns-bind IsChat IsChat (reap_all pids s) _ (reap_all-IsChat pids s v f)
      (λ t w. check_stop-IsChat t w)
on_signal-IsChat sigterm s v f = end_server-IsChat s v
on_signal-IsChat sigint s v f = end_server-IsChat s v
on_signal-IsChat other_signal s v f = v

-- A step that keeps the tables, where what comes after depends on the state that it gives.
module _ {A : Type 0} (step : A → Server → Run Server) (Fair : Server → A → Type 0)
    (keep : (a : A) (s : Server) → IsChat s → Fair s a → Returns IsChat (step a s)) where
  then-IsChat :
      (a : A) (s : Server) (rest : Server → Run Server) (Rest : Server → Type 0)
      → IsChat s
      → Fair s a
      → ((t : Server) → step a s ≡ ok t → Rest t)
      → ((t : Server) → IsChat t → Rest t → Returns IsChat (rest t))
      → Returns IsChat (step a s >>= rest)
  then-IsChat a s rest Rest v f g go =
      let (t, e, w) = Returns-inv IsChat (step a s) (keep a s v f) in rw e (go t w (g t e))

on_signals-IsChat :
    (gs : List Signal) (s : Server)
    → IsChat s
    → AreFairSignals s gs
    → Returns IsChat (on_signals gs s)
unfolding on_signals
on_signals-IsChat [] s v f = v
on_signals-IsChat (g ∷ gs) s v f =
    then-IsChat on_signal IsFairSignal on_signal-IsChat g s (on_signals gs)
      (λ t. AreFairSignals t gs) v f.0 f.1 (λ t w r. on_signals-IsChat gs t w r)

connect-IsChat :
    (connfd : ℕ) (pipe : ℕ × ℕ) (fork : Option ℕ) (s : Server)
    → IsChat s
    → IsFair s (accepted connfd pipe fork)
    → Unless (IsBeyond (accepted connfd pipe fork)) IsChat (connect connfd pipe fork s)
unfolding connect forked in_table
connect-IsChat connfd pipe fork s v f = elim (Bool-cases (leb user_limit s.user_count)) [
  | inl e ↦ rw e (same-IsChat s (record s { acts = _ }) refl refl refl v)
  | inr e ↦ by_fork fork f e
]
  where
    by_fork :
        (fork : Option ℕ)
        → IsFair s (accepted connfd pipe fork)
        → leb user_limit s.user_count ≡ false
        → Unless (IsBeyond (accepted connfd pipe fork)) IsChat (connect connfd pipe fork s)
    by_fork (some pid) f e = elim (Bool-cases (ltb pid process_limit)) [
      | inl y ↦ Unless-Returns (process_limit ≤ pid) IsChat (connect connfd pipe (some pid) s) (
          Returns-map (Joined s pid connfd pipe) IsChat (connect connfd pipe (some pid) s)
            (connect-Joined s connfd pipe pid v (ground arith) (ground arith) f) (λ t j. j.valid))
      | inr y ↦
          let n = s.user_count in
          let first = record (at s.users n) { connfd = connfd; pipefd = pipe } in
          rw
            (
              e,
              load-ok s.users n nobody (omega (arith, v.size, v.room)),
              store-ok s.users n first (omega (arith, v.size, v.room)),
            )
            (simp y (ground arith))
    ]
    by_fork none f e =
        let n = s.user_count in
        let first = record (at s.users n) { connfd = connfd; pipefd = pipe } in
        let other =
          λ (i : ℕ). get_or-set s.users n i first nobody (omega (arith, v.size, v.room)) in
        rw
          (
            e,
            load-ok s.users n nobody (omega (arith, v.size, v.room)),
            store-ok s.users n first (omega (arith, v.size, v.room)),
          )
          (record {
            size = length-set s.users n first ∙ v.size;
            room = v.room;
            small = λ i h. ground (arith, other i, v.small i);
            mapped = λ i h. ground (arith, other i, v.mapped i);
          })

on_event-IsChat :
    (e : Event) (s : Server) → IsChat s → IsFair s e → Unless (IsBeyond e) IsChat (on_event e s)
unfolding on_event
on_event-IsChat accept_failed s v f = v
on_event-IsChat other_event s v f = v
on_event-IsChat (accepted connfd pipe fork) s v f = connect-IsChat connfd pipe fork s v f
on_event-IsChat (signals gs) s v f =
    Unless-Returns ⊥ IsChat (on_signals gs s) (on_signals-IsChat gs s v f)
on_event-IsChat (from_child sockfd none) s v f = v
on_event-IsChat (from_child sockfd (some child)) s v f =
    Unless-Returns ⊥ IsChat (broadcast sockfd child s) (
      Returns-map (Sent s sockfd child) IsChat (broadcast sockfd child s)
        (broadcast-Sent s sockfd child v)
        (λ t k.
          same-IsChat s t (ap (λ r. r.users) k.same) (ap (λ r. r.sub_process) k.same)
            (ap (λ r. r.user_count) k.same) v))

on_events-IsChat :
    (es : List Event) (s : Server)
    → IsChat s
    → AreFair s es
    → Unless (AreBeyond es) IsChat (on_events es s)
unfolding on_events
on_events-IsChat [] s v f = v
on_events-IsChat (e ∷ es) s v f =
    Unless-bind (IsBeyond e) (AreBeyond es) (AreBeyond (e ∷ es)) IsChat IsChat (on_event e s)
      (on_events es) (on_event-IsChat e s v f.0) inl inr
      (λ t go w. on_events-IsChat es t w (f.1 t go))

-- Whatever comes, the parent keeps its tables, and makes an access out of bounds only if fork gives a
-- pid behind the table of the children, which the code does not test: waitpid gives children of the
-- parent, each once, and fork gives pids that no child has.
pub main_loop-IsChat :
    (rounds : List (Option (List Event))) (s : Server)
    → IsChat s
    → AllFair s rounds
    → Unless (AnyBeyond rounds) IsChat (main_loop rounds s)
unfolding main_loop
main_loop-IsChat [] s v f = v
main_loop-IsChat (none ∷ rest) s v f = v
main_loop-IsChat (some es ∷ rest) s v f = elim (Bool-cases s.stop_server) [
  | inl e ↦ simp e v
  | inr e ↦ simp e (
      Unless-bind (AreBeyond es) (AnyBeyond rest) (AnyBeyond (some es ∷ rest)) IsChat IsChat
        (on_events es s) (main_loop rest) (on_events-IsChat es s v f.0) inl inr
        (λ t go w. main_loop-IsChat rest t w (f.1 t go)))
]
