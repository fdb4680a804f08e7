-- ===== src/NonactiveConnect/Known.antt =====
-- What is known of a run of 11-3 nonactive_connect.cpp from the events alone.
use mathlib.Core.Option.{some_inj}
use you_shuang.Base.{
  ℕ, ◌≡◌, refl, sym, ap, ◌∙◌, Bool, true, false, ◌&&◌, ◌||◌, inl, inr, List, [], ◌∷◌, ◌++◌, Option,
  none, some, arith, ltb, ◌==◌, Bool-cases, if◌then◌else◌, Run, ok, fault, ◌>>=◌, update, Returns,
}
use you_shuang.Base.Bytes.{again}
use you_shuang.NonactiveConnect.{
  fd_limit, ClientData, Act, addfd, epoll_del, close, alarm, Server, Signal, sigalrm, sigterm,
  other_signal, Event, on_listenfd, on_pipe, on_client, on_other,
}

-- What is left to know of the server: the connections that were accepted, and the head of the list.
pub record Known : Type 0 where
  pub accepted : List ℕ
  pub head : Option ℕ
  pub timeout : Bool
  pub stop : Bool

abbrev pub member : ℕ → List ℕ → Bool
member fd [] = false
member fd (c ∷ cs) = (c == fd) || member fd cs

-- The head is null, or the address of this timer, which new gives a second time.
abbrev pub is_reused : Option ℕ → ℕ → Bool
is_reused none timer = true
is_reused (some p) timer = p == timer

abbrev pub after_signals : List Signal → Known → Known
after_signals [] a = a
after_signals (sigalrm ∷ gs) a = after_signals gs (record a { timeout = true })
after_signals (sigterm ∷ gs) a = after_signals gs (record a { stop = true })
after_signals (other_signal ∷ gs) a = after_signals gs a

-- An event is defined just if it reads no timer of the list: `none` where it does.
abbrev pub after_event : Event → Known → Option Known
after_event (on_listenfd none timer cur) a = none
after_event (on_listenfd (some fd) timer cur) a =
    if ltb fd fd_limit && is_reused a.head timer
    then some (record a { accepted = fd ∷ a.accepted; head = some timer })
    else none
after_event (on_pipe gs) a = some (after_signals gs a)
after_event (on_client fd again cur) a = if member fd a.accepted then some a else none
after_event (on_client fd _ cur) a = none
after_event on_other a = some a

abbrev pub bind : Option Known → (Known → Option Known) → Option Known
bind none f = none
bind (some a) f = f a

abbrev pub after_events : List Event → Known → Option Known
after_events [] a = some a
after_events (e ∷ es) a = bind (after_event e a) (after_events es)

-- Defined where there is no timer in the list.
abbrev pub if_empty : Option ℕ → Known → Option Known
if_empty none a = some a
if_empty (some p) a = none

abbrev pub after_timeout : Known → Option Known
after_timeout a = if a.timeout then if_empty a.head (record a { timeout = false }) else some a

abbrev pub after_rounds : List (Option (List Event × ℕ)) → Known → Option Known
after_rounds [] a = if a.stop then if_empty a.head a else some a
after_rounds (none ∷ rest) a = if_empty a.head a
after_rounds (some (es, cur) ∷ rest) a =
    let round = bind (bind (after_events es a) after_timeout) (after_rounds rest) in
    if a.stop then if_empty a.head a else round

-- No connection is taken out of epoll.
abbrev pub IsQuiet : List Act → Type 0
IsQuiet [] = Unit {0}
IsQuiet (epoll_del e fd ∷ rest) = ⊥
IsQuiet (addfd e fd ∷ rest) = IsQuiet rest
IsQuiet (close fd ∷ rest) = IsQuiet rest
IsQuiet (alarm n ∷ rest) = IsQuiet rest

-- Just the connections that were accepted have data, with a timer.
pub record AreClients (accepted : List ℕ) (users : ℕ → Option ClientData) : Type 0 where
  pub timers : (fd : ℕ) (d : ClientData) → users fd ≡ some d → (t : ℕ) × (d.timer ≡ some t)
  pub here : (fd : ℕ) → member fd accepted ≡ true → (d : ClientData) × (users fd ≡ some d)
  pub gone : (fd : ℕ) → member fd accepted ≡ false → users fd ≡ none

-- Every timer has been deleted, and no connection was closed for being idle.
pub record Undone (a : Known) (s : Server) : Type 0 where
  pub deleted : (p : ℕ) → s.timer_lst.memory p ≡ none
  pub head_is : s.timer_lst.head ≡ a.head
  pub timeout_is : s.timeout ≡ a.timeout
  pub stop_is : s.stop_server ≡ a.stop
  pub clients : AreClients a.accepted s.users
  pub quiet : IsQuiet s.acts

-- The run is undefined, or ends as is known.
abbrev pub Matches : Option Known → Run Server → Type 0
Matches none r = r ≡ fault
Matches (some a) r = Returns (Undone a) r

pub Matches-bind :
    (o : Option Known) (r : Run Server) (f : Known → Option Known) (g : Server → Run Server)
    → Matches o r
    → ((a : Known) (s : Server) → Undone a s → Matches (f a) (g s))
    → Matches (bind o f) (r >>= g)
Matches-bind none r f g m k = rw m refl
Matches-bind (some a) (ok s) f g m k = k a s m
Matches-bind (some a) fault f g m k = absurd m

pub IsQuiet-append : (acts bs : List Act) → IsQuiet acts → IsQuiet bs → IsQuiet (acts ++ bs)
IsQuiet-append [] bs p q = q
IsQuiet-append (epoll_del e fd ∷ rest) bs p q = absurd p
IsQuiet-append (addfd e fd ∷ rest) bs p q = IsQuiet-append rest bs p q
IsQuiet-append (close fd ∷ rest) bs p q = IsQuiet-append rest bs p q
IsQuiet-append (alarm n ∷ rest) bs p q = IsQuiet-append rest bs p q

pub write-AreClients :
    (accepted : List ℕ) (users : ℕ → Option ClientData) (fd t : ℕ) (d : ClientData)
    → AreClients accepted users
    → d.timer ≡ some t
    → AreClients (fd ∷ accepted) (update users fd (some d))
write-AreClients accepted users fd t d v q = record {
  timers = λ x c e. elim (Bool-cases (fd == x)) [
    | inl y ↦
        let z : some d ≡ some c = rw y at e in (t, ap ClientData.timer (sym (some_inj.0 z)) ∙ q)
    | inr n ↦ let z : users x ≡ some c = rw n at e in v.timers x c z
  ];
  here = λ x e. elim (Bool-cases (fd == x)) [
    | inl y ↦ rw y (d, refl)
    | inr n ↦ let z : member x accepted ≡ true = rw n at e in rw n (v.here x z)
  ];
  gone = λ x e. ground (arith, v.gone x);
}

-- One that was accepted already.
pub rewrite-AreClients :
    (accepted : List ℕ) (users : ℕ → Option ClientData) (fd t : ℕ) (d : ClientData)
    → AreClients accepted users
    → member fd accepted ≡ true
    → d.timer ≡ some t
    → AreClients accepted (update users fd (some d))
rewrite-AreClients accepted users fd t d v y q =
    let w = write-AreClients accepted users fd t d v q in
    record {
      timers = w.timers;
      here = λ x e. w.here x (ground (arith, e));
      gone = λ x e. w.gone x (elim (Bool-cases (fd == x)) [
        | inl z ↦
            let same : fd ≡ x = ground arith in
            let y' : member x accepted ≡ true = rw same at y in absurd (ground (arith, e, y'))
        | inr z ↦ ground arith
      ]);
    }
