-- ===== src/NonactiveConnect/Clients.antt =====
-- What 11-3 nonactive_connect.cpp does for its clients when the timers of its list are deleted.
use you_shuang.Base.{
  ℕ, ◌+◌, ◌<◌, ◌≡◌, ◌≢◌, refl, true, false, inl, inr, [], ◌∷◌, Option, none, some, arith, ltb, ◌==◌,
  Bool-cases, Option-cases, length, fault, Returns-bind,
}
use you_shuang.Base.Bytes.{Received, again, error, bytes}
use you_shuang.Nodes.{delete}
use you_shuang.NonactiveConnect.{
  fd_limit, cb_func_pointer, ClientData, addfd, Opened, Server, on_listenfd, on_client, cb_func,
  accept_client, close_client, put_off, on_data,
}
use you_shuang.NonactiveConnect.Known.{
  Known, member, is_reused, after_event, Undone, Matches, IsQuiet-append, write-AreClients,
  rewrite-AreClients,
}
use you_shuang.NonactiveConnect.Gone.{
  at-Gone, del_timer-Gone, AtHead, add_timer-AtHead, add_timer-Gone,
}

close_client-Gone :
    (fd t : ℕ) (s : Server)
    → ((p : ℕ) → s.timer_lst.memory p ≡ none)
    → close_client fd (some t) s ≡ fault
unfolding close_client cb_func
close_client-Gone fd t s h = elim (Option-cases (s.users fd)) [
  | inl e ↦ simp e refl
  | inr (d, e) ↦ simp (e, del_timer-Gone s.timer_lst t h) refl
]

put_off-Gone :
    (fuel cur t : ℕ) (s : Server)
    → ((p : ℕ) → s.timer_lst.memory p ≡ none)
    → put_off fuel cur (some t) s ≡ fault
unfolding put_off
put_off-Gone fuel cur t s h = rw (at-Gone s.timer_lst.memory h (some t)) refl

-- The data of a connection, where it is not that none is there yet, reads its timer.
pub on_data-Gone :
    (fuel fd cur : ℕ) (got : Received) (a : Known) (s : Server)
    → Undone a s
    → got ≢ again
    → on_data fuel fd got cur s ≡ fault
unfolding on_data
on_data-Gone fuel fd cur got a s v n = elim (Option-cases (s.users fd)) [
  | inl e ↦ simp e refl
  | inr (d, e) ↦ let (t, q) = v.clients.timers fd d e in of_got got d e t q n
]
  where
    of_got :
        (got : Received) (d : ClientData)
        → s.users fd ≡ some d
        → (t : ℕ) → d.timer ≡ some t
        → got ≢ again
        → on_data fuel fd got cur s ≡ fault
    of_got again d e t q n = absurd (n refl)
    of_got error d e t q n = simp (e, q) (close_client-Gone fd t _ v.deleted)
    of_got (bytes []) d e t q n = simp (e, q) (close_client-Gone fd t _ v.deleted)
    of_got (bytes (b ∷ cs)) d e t q n = elim (Bool-cases (ltb (length (b ∷ cs)) 64)) [
      | inl z ↦ simp (e, q, z) (put_off-Gone fuel cur t _ v.deleted)
      | inr z ↦ simp (e, z) refl
    ]

pub on_data-Again :
    (fuel fd cur : ℕ) (a : Known) (s : Server)
    → Undone a s
    → Matches (after_event (on_client fd again cur) a) (on_data fuel fd again cur s)
unfolding on_data
on_data-Again fuel fd cur a s v = elim (Bool-cases (member fd a.accepted)) [
  | inl y ↦
      let (d, e) = v.clients.here fd y in
      simp (y, e)
        (record {
          deleted = v.deleted;
          head_is = v.head_is;
          timeout_is = v.timeout_is;
          stop_is = v.stop_is;
          clients =
              rewrite-AreClients a.accepted s.users fd (v.clients.timers fd d e).0 _ v.clients y
                (v.clients.timers fd d e).1;
          quiet = v.quiet;
        })
  | inr n ↦ let e = v.clients.gone fd n in simp (n, e) refl
]

pub accept_client-Matches :
    (fuel timer cur : ℕ) (o : Opened) (accepted : Option ℕ) (a : Known) (s : Server)
    → Undone a s
    → 0 < fuel
    → Matches
        (after_event (on_listenfd accepted timer cur) a)
        (accept_client fuel o accepted timer cur s)
unfolding accept_client delete
accept_client-Matches fuel timer cur o none a s v f = refl
accept_client-Matches fuel timer cur o (some fd) a s v f = elim (Bool-cases (ltb fd fd_limit)) [
  | inl y ↦ elim (Bool-cases (is_reused s.timer_lst.head timer)) [
    | inl r ↦
        let r' : is_reused a.head timer ≡ true = rw (v.head_is) at r in
        rw (y, r')
          (Returns-bind (AtHead timer)
            (Undone (record a { accepted = fd ∷ a.accepted; head = some timer })) _ _
            (add_timer-AtHead timer
              (record { expire = cur + 15; cb_func = some cb_func_pointer; user_data = fd })
              s.timer_lst v.deleted fuel r f)
            (λ added w. simp (w.there.1) (record {
              deleted = λ q. elim (Bool-cases (timer == q)) [
                | inl e ↦ rw e refl
                | inr e ↦ rw e (w.alone q e)
              ];
              head_is = w.head_is;
              timeout_is = v.timeout_is;
              stop_is = v.stop_is;
              clients = write-AreClients a.accepted s.users fd timer _ v.clients refl;
              quiet = IsQuiet-append s.acts (addfd o.epollfd fd ∷ []) v.quiet tt;
            })))
    | inr r ↦
        let r' : is_reused a.head timer ≡ false = rw (v.head_is) at r in
        elim (Option-cases s.timer_lst.head) [
          | inl z ↦ absurd (ground (arith, rw z at r))
          | inr (p, z) ↦
              rw
                (
                  y,
                  r',
                  add_timer-Gone timer
                      (record { expire = cur + 15; cb_func = some cb_func_pointer; user_data = fd })
                      s.timer_lst v.deleted fuel p z (rw z at r),
                )
                refl
        ]
  ]
  | inr n ↦ rw n refl
]
