-- ===== src/NonactiveConnect/Dangling.antt =====
-- What 11-3 nonactive_connect.cpp does when it deletes each timer that it has put into its list.
use you_shuang.Base.{
  ℕ, zero, suc, ◌<◌, ◌≡◌, refl, sym, ◌∙◌, true, false, inl, inr, List, [], ◌∷◌, Option, none, some,
  arith, Bool-cases, Option-cases, ◌>>=◌,
}
use you_shuang.Base.Bytes.{again, error, bytes}
use you_shuang.Nodes.{at}
use you_shuang.TimerList.{tick, destroy}
use you_shuang.NonactiveConnect.{
  close, alarm, Opened, Server, Signal, sigalrm, sigterm, other_signal, run_calls, Event,
  on_listenfd, on_pipe, on_client, on_other, timer_handler, on_signals, handle, handle_all,
  on_timeout, end_server, main_loop,
}
use you_shuang.NonactiveConnect.Known.{
  Known, after_signals, after_event, bind, after_events, if_empty, after_timeout, after_rounds,
  Undone, Matches, Matches-bind, IsQuiet-append,
}
use you_shuang.NonactiveConnect.Clients.{on_data-Gone, on_data-Again, accept_client-Matches}

on_signals-Undone :
    (gs : List Signal) (a : Known) (s : Server)
    → Undone a s
    → Undone (after_signals gs a) (on_signals gs s)
unfolding on_signals
on_signals-Undone [] a s v = v
on_signals-Undone (sigalrm ∷ gs) a s v =
    on_signals-Undone gs (record a { timeout = true }) (record s { timeout = true })
      (record {
        deleted = v.deleted;
        head_is = v.head_is;
        timeout_is = refl;
        stop_is = v.stop_is;
        clients = v.clients;
        quiet = v.quiet;
      })
on_signals-Undone (sigterm ∷ gs) a s v =
    on_signals-Undone gs (record a { stop = true }) (record s { stop_server = true })
      (record {
        deleted = v.deleted;
        head_is = v.head_is;
        timeout_is = v.timeout_is;
        stop_is = refl;
        clients = v.clients;
        quiet = v.quiet;
      })
on_signals-Undone (other_signal ∷ gs) a s v = on_signals-Undone gs a s v

handle-Matches :
    (fuel : ℕ) (o : Opened) (e : Event) (a : Known) (s : Server)
    → Undone a s
    → 0 < fuel
    → Matches (after_event e a) (handle fuel o e s)
unfolding handle
handle-Matches fuel o (on_listenfd accepted timer cur) a s v f =
    accept_client-Matches fuel timer cur o accepted a s v f
handle-Matches fuel o (on_pipe gs) a s v f = on_signals-Undone gs a s v
handle-Matches fuel o (on_client fd again cur) a s v f = on_data-Again fuel fd cur a s v
handle-Matches fuel o (on_client fd error cur) a s v f =
    on_data-Gone fuel fd cur error a s v (λ e. cc)
handle-Matches fuel o (on_client fd (bytes bs) cur) a s v f =
    on_data-Gone fuel fd cur (bytes bs) a s v (λ e. cc)
handle-Matches fuel o on_other a s v f = v

handle_all-Matches :
    (fuel : ℕ) (o : Opened) (es : List Event) (a : Known) (s : Server)
    → Undone a s
    → 0 < fuel
    → Matches (after_events es a) (handle_all fuel o es s)
unfolding handle_all
handle_all-Matches fuel o [] a s v f = v
handle_all-Matches fuel o (e ∷ es) a s v f =
    Matches-bind (after_event e a) (handle fuel o e s) (after_events es) (handle_all fuel o es)
      (handle-Matches fuel o e a s v f) (λ b t w. handle_all-Matches fuel o es b t w f)

-- The loops over the list read its head.
on_timeout-Matches :
    (fuel cur : ℕ) (a : Known) (s : Server)
    → Undone a s
    → 0 < fuel
    → Matches (after_timeout a) (on_timeout fuel cur s)
unfolding on_timeout timer_handler run_calls tick at
on_timeout-Matches zero cur a s v f = absurd (omega arith)
on_timeout-Matches (suc fuel) cur a s v f = elim (Bool-cases s.timeout) [
  | inl y ↦
      let y' : a.timeout ≡ true = sym v.timeout_is ∙ y in
      elim (Option-cases s.timer_lst.head) [
        | inl z ↦
            let z' : a.head ≡ none = sym v.head_is ∙ z in
            simp (y, y', z, z')
              (record {
                deleted = v.deleted;
                head_is = z;
                timeout_is = refl;
                stop_is = v.stop_is;
                clients = v.clients;
                quiet = IsQuiet-append s.acts (alarm 5 ∷ []) v.quiet tt;
              })
        | inr (p, z) ↦
            let z' : a.head ≡ some p = sym v.head_is ∙ z in simp (y, y', z, z', v.deleted p) refl
      ]
  | inr n ↦ let n' : a.timeout ≡ false = sym v.timeout_is ∙ n in simp (n, n') v
]

end_server-Matches :
    (fuel : ℕ) (o : Opened) (a : Known) (s : Server)
    → Undone a s
    → 0 < fuel
    → Matches (if_empty a.head a) (end_server fuel o s)
unfolding end_server destroy at
end_server-Matches zero o a s v f = absurd (omega arith)
end_server-Matches (suc fuel) o a s v f = elim (Option-cases s.timer_lst.head) [
  | inl z ↦
      let z' : a.head ≡ none = sym v.head_is ∙ z in
      simp (z, z')
        (record {
          deleted = v.deleted;
          head_is = v.head_is;
          timeout_is = v.timeout_is;
          stop_is = v.stop_is;
          clients = v.clients;
          quiet =
              IsQuiet-append s.acts
                (close o.listenfd ∷ close (o.pipefd.1) ∷ close (o.pipefd.0) ∷ []) v.quiet tt;
        })
  | inr (p, z) ↦ let z' : a.head ≡ some p = sym v.head_is ∙ z in simp (z, z', v.deleted p) refl
]

-- The server is defined just as long as it reads no timer, and then it has taken no connection out of
-- epoll: `after_rounds` says of all that may come, by the accepted connections and the address of
-- the first timer alone, whether the run is defined. It is not where data of a connection comes, a
-- connection is closed, the alarm rings, or the server ends, behind the first connection.
pub main_loop-Matches :
    (fuel : ℕ) (o : Opened) (rounds : List (Option (List Event × ℕ))) (a : Known) (s : Server)
    → Undone a s
    → 0 < fuel
    → Matches (after_rounds rounds a) (main_loop fuel o rounds s)
unfolding main_loop
main_loop-Matches fuel o [] a s v f = elim (Bool-cases s.stop_server) [
  | inl y ↦
      let y' : a.stop ≡ true = sym v.stop_is ∙ y in simp (y, y') (end_server-Matches fuel o a s v f)
  | inr n ↦ let n' : a.stop ≡ false = sym v.stop_is ∙ n in simp (n, n') v
]
main_loop-Matches fuel o (none ∷ rest) a s v f = end_server-Matches fuel o a s v f
main_loop-Matches fuel o (some (es, cur) ∷ rest) a s v f = elim (Bool-cases s.stop_server) [
  | inl y ↦
      let y' : a.stop ≡ true = sym v.stop_is ∙ y in simp (y, y') (end_server-Matches fuel o a s v f)
  | inr n ↦
      let n' : a.stop ≡ false = sym v.stop_is ∙ n in
      let handled =
        Matches-bind (after_events es a) (handle_all fuel o es s) after_timeout
          (on_timeout fuel cur) (handle_all-Matches fuel o es a s v f)
          (λ b t w. on_timeout-Matches fuel cur b t w f) in
      simp (n, n')
        (Matches-bind (bind (after_events es a) after_timeout)
          (handle_all fuel o es s >>= on_timeout fuel cur) (after_rounds rest)
          (main_loop fuel o rest) handled (λ b t w. main_loop-Matches fuel o rest b t w f))
]
