-- ===== src/ProcessPool/Loop.antt =====
-- The loop of run_parent of 15-1 processpool.h.
use native.Mathlib.Nat.{mod-lt}
use you_shuang.Base.{
  ℕ, ◌+◌, ◌<◌, ◌≡◌, ◌∙◌, Bool, Bool-cases, inl, inr, List, [], ◌∷◌, arith, Returns, Returns-bind,
  length,
}
use you_shuang.ProcessPool.{
  Pool, Signal, sigchld, sigterm, sigint, other_signal, Event, on_listenfd, on_sig_pipe, on_other,
  Answer, events, failure, dispatch, on_signal, on_signals, handle, run_loop,
}
use you_shuang.ProcessPool.Dispatch.{Dispatched, connected, stopped, dispatch-Dispatched}
use you_shuang.ProcessPool.Signals.{sigchld-Reaped}

-- There are `n` children, and the counter is the index of one.
pub record IsPool (n : ℕ) (s : Pool) : Type 0 where
  pub size : length s.sub_process ≡ n
  pub counter_lt : s.sub_process_counter < n

Dispatched-IsPool :
    (n : ℕ) (s : Pool) (r : Pool × Bool) → IsPool n s → Dispatched s r → IsPool n r.0
Dispatched-IsPool n s r v (connected i h e d) = record {
  size = v.size;
  counter_lt = rw v.size (mod-lt (i + 1) {m = n} (omega (arith, v.counter_lt)));
}
Dispatched-IsPool n s r v (stopped d) = record { size = v.size; counter_lt = v.counter_lt }

on_signal-IsPool : (n : ℕ) (g : Signal) (s : Pool) → IsPool n s → IsPool n (on_signal g s)
unfolding on_signal
on_signal-IsPool n (sigchld pids) s v =
    let w = (sigchld-Reaped pids s).0 in
    record { size = w.count ∙ v.size; counter_lt = omega (arith, w.counter_same, v.counter_lt) }
on_signal-IsPool n sigterm s v = record { size = v.size; counter_lt = v.counter_lt }
on_signal-IsPool n sigint s v = record { size = v.size; counter_lt = v.counter_lt }
on_signal-IsPool n other_signal s v = v

on_signals-IsPool : (n : ℕ) (gs : List Signal) (s : Pool) → IsPool n s → IsPool n (on_signals gs s)
unfolding on_signals
on_signals-IsPool n [] s v = v
on_signals-IsPool n (g ∷ gs) s v = on_signals-IsPool n gs (on_signal g s) (on_signal-IsPool n g s v)

handle-IsPool : (n : ℕ) (es : List Event) (s : Pool) → IsPool n s → Returns (IsPool n) (handle es s)
unfolding handle
handle-IsPool n [] s v = v
handle-IsPool n (on_listenfd ∷ es) s v =
    Returns-bind (Dispatched s) (IsPool n) (dispatch s) _
      (dispatch-Dispatched s (omega (arith, v.size, v.counter_lt)))
      (λ (t, goes_on) d. elim (Bool-cases goes_on) [
        | inl e ↦ rw e (handle-IsPool n es t (Dispatched-IsPool n s (t, goes_on) v d))
        | inr e ↦ rw e (Dispatched-IsPool n s (t, goes_on) v d)
      ])
handle-IsPool n (on_sig_pipe gs ∷ es) s v =
    handle-IsPool n es (on_signals gs s) (on_signals-IsPool n gs s v)
handle-IsPool n (on_other ∷ es) s v = handle-IsPool n es s v

-- From a counter that is a child's index, the parent handles whatever epoll_wait gives it without
-- an access out of bounds, and keeps the number of children and the counter below it.
pub run_loop-IsPool :
    (n : ℕ) (answers : List Answer) (s : Pool)
    → IsPool n s
    → Returns (IsPool n) (run_loop answers s)
unfolding run_loop
run_loop-IsPool n [] s v = v
run_loop-IsPool n (failure ∷ rest) s v = v
run_loop-IsPool n (events es ∷ rest) s v = elim (Bool-cases s.stop) [
  | inl e ↦ simp e v
  | inr e ↦ simp e (
      Returns-bind (IsPool n) (IsPool n) (handle es s) _ (handle-IsPool n es s v)
        (λ t w. run_loop-IsPool n rest t w))
]
