-- ===== src/TimeWheel/Dangling.antt =====
-- Where tick of 11-5 time_wheel_timer.h uses a timer after its end.
use mathlib.Core.List.{append_assoc}
use you_shuang.Base.{
  ℕ, zero, suc, ◌<◌, ◌≡◌, refl, false, inl, inr, [], ◌∷◌, ◌++◌, none, some, arith, Bool-cases,
  fault, update, length, get_or, load-ok, Returns-inv,
}
use you_shuang.Nodes.{at}
use you_shuang.Nodes.Chain.{node, first, last, Chain, Chain-drop, at-node}
use you_shuang.TimeWheel.{TwTask, TimeWheel, Calls, expire, tick_loop}
use you_shuang.TimeWheel.Sweep.{Timers, waits, turned, is_safe_behind, is_safe, AllCallable}
use you_shuang.TimeWheel.Inner.{Chain-change}
use you_shuang.TimeWheel.Behind.{Expired, expire-Expired}
use you_shuang.TimeWheel.{tick}
use you_shuang.TimeWheel.Front.{Popped, expire-Popped}
use you_shuang.TimeWheel.Wheel.{IsWheel}

tick_loop-dangling :
    (fuel : ℕ) (w : TimeWheel) (log : Calls) (b : ℕ)
    → w.memory b ≡ none
    → tick_loop fuel w log (some b) ≡ fault
unfolding tick_loop at
tick_loop-dangling zero w log b e = refl
tick_loop-dangling (suc fuel) w log b e = rw e

module _ (h : ℕ) (kh : TwTask) where
  behind-fault :
      (fuel : ℕ) (w : TimeWheel) (log : Calls) (ys xs : Timers)
      → w.cur_slot < length w.slots
      → get_or w.slots w.cur_slot none ≡ some h
      → Chain w.memory none (((h, kh) ∷ ys) ++ xs)
      → AllCallable xs
      → is_safe_behind xs ≡ false
      → tick_loop fuel w log (first xs) ≡ fault
  unfolding tick_loop is_safe_behind
  behind-fault zero w log ys xs inside head c f unsafe = refl
  behind-fault (suc fuel) w log ys [] inside head c f unsafe = cc
  behind-fault (suc fuel) w log ys ((q, k) ∷ []) inside head c f unsafe = cc
  behind-fault (suc fuel) w log ys ((q, k) ∷ (b, kb) ∷ vs) inside head c f unsafe =
      let xs = (b, kb) ∷ vs in
      let d = Chain-drop w.memory none ((h, kh) ∷ ys) ((q, k) ∷ xs) c in
      let w' = record w {
        memory = update w.memory q (some (node (turned k) (last (some h) ys) (some b)));
      } in
      rw (at-node w.memory q k (last (some h) ys) (some b) d.0) (elim (Bool-cases (waits k)) [
        | inl e ↦ rw e (
            behind-fault fuel w' log (ys ++ ((q, turned k) ∷ [])) xs inside head
              (simp append_assoc (Chain-change w.memory none ((h, kh) ∷ ys) q k (turned k) xs c))
              f.2 (rw e at unsafe))
        | inr e ↦ rw e (
            simp (f.0.1, f.1.1)
              (let (r, go, x) =
                  Returns-inv (Expired w ((h, kh) ∷ ys) q k xs) (expire w q)
                    (expire-Expired w h kh ys q k xs inside head c) in
                rw (go, x.next)
                  (tick_loop-dangling fuel r.0 (log ++ ((f.0.0, f.1.0) ∷ [])) b
                    (x.dangling b refl))))
      ])

front-fault :
    (fuel : ℕ) (w : TimeWheel) (log : Calls) (xs : Timers)
    → w.cur_slot < length w.slots
    → get_or w.slots w.cur_slot none ≡ first xs
    → Chain w.memory none xs
    → AllCallable xs
    → is_safe xs ≡ false
    → tick_loop fuel w log (first xs) ≡ fault
unfolding tick_loop is_safe
front-fault zero w log xs inside head c f unsafe = refl
front-fault (suc fuel) w log [] inside head c f unsafe = cc
front-fault (suc fuel) w log ((q, k) ∷ xs) inside head c f unsafe =
    let w' = record w { memory = update w.memory q (some (node (turned k) none (first xs))) } in
    rw (at-node w.memory q k none (first xs) c.0) (elim (Bool-cases (waits k)) [
      | inl e ↦ rw e (
          behind-fault q (turned k) fuel w' log [] xs inside head
            (Chain-change w.memory none [] q k (turned k) xs c) f.2 (rw e at unsafe))
      | inr e ↦ rw e (
          simp (f.0.1, f.1.1)
            (let (r, go, x) =
                Returns-inv (Popped w q k xs) (expire w q) (expire-Popped w q k xs inside head c) in
              let here : get_or r.0.slots r.0.cur_slot none ≡ first xs =
                ground (arith, x.heads r.0.cur_slot, x.cur) in
              rw (go, x.next)
                (front-fault fuel r.0 (log ++ ((f.0.0, f.1.0) ∷ [])) xs
                  (omega (arith, x.cur, x.size)) here x.chain f.2 (rw e at unsafe))))
    ])

-- Where a timer that has expired stands behind one that waits and before another, tick deletes the
-- one behind it and then reads it: the behaviour is undefined, whatever the number of rounds.
pub tick-fault :
    (fuel : ℕ) (w : TimeWheel) (lists : ℕ → Timers)
    → IsWheel w lists
    → AllCallable (lists w.cur_slot)
    → is_safe (lists w.cur_slot) ≡ false
    → tick fuel w ≡ fault
unfolding tick
tick-fault fuel w lists v f unsafe =
    let xs = lists w.cur_slot in
    let inside : w.cur_slot < length w.slots = omega (arith, v.size, v.cur) in
    let head : get_or w.slots w.cur_slot none ≡ first xs = v.heads w.cur_slot v.cur in
    rw (
      load-ok w.slots w.cur_slot none inside,
      head,
      front-fault fuel w [] xs inside head (v.chains w.cur_slot v.cur) f unsafe,
    )
