-- ===== src/TimeWheel/Front.antt =====
-- The head of the current slot, and the whole loop of tick, in 11-5 time_wheel_timer.h.
use mathlib.Core.List.{append_assoc, append-nil}
use you_shuang.Base.{
  ℕ, zero, suc, ◌<◌, ◌≡◌, refl, sym, ◌∙◌, true, inl, inr, [], ◌∷◌, ◌++◌, Option, none, some, arith,
  ◌==◌, Bool-cases, if◌then◌else◌, ok, ◌>>=◌, update, length, get_or, load-ok, Returns, Returns-map,
  Returns-bind, set, get_or-set, length-set, store-ok,
}
use you_shuang.Nodes.{points_to}
use you_shuang.Nodes.Chain.{
  node, first, Chain, SameOutside, Chain-frame, set_prev-node, at-node, delete-node,
}
use you_shuang.TimeWheel.{TwTask, TimeWheel, Memory, Calls, expire_head, relink, expire, tick_loop}
use you_shuang.TimeWheel.Sweep.{Timers, waits, turned, kept, expired, is_safe, calls, AllCallable}
use you_shuang.TimeWheel.Inner.{Chain-change}
use you_shuang.TimeWheel.Loop.{Swept, behind-Swept}

-- The head has expired: it is deleted, and the timers behind it are left.
pub record Popped (w : TimeWheel) (q : ℕ) (k : TwTask) (xs : Timers) (r : TimeWheel × Option ℕ)
    : Type 0 where
  pub next : r.1 ≡ first xs
  pub cur : r.0.cur_slot ≡ w.cur_slot
  pub size : length r.0.slots ≡ length w.slots
  pub heads :
      (i : ℕ)
      → get_or r.0.slots i none ≡ (if w.cur_slot == i then first xs else get_or w.slots i none)
  pub chain : Chain r.0.memory none xs
  pub freed : r.0.memory q ≡ none
  pub same : SameOutside ((q, k) ∷ xs) w.memory r.0.memory

pub expire-Popped :
    (w : TimeWheel) (q : ℕ) (k : TwTask) (xs : Timers)
    → w.cur_slot < length w.slots
    → get_or w.slots w.cur_slot none ≡ some q
    → Chain w.memory none ((q, k) ∷ xs)
    → Returns (Popped w q k xs) (expire w q)
unfolding expire expire_head relink points_to
expire-Popped w q k xs inside head c =
    let i = w.cur_slot in
    let slots' = set w.slots i (first xs) in
    let heads' : (j : ℕ)
        → get_or slots' j none ≡ (if i == j then first xs else get_or w.slots j none) =
      λ j. get_or-set w.slots i j (first xs) none inside in
    let e : (q == q) ≡ true = ground arith in
    let here : get_or slots' i none ≡ first xs = ground (arith, heads' i) in
    let size' : length slots' ≡ length w.slots = length-set w.slots i (first xs) in
    rw
      (
        load-ok w.slots i none inside,
        head,
        e,
        at-node w.memory q k none (first xs) c.0,
        store-ok w.slots i (first xs) inside,
        delete-node w.memory q k none (first xs) c.0,
        load-ok slots' i none (omega arith),
        here,
      )
      (by_next xs c heads' size')
  where
    m : Memory
    m = update w.memory q none

    by_next :
        (xs : Timers)
        → Chain w.memory none ((q, k) ∷ xs)
        → ((j : ℕ)
            → get_or (set w.slots w.cur_slot (first xs)) j none
              ≡ (if w.cur_slot == j then first xs else get_or w.slots j none))
        → length (set w.slots w.cur_slot (first xs)) ≡ length w.slots
        → Returns (Popped w q k xs) (
            relink m (first xs) none >>= (λ b.
              ok (record w { slots = set w.slots w.cur_slot (first xs); memory = b }, first xs)))
    by_next [] c heads' size' = record {
      next = refl;
      cur = refl;
      size = size';
      heads = heads';
      chain = tt;
      freed = ground arith;
      same = λ a h. ground arith;
    }
    by_next ((b, kb) ∷ vs) c heads' size' =
        rw (set_prev-node m b kb (some q) (first vs) (ground (arith, c.2.0)) none) (record {
          next = refl;
          cur = refl;
          size = size';
          heads = heads';
          chain =
              (ground arith, c.2.1, Chain-frame w.memory _ (some b) vs c.2.2 (λ a h. ground arith));
          freed = ground arith;
          same = λ a h. ground arith;
        })

pub front-Swept :
    (fuel : ℕ) (w : TimeWheel) (log : Calls) (xs : Timers)
    → w.cur_slot < length w.slots
    → get_or w.slots w.cur_slot none ≡ first xs
    → Chain w.memory none xs
    → AllCallable xs
    → is_safe xs ≡ true
    → length xs < fuel
    → Returns (Swept w log [] xs) (tick_loop fuel w log (first xs))
unfolding tick_loop kept expired is_safe calls
front-Swept zero w log xs inside head c f safe enough = absurd (omega arith)
front-Swept (suc fuel) w log [] inside head c f safe enough = record {
  cur = refl;
  size = refl;
  heads = λ i. ground (arith, head);
  chain = c;
  called = sym (append-nil log);
  freed = λ a e. cc;
  same = λ a e. refl;
}
front-Swept (suc fuel) w log ((q, k) ∷ xs) inside head c f safe enough =
    let w' = record w { memory = update w.memory q (some (node (turned k) none (first xs))) } in
    rw (at-node w.memory q k none (first xs) c.0) (elim (Bool-cases (waits k)) [
      | inl e ↦ rw e (
          Returns-map (Swept w' log ((q, turned k) ∷ []) xs) (Swept w log [] ((q, k) ∷ xs)) _
            (behind-Swept q (turned k) fuel w' log [] xs inside head
              (Chain-change w.memory none [] q k (turned k) xs c) f.2 (rw e at safe) (omega arith))
            (λ r s. record {
              cur = s.cur;
              size = s.size;
              heads = λ i. rw e (s.heads i);
              chain = rw e s.chain;
              called = rw e s.called;
              freed = rw e s.freed;
              same = λ a g. s.same a g ∙ ground arith;
            }))
      | inr e ↦ rw e (
          simp (f.0.1, f.1.1)
            (Returns-bind (Popped w q k xs) (Swept w log [] ((q, k) ∷ xs)) (expire w q) _
              (expire-Popped w q k xs inside head c)
              (λ r x.
                let log' = log ++ ((f.0.0, f.1.0) ∷ []) in
                let here : get_or r.0.slots r.0.cur_slot none ≡ first xs =
                  ground (arith, x.heads r.0.cur_slot, x.cur) in
                rw x.next (
                  Returns-map (Swept r.0 log' [] xs) (Swept w log [] ((q, k) ∷ xs)) _
                    (front-Swept fuel r.0 log' xs (omega (arith, x.cur, x.size)) here x.chain f.2
                      (rw e at safe) (omega arith))
                    (λ t s. record {
                      cur = s.cur ∙ x.cur;
                      size = s.size ∙ x.size;
                      heads = λ i. rw e (ground (arith, s.heads i, x.heads i, x.cur));
                      chain = rw e s.chain;
                      called = rw e (
                          simp (f.0.1, f.1.1)
                            (s.called
                              ∙ append_assoc log ((f.0.0, f.1.0) ∷ []) (calls (expired xs))));
                      freed = rw e (λ a g. ground (arith, s.freed a, s.same q, x.freed, c.1));
                      same = λ a g. s.same a (ground arith) ∙ x.same a g;
                    })))))
    ])
