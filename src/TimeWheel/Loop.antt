-- ===== src/TimeWheel/Loop.antt =====
-- The loop of tick in 11-5 time_wheel_timer.h.
use mathlib.Core.Path.{subst}
use mathlib.Core.List.{append_assoc, append-nil}
use you_shuang.Base.{
  ℕ, zero, suc, ◌<◌, ◌≡◌, refl, sym, ap, ◌∙◌, true, false, inl, inr, List, [], ◌∷◌, ◌++◌, Option,
  none, some, arith, ◌==◌, Bool-cases, if◌then◌else◌, ok, update, length, get_or, Returns,
  Returns-map, Returns-bind,
}
use you_shuang.Nodes.Chain.{
  node, has, first, last, Chain, SameOutside, Chain-drop, has-append, at-node,
}
use you_shuang.TimeWheel.{TwTask, TimeWheel, Calls, expire, tick_loop}
use you_shuang.TimeWheel.Sweep.{
  Timers, waits, turned, kept, expired, is_safe_behind, calls, AllCallable,
}
use you_shuang.TimeWheel.Inner.{Chain-change}
use you_shuang.TimeWheel.Behind.{Expired, expire-Expired}

-- The loop has swept the timers `xs` behind `ys`.
pub record Swept (w : TimeWheel) (log : Calls) (ys xs : Timers) (r : TimeWheel × Calls)
    : Type 0 where
  pub cur : r.0.cur_slot ≡ w.cur_slot
  pub size : length r.0.slots ≡ length w.slots
  pub heads :
      (i : ℕ)
      → get_or r.0.slots i none
        ≡ (if w.cur_slot == i then first (ys ++ kept xs) else get_or w.slots i none)
  pub chain : Chain r.0.memory none (ys ++ kept xs)
  pub called : r.1 ≡ log ++ calls (expired xs)
  pub freed : (a : ℕ) → has a (expired xs) ≡ true → r.0.memory a ≡ none
  pub same : SameOutside (ys ++ xs) w.memory r.0.memory

is_safe_behind-waits :
    (q : ℕ) (k : TwTask) (xs : Timers)
    → waits k ≡ true
    → is_safe_behind ((q, k) ∷ xs) ≡ true
    → is_safe_behind xs ≡ true
unfolding is_safe_behind
is_safe_behind-waits q k [] e s = refl
is_safe_behind-waits q k (c ∷ xs) e s = rw e at s

is_safe_behind-last :
    (q : ℕ) (k : TwTask) (xs : Timers)
    → waits k ≡ false
    → is_safe_behind ((q, k) ∷ xs) ≡ true
    → xs ≡ []
unfolding is_safe_behind
is_safe_behind-last q k [] e s = refl
is_safe_behind-last q k (c ∷ xs) e s = let z : false ≡ true = rw e at s in cc

same_head :
    (slots : List (Option ℕ)) (c h : ℕ)
    → get_or slots c none ≡ some h
    → (i : ℕ) → get_or slots i none ≡ (if c == i then some h else get_or slots i none)
same_head slots c h e i = ground (arith, e)

tick_loop-none :
    (fuel : ℕ) (w : TimeWheel) (log : Calls) → 0 < fuel → tick_loop fuel w log none ≡ ok (w, log)
unfolding tick_loop
tick_loop-none zero w log h = absurd (omega arith)
tick_loop-none (suc fuel) w log h = refl

-- The loop behind `h`, which waits, and other timers, in the slot with the head `h`.
module _ (h : ℕ) (kh : TwTask) where
  last-Swept :
      (fuel : ℕ) (w : TimeWheel) (log : Calls) (ys : Timers) (q : ℕ) (k : TwTask)
      → w.cur_slot < length w.slots
      → get_or w.slots w.cur_slot none ≡ some h
      → Chain w.memory none (((h, kh) ∷ ys) ++ ((q, k) ∷ []))
      → AllCallable ((q, k) ∷ [])
      → waits k ≡ false
      → 0 < fuel
      → Returns (Swept w log ((h, kh) ∷ ys) ((q, k) ∷ [])) (tick_loop (suc fuel) w log (some q))
  unfolding tick_loop kept expired calls
  last-Swept fuel w log ys q k inside head c f e enough =
      let d = Chain-drop w.memory none ((h, kh) ∷ ys) ((q, k) ∷ []) c in
      rw (at-node w.memory q k (last (some h) ys) none d.0, e)
        (simp (f.0.1, f.1.1)
          (Returns-bind (Expired w ((h, kh) ∷ ys) q k []) (Swept w log ((h, kh) ∷ ys) ((q, k) ∷ []))
            (expire w q) _ (expire-Expired w h kh ys q k [] inside head c)
            (λ r x.
              rw (x.next, tick_loop-none fuel r.0 (log ++ ((f.0.0, f.1.0) ∷ [])) enough)
                (record {
                  cur = ap (λ v. v.cur_slot) x.wheel;
                  size = ap (λ v. length v.slots) x.wheel;
                  heads = λ i.
                      ap (λ v. get_or v.slots i none) x.wheel
                      ∙ same_head w.slots w.cur_slot h head i;
                  chain = rw e (simp append-nil (x.chain refl));
                  called = rw e (simp (f.0.1, f.1.1) refl);
                  freed = rw e (λ a g. ground (arith, x.freed));
                  same = x.same;
                }))))

  pub behind-Swept :
      (fuel : ℕ) (w : TimeWheel) (log : Calls) (ys xs : Timers)
      → w.cur_slot < length w.slots
      → get_or w.slots w.cur_slot none ≡ some h
      → Chain w.memory none (((h, kh) ∷ ys) ++ xs)
      → AllCallable xs
      → is_safe_behind xs ≡ true
      → length xs < fuel
      → Returns (Swept w log ((h, kh) ∷ ys) xs) (tick_loop fuel w log (first xs))
  unfolding tick_loop kept expired calls
  behind-Swept zero w log ys xs inside head c f safe enough = absurd (omega arith)
  behind-Swept (suc fuel) w log ys [] inside head c f safe enough = record {
    cur = refl;
    size = refl;
    heads = same_head w.slots w.cur_slot h head;
    chain = c;
    called = sym (append-nil log);
    freed = λ a e. cc;
    same = λ a e. refl;
  }
  behind-Swept (suc fuel) w log ys ((q, k) ∷ xs) inside head c f safe enough =
      let d = Chain-drop w.memory none ((h, kh) ∷ ys) ((q, k) ∷ xs) c in
      let w' = record w {
        memory = update w.memory q (some (node (turned k) (last (some h) ys) (first xs)));
      } in
      elim (Bool-cases (waits k)) [
        | inl e ↦
            rw (at-node w.memory q k (last (some h) ys) (first xs) d.0, e)
              (Returns-map (Swept w' log ((h, kh) ∷ (ys ++ ((q, turned k) ∷ []))) xs)
                (Swept w log ((h, kh) ∷ ys) ((q, k) ∷ xs)) _
                (behind-Swept fuel w' log (ys ++ ((q, turned k) ∷ [])) xs inside head
                  (simp append_assoc
                    (Chain-change w.memory none ((h, kh) ∷ ys) q k (turned k) xs c))
                  f.2 (is_safe_behind-waits q k xs e safe) (omega arith))
                (λ r s. record {
                  cur = s.cur;
                  size = s.size;
                  heads = s.heads;
                  chain = rw e (simp append_assoc at s.chain);
                  called = rw e s.called;
                  freed = rw e s.freed;
                  same = λ a g.
                      let apart : has a (((h, kh) ∷ (ys ++ ((q, turned k) ∷ []))) ++ xs) ≡ false =
                        ground (
                          arith,
                          has-append a (ys ++ ((q, turned k) ∷ [])) xs,
                          has-append a ys ((q, turned k) ∷ []),
                          has-append a ys ((q, k) ∷ xs),
                        ) in
                      s.same a apart ∙ ground (arith, has-append a ys ((q, k) ∷ xs));
                }))
        | inr e ↦
            subst
              (λ zs.
                Returns (Swept w log ((h, kh) ∷ ys) ((q, k) ∷ zs))
                  (tick_loop (suc fuel) w log (some q)))
              (sym (is_safe_behind-last q k xs e safe))
              (last-Swept fuel w log ys q k inside head
                (subst (λ zs. Chain w.memory none (((h, kh) ∷ ys) ++ ((q, k) ∷ zs)))
                  (is_safe_behind-last q k xs e safe) c)
                (f.0, f.1, tt) e (omega arith))
      ]
