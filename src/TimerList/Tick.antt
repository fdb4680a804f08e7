-- ===== src/TimerList/Tick.antt =====
-- tick and the destructor of 11-2 lst_timer.h.
use mathlib.Core.Path.{subst}
use mathlib.Core.List.{append-nil, append_assoc}
use you_shuang.Base.{
  ℕ, zero, suc, ◌+◌, ◌<◌, ◌≡◌, refl, sym, ◌∙◌, true, false, inl, inr, [], ◌∷◌, ◌++◌, Option, none,
  some, arith, ltb, Bool-cases, if◌then◌else◌, ok, update, length, Returns, Returns-map,
}
use you_shuang.TimerList.{
  Task, Memory, TimerList, Calls, advance, tick_loop, tick, destroy_loop, destroy,
}
use you_shuang.Nodes.{delete}
use you_shuang.TimerList.Lists.{Timers, IsTail, IsList}
use you_shuang.Nodes.Chain.{
  node, has, first, Chain, SameOutside, Chain-frame, at-node, set_prev-node, delete-node,
}
use you_shuang.TimerList.Sorted.{IsFrom-mono, IsFrom, IsSorted, Represents}

-- The timers that have expired by `cur`, which are the first ones, and the others.
unfoldable pub due : ℕ → Timers → Timers
due cur [] = []
due cur (c ∷ xs) = if ltb cur c.1.expire then [] else c ∷ due cur xs

unfoldable pub later : ℕ → Timers → Timers
later cur [] = []
later cur (c ∷ xs) = if ltb cur c.1.expire then c ∷ xs else later cur xs

-- The call of a timer; that of a null callback does not occur.
callback : Option ℕ → ℕ
callback none = 0
callback (some f) = f

unfoldable pub calls : Timers → Calls
unfolding callback
calls [] = []
calls (c ∷ xs) = (callback c.1.cb_func, c.1.user_data) ∷ calls xs

abbrev pub AllCallable : Timers → Type 0
AllCallable [] = Unit {0}
AllCallable (c ∷ xs) = ((f : ℕ) × (c.1.cb_func ≡ some f)) × AllCallable xs

pub record Ticked (cur : ℕ) (m : Memory) (log : Calls) (xs : Timers) (r : TimerList × Calls)
    : Type 0 where
  pub list : IsList r.0 (later cur xs)
  pub called : r.1 ≡ log ++ calls (due cur xs)
  pub freed : (a : ℕ) → has a (due cur xs) ≡ true → r.0.memory a ≡ none
  pub same : SameOutside xs m r.0.memory

-- The head of a list with its first timer deleted.
module _ (l : TimerList) (q : ℕ) (k : Task) where
  advanced : Timers → Memory
  advanced [] = l.memory
  advanced ((b, kb) ∷ vs) = update l.memory b (some (node kb none (first vs)))

  advance-advanced :
      (xs : Timers)
      → Chain l.memory none ((q, k) ∷ xs)
      → advance l.memory (first xs) ≡ ok (advanced xs)
  unfolding advance advanced
  advance-advanced [] c = refl
  advance-advanced ((b, kb) ∷ vs) c = set_prev-node l.memory b kb (some q) (first vs) c.2.0 none

  popped : Timers → TimerList
  popped xs = record { head = first xs; tail = l.tail; memory = update (advanced xs) q none }

  delete-popped :
      (xs : Timers)
      → Chain l.memory none ((q, k) ∷ xs)
      → delete (advanced xs) q ≡ ok (update (advanced xs) q none)
  unfolding advanced
  delete-popped [] c = delete-node l.memory q k none none c.0
  delete-popped ((b, kb) ∷ vs) c = delete-node _ q k none (some b) (ground (arith, c.0))

  popped-Chain :
      (xs : Timers) → Chain l.memory none ((q, k) ∷ xs) → Chain (popped xs).memory none xs
  unfolding popped advanced
  popped-Chain [] c = tt
  popped-Chain ((b, kb) ∷ vs) c =
      (ground arith, c.2.1, Chain-frame l.memory _ (some b) vs c.2.2 (λ a h. ground arith))

  popped-IsTail : (xs : Timers) → IsTail l.tail ((q, k) ∷ xs) → IsTail (popped xs).tail xs
  unfolding popped
  popped-IsTail [] e = tt
  popped-IsTail ((b, kb) ∷ vs) e = e

  popped-same : (xs : Timers) → SameOutside ((q, k) ∷ xs) l.memory (popped xs).memory
  unfolding popped advanced
  popped-same [] a h = ground arith
  popped-same ((b, kb) ∷ vs) a h = ground arith

has-due : (a cur : ℕ) (xs : Timers) → has a xs ≡ false → has a (due cur xs) ≡ false
unfolding due
has-due a cur [] h = refl
has-due a cur (c ∷ xs) h = elim (Bool-cases (ltb cur c.1.expire)) [
  | inl e ↦ rw e
  | inr e ↦ rw e (ground (arith, has-due a cur xs))
]

tick_loop-Ticked :
    (fuel cur : ℕ) (log : Calls) (l : TimerList) (xs : Timers)
    → IsList l xs
    → AllCallable xs
    → length xs < fuel
    → Returns (Ticked cur l.memory log xs) (tick_loop fuel cur log l (first xs))
unfolding tick_loop due later calls callback popped
tick_loop-Ticked zero cur log l xs v f h = absurd (omega arith)
tick_loop-Ticked (suc fuel) cur log l [] v f h = record {
  list = v;
  called = sym (append-nil log);
  freed = λ a e. cc;
  same = λ a e. refl;
}
tick_loop-Ticked (suc fuel) cur log l ((q, k) ∷ xs) v f h =
    let c = v.chain in
    rw (at-node l.memory q k none (first xs) c.0) (elim (Bool-cases (ltb cur k.expire)) [
      | inl e ↦ rw e (record {
        list = rw e v;
        called = rw e (sym (append-nil log));
        freed = rw e (λ a g. cc);
        same = λ a g. refl;
      })
      | inr e ↦ rw e (
          simp (f.0.1) (
            rw (advance-advanced l q k xs c, delete-popped l q k xs c)
              (Returns-map
                (Ticked cur (popped l q k xs).memory (log ++ ((f.0.0, k.user_data) ∷ [])) xs)
                (Ticked cur l.memory log ((q, k) ∷ xs)) _
                (tick_loop-Ticked fuel cur (log ++ ((f.0.0, k.user_data) ∷ [])) (popped l q k xs) xs
                  (record {
                    head_is = refl;
                    tail_is = popped-IsTail l q k xs v.tail_is;
                    chain = popped-Chain l q k xs c;
                  })
                  f.1 (omega arith))
                (λ r w. record {
                  list = rw e w.list;
                  called = rw e (
                      simp (f.0.1) (
                        w.called
                        ∙ append_assoc log ((f.0.0, k.user_data) ∷ []) (calls (due cur xs))));
                  freed = rw e (λ a g. ground (arith, w.freed a, w.same q, c.1));
                  same = λ a g. w.same a (ground arith) ∙ popped-same l q k xs a g;
                }))))
    ])

-- What is left of a sorted list has not expired.
later-IsFrom :
    (cur : ℕ) (xs : Timers)
    → IsSorted xs
    → IsFrom (cur + 1) (later cur xs) × IsSorted (later cur xs)
unfolding later
later-IsFrom cur [] s = (tt, tt)
later-IsFrom cur (c ∷ xs) s = elim (Bool-cases (ltb cur c.1.expire)) [
  | inl e ↦ rw e ((ground arith, IsFrom-mono c.1.expire (cur + 1) xs (ground arith) s.0), s)
  | inr e ↦ rw e (later-IsFrom cur xs s.1)
]

-- What tick leaves of the list of `xs`: it is sorted, and its timers have not expired.
pub record Swept (cur : ℕ) (m : Memory) (xs : Timers) (r : TimerList × Calls) : Type 0 where
  pub left : Represents r.0 (later cur xs)
  pub unexpired : IsFrom (cur + 1) (later cur xs)
  pub ticked : Ticked cur m [] xs r

-- tick on a sorted list whose timers have callbacks calls those that have expired by `cur`, in the
-- order of their expiry and no others, deletes them, and leaves the others, none of which has
-- expired, sorted and well linked. One round more than there are timers is enough.
pub tick-Swept :
    (fuel cur : ℕ) (l : TimerList) (xs : Timers)
    → Represents l xs
    → AllCallable xs
    → length xs < fuel
    → Returns (Swept cur l.memory xs) (tick fuel l cur)
unfolding tick
tick-Swept fuel cur l xs v f h =
    let s = later-IsFrom cur xs v.sorted in
    subst (λ o. Returns (Swept cur l.memory xs) (tick_loop fuel cur [] l o)) (sym v.list.head_is)
      (Returns-map (Ticked cur l.memory [] xs) (Swept cur l.memory xs) _
        (tick_loop-Ticked fuel cur [] l xs v.list f h)
        (λ r w. record {
          left = record { list = w.list; sorted = s.1 };
          unexpired = s.0;
          ticked = w;
        }))

-- The destructor deletes every timer of the list, whatever their order, and nothing else.
pub record Destroyed (m : Memory) (xs : Timers) (l' : TimerList) : Type 0 where
  pub empty : l'.head ≡ none
  pub freed : (a : ℕ) → has a xs ≡ true → l'.memory a ≡ none
  pub same : SameOutside xs m l'.memory

destroy_loop-Destroyed :
    (fuel : ℕ) (l : TimerList) (p : Option ℕ) (xs : Timers)
    → l.head ≡ first xs
    → Chain l.memory p xs
    → length xs < fuel
    → Returns (Destroyed l.memory xs) (destroy_loop fuel l (first xs))
unfolding destroy_loop
destroy_loop-Destroyed zero l p xs e c h = absurd (omega arith)
destroy_loop-Destroyed (suc fuel) l p [] e c h = record {
  empty = e;
  freed = λ a g. cc;
  same = λ a g. refl;
}
destroy_loop-Destroyed (suc fuel) l p ((q, k) ∷ xs) e c h =
    let m = update l.memory q none in
    rw (at-node l.memory q k p (first xs) c.0, delete-node l.memory q k p (first xs) c.0)
      (Returns-map (Destroyed m xs) (Destroyed l.memory ((q, k) ∷ xs)) _
        (destroy_loop-Destroyed fuel (record l { head = first xs; memory = m }) (some q) xs refl
          (Chain-frame l.memory m (some q) xs c.2 (λ a g. ground arith)) (omega arith))
        (λ r w. record {
          empty = w.empty;
          freed = λ a g. ground (arith, w.freed a, w.same q, c.1);
          same = λ a g. w.same a (ground arith) ∙ ground arith;
        }))

-- The destructor ends: it deletes each timer of the list, and nothing else.
pub destroy-Destroyed :
    (fuel : ℕ) (l : TimerList) (xs : Timers)
    → IsList l xs
    → length xs < fuel
    → Returns (Destroyed l.memory xs) (destroy fuel l)
unfolding destroy
destroy-Destroyed fuel l xs v h =
    subst (λ o. Returns (Destroyed l.memory xs) (destroy_loop fuel l o)) (sym v.head_is)
      (destroy_loop-Destroyed fuel l none xs v.head_is v.chain h)
