-- ===== src/TimerList/Sorted.antt =====
-- The list of 11-2 lst_timer.h as a list in the order of expiry.
use mathlib.Core.Path.{subst}
use you_shuang.Base.{
  ℕ, ◌≤◌, ◌<◌, ◌≡◌, refl, ap, false, inl, inr, [], ◌∷◌, ◌++◌, none, some, arith, ltb, Bool-cases,
  length, Returns, Returns-map,
}
use you_shuang.TimerList.{Task, TimerList, add_timer, adjust_timer, del_timer}
use you_shuang.TimerList.Lists.{Timers, IsList, insert}
use you_shuang.Nodes.Chain.{node, has, SameOutside}
use you_shuang.TimerList.Add.{Added, add_timer-Added}
use you_shuang.TimerList.Adjust.{Adjusted, adjust_timer-Adjusted}
use you_shuang.TimerList.Delete.{Deleted, del_timer-Deleted}

-- No timer expires before `n`, and none after it.
abbrev pub IsFrom : ℕ → Timers → Type 0
IsFrom n [] = Unit {0}
IsFrom n (c ∷ xs) = (n ≤ c.1.expire) × IsFrom n xs

abbrev pub IsUntil : ℕ → Timers → Type 0
IsUntil n [] = Unit {0}
IsUntil n (c ∷ xs) = (c.1.expire ≤ n) × IsUntil n xs

abbrev pub IsSorted : Timers → Type 0
IsSorted [] = Unit {0}
IsSorted (c ∷ xs) = IsFrom c.1.expire xs × IsSorted xs

-- What the list promises: it holds the timers in the order of their expiry.
pub record Represents (l : TimerList) (xs : Timers) : Type 0 where
  pub list : IsList l xs
  pub sorted : IsSorted xs

pub IsFrom-mono : (n k : ℕ) (xs : Timers) → k ≤ n → IsFrom n xs → IsFrom k xs
IsFrom-mono n k [] h f = tt
IsFrom-mono n k (c ∷ xs) h f = (omega (arith, f.0), IsFrom-mono n k xs h f.1)

insert-IsFrom :
    (n : ℕ) (c : ℕ × Task) (xs : Timers) → n ≤ c.1.expire → IsFrom n xs → IsFrom n (insert c xs)
unfolding insert
insert-IsFrom n c [] h f = (h, tt)
insert-IsFrom n c (d ∷ xs) h f = elim (Bool-cases (ltb c.1.expire d.1.expire)) [
  | inl e ↦ rw e (h, f)
  | inr e ↦ rw e (f.0, insert-IsFrom n c xs h f.1)
]

pub insert-IsSorted : (c : ℕ × Task) (xs : Timers) → IsSorted xs → IsSorted (insert c xs)
unfolding insert
insert-IsSorted c [] s = (tt, tt)
insert-IsSorted c (d ∷ xs) s = elim (Bool-cases (ltb c.1.expire d.1.expire)) [
  | inl e ↦ rw e ((ground arith, IsFrom-mono d.1.expire c.1.expire xs (ground arith) s.0), s)
  | inr e ↦ rw e (insert-IsFrom d.1.expire c xs (ground arith) s.0, insert-IsSorted c xs s.1)
]

-- Behind timers that do not expire later, the place is found behind them.
insert-append :
    (c : ℕ × Task) (ys zs : Timers)
    → IsUntil c.1.expire ys
    → ys ++ insert c zs ≡ insert c (ys ++ zs)
unfolding insert
insert-append c [] zs u = refl
insert-append c (d ∷ ys) zs u =
    let e : ltb c.1.expire d.1.expire ≡ false = ground (arith, u.0) in
    rw e (ap (◌∷◌ d) (insert-append c ys zs u.1))

IsFrom-remove :
    (n : ℕ) (ys : Timers) (c : ℕ × Task) (zs : Timers)
    → IsFrom n (ys ++ (c ∷ zs))
    → IsFrom n (ys ++ zs)
IsFrom-remove n [] c zs f = f.1
IsFrom-remove n (d ∷ ys) c zs f = (f.0, IsFrom-remove n ys c zs f.1)

IsSorted-remove :
    (ys : Timers) (c : ℕ × Task) (zs : Timers) → IsSorted (ys ++ (c ∷ zs)) → IsSorted (ys ++ zs)
IsSorted-remove [] c zs s = s.1
IsSorted-remove (d ∷ ys) c zs s =
    (IsFrom-remove d.1.expire ys c zs s.0, IsSorted-remove ys c zs s.1)

-- A sorted list stays one: add_timer puts a new timer in by its time of expiry, behind those that
-- expire at the same time, and changes nothing outside the list.
pub add_timer-Represents :
    (fuel : ℕ) (l : TimerList) (q : ℕ) (k : Task) (xs : Timers)
    → Represents l xs
    → l.memory q ≡ some (node k none none)
    → has q xs ≡ false
    → length xs < fuel
    → Returns
        (λ l'. Represents l' (insert (q, k) xs) × SameOutside ((q, k) ∷ xs) l.memory l'.memory)
        (add_timer fuel l (some q))
add_timer-Represents fuel l q k xs v here out h =
    Returns-map (Added l.memory (q, k) xs) _ _ (add_timer-Added fuel l q k xs v.list here out h)
      (λ l' a. (record { list = a.list; sorted = insert-IsSorted (q, k) xs v.sorted }, a.same))

-- adjust_timer puts a timer that has been put off to its place, as if it were taken out and put in
-- anew: the others are sorted, and those before it do not expire after its new time.
pub adjust_timer-Represents :
    (fuel : ℕ) (l : TimerList) (q : ℕ) (k : Task) (ys zs : Timers)
    → IsList l (ys ++ ((q, k) ∷ zs))
    → IsSorted (ys ++ zs)
    → IsUntil k.expire ys
    → length zs < fuel
    → Returns
        (λ l'.
          Represents l' (insert (q, k) (ys ++ zs))
          × SameOutside (ys ++ ((q, k) ∷ zs)) l.memory l'.memory)
        (adjust_timer fuel l (some q))
adjust_timer-Represents fuel l q k ys zs v s u h =
    Returns-map (Adjusted l.memory (ys ++ ((q, k) ∷ zs)) (ys ++ insert (q, k) zs)) _ _
      (adjust_timer-Adjusted fuel l q k ys zs v h)
      (λ l' a. (
        record {
          list = subst (IsList l') (insert-append (q, k) ys zs u) a.list;
          sorted = insert-IsSorted (q, k) (ys ++ zs) s;
        },
        a.same,
      ))

-- del_timer leaves the other timers of a sorted list, sorted, and deletes the timer.
pub del_timer-Represents :
    (l : TimerList) (q : ℕ) (k : Task) (ys zs : Timers)
    → Represents l (ys ++ ((q, k) ∷ zs))
    → Returns
        (λ l'.
          Represents l' (ys ++ zs)
          × (l'.memory q ≡ none)
          × SameOutside (ys ++ ((q, k) ∷ zs)) l.memory l'.memory)
        (del_timer l (some q))
del_timer-Represents l q k ys zs v =
    Returns-map (Deleted l.memory q (ys ++ ((q, k) ∷ zs)) (ys ++ zs)) _ _
      (del_timer-Deleted l q k ys zs v.list)
      (λ l' d.
        (record { list = d.list; sorted = IsSorted-remove ys (q, k) zs v.sorted }, d.freed, d.same))
