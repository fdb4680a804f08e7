-- ===== src/TimerList/Lists.antt =====
-- What a list of 11-2 lst_timer.h stands for: its timers in order.
use you_shuang.Base.{
  ℕ, ◌≡◌, refl, ap, ◌∙◌, ◌||◌, [], ◌∷◌, ◌++◌, Option, none, arith, ltb, ◌==◌, if◌then◌else◌,
}
use you_shuang.TimerList.{Task, Memory, TimerList}
use you_shuang.Nodes.Chain.{Nodes, has, first, last, Chain}

-- The address of each timer and what it is for.
abbrev pub Timers : Type 0
Timers = Nodes Task

-- `tail` is the last timer; that of an empty list is not read, and may be left over.
abbrev pub IsTail : Option ℕ → Timers → Type 0
IsTail t [] = Unit {0}
IsTail t (c ∷ xs) = t ≡ last none (c ∷ xs)

pub IsTail-last : (t : Option ℕ) (xs : Timers) → t ≡ last none xs → IsTail t xs
IsTail-last t [] e = tt
IsTail-last t (c ∷ xs) e = e

pub last_of_tail :
    (t : Option ℕ) (ys : Timers) (c : ℕ × Task) (zs : Timers)
    → IsTail t (ys ++ (c ∷ zs))
    → t ≡ last none (ys ++ (c ∷ zs))
last_of_tail t [] c zs e = e
last_of_tail t (d ∷ ys) c zs e = e

pub record IsList (l : TimerList) (xs : Timers) : Type 0 where
  pub head_is : l.head ≡ first xs
  pub tail_is : IsTail l.tail xs
  pub chain : Chain l.memory none xs

abbrev pub listed : Memory → Timers → TimerList
listed m xs = record { head = first xs; tail = last none xs; memory = m }

pub listed-eq :
    (l : TimerList) (xs : Timers) → IsList l xs → l.tail ≡ last none xs → l ≡ listed l.memory xs
listed-eq l xs v e =
    ap (λ h. record { head = h; tail = l.tail; memory = l.memory }) v.head_is
    ∙ ap (λ t. record { head = first xs; tail = t; memory = l.memory }) e

-- The place of a timer in the order of expiry: behind those that do not expire later.
unfoldable pub insert : ℕ × Task → Timers → Timers
insert c [] = c ∷ []
insert c (d ∷ xs) = if ltb c.1.expire d.1.expire then c ∷ d ∷ xs else d ∷ insert c xs

pub has-insert :
    (a : ℕ) (c : ℕ × Task) (xs : Timers) → has a (insert c xs) ≡ ((c.0 == a) || has a xs)
unfolding insert
has-insert a c [] = refl
has-insert a c (d ∷ xs) = ground (arith, has-insert a c xs)
