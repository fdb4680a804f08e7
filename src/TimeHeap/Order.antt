-- ===== src/TimeHeap/Order.antt =====
-- The order of the heap of 11-6 timeHeap.h, and what a write to its array does.
use mathlib.Core.List.Perm
use mathlib.Core.List.{Perm}
use you_shuang.Base.{
  ℕ, zero, suc, ◌≤◌, ◌<◌, ◌≡◌, ◌≢◌, refl, sym, ap, ◌∙◌, List, [], ◌∷◌, Option, none, some, arith,
  ◌==◌, if◌then◌else◌, Run, ok, length, get_or, set, get_or-set, length-set, load-ok, Returns,
  Returns-map,
}
use you_shuang.TimeHeap.{Timer, Memory, Array, expire_of, expire_at, parent}

-- The pointer at an index, null past the end.
abbrev pub at : Array → ℕ → Option ℕ
at a i = get_or a i none

unfoldable pub expire_in : Option Timer → ℕ
expire_in none = 0
expire_in (some t) = t.expire

-- The expiry that a pointer leads to, 0 if it leads nowhere.
unfoldable pub key : Memory → Option ℕ → ℕ
unfolding expire_in
key m none = 0
key m (some p) = expire_in (m p)

-- The pointer leads to a timer.
abbrev pub IsLive : Memory → Option ℕ → Type 0
IsLive m o = expire_of m o ≡ ok (key m o)

pub expire_at-ok :
    (m : Memory) (a : Array) (i : ℕ)
    → i < length a
    → IsLive m (at a i)
    → expire_at m a i ≡ ok (key m (at a i))
unfolding expire_at
expire_at-ok m a i h l = rw (load-ok a i none h) l

-- Every edge whose parent is at `lo` or later is in order, among the first `n` entries.
abbrev pub IsHeapFrom : ℕ → Memory → ℕ → Array → Type 0
IsHeapFrom lo m n a =
    (c : ℕ) → 0 < c → c < n → lo ≤ parent c → key m (at a (parent c)) ≤ key m (at a c)

abbrev pub AllLive : Memory → ℕ → Array → Type 0
AllLive m n a = (i : ℕ) → i < n → IsLive m (at a i)

-- The edges past `i`, from its parent to its children, are in order.
abbrev pub IsBridged : ℕ → Memory → ℕ → Array → ℕ → Type 0
IsBridged lo m n a i =
    (c : ℕ)
    → 0 < c
    → c < n
    → parent c ≡ i
    → 0 < i
    → lo ≤ parent i
    → key m (at a (parent i)) ≤ key m (at a c)

-- No pointer stands twice.
abbrev pub IsApart : ℕ → Array → Type 0
IsApart n a = (i j : ℕ) → i < n → j < n → at a i ≡ at a j → i ≡ j

-- Each of the first `n` entries of `b` is one of `a`, and the other way round.
pub record Moves (n : ℕ) (a b : Array) : Type 0 where
  pub comes_from : (i : ℕ) → i < n → (j : ℕ) × (j < n) × (at b i ≡ at a j)
  pub goes_to : (i : ℕ) → i < n → (j : ℕ) × (j < n) × (at a i ≡ at b j)
  pub apart : IsApart n a → IsApart n b

pub Moves-refl : (n : ℕ) (a : Array) → Moves n a a
Moves-refl n a = record {
  comes_from = λ i h. (i, h, refl);
  goes_to = λ i h. (i, h, refl);
  apart = λ d. d;
}

pub Moves-trans : {n : ℕ} {a b c : Array} → Moves n b c → Moves n a b → Moves n a c
Moves-trans f g = record {
  comes_from =
      λ i h. let (j, p, e) = f.comes_from i h in let (k, q, d) = g.comes_from j p in (k, q, e ∙ d);
  goes_to = λ i h. let (j, p, e) = g.goes_to i h in let (k, q, d) = f.goes_to j p in (k, q, e ∙ d);
  apart = λ d. f.apart (g.apart d);
}

-- The index at which an entry stands once those at `hole` and `child` have changed places.
abbrev exchanged_index : ℕ → ℕ → ℕ → ℕ
exchanged_index hole child i = if child == i then hole else if hole == i then child else i

exchange-at :
    (a : Array) (hole child : ℕ) (x : Option ℕ) (i : ℕ)
    → hole < length a
    → child < length a
    → hole ≢ child
    → at (set (set a hole (at a child)) child x) i
      ≡ at (set a hole x) (exchanged_index hole child i)
exchange-at a hole child x i h k ne = ground (
  arith,
  get_or-set (set a hole (at a child)) child i x none,
  get_or-set a hole i (at a child) none,
  get_or-set a hole (exchanged_index hole child i) x none,
  length-set a hole (at a child),
)

pub exchange-Moves :
    (n : ℕ) (a : Array) (hole child : ℕ) (x : Option ℕ)
    → hole < n
    → hole < length a
    → child < n
    → child < length a
    → hole ≢ child
    → Moves n (set a hole x) (set (set a hole (at a child)) child x)
exchange-Moves n a hole child x hn h kn k ne =
    let there = λ (i : ℕ). exchange-at a hole child x i h k ne in
    let inside : (i : ℕ) → i < n → exchanged_index hole child i < n = λ i p. ground arith in
    let twice : (i : ℕ) → exchanged_index hole child (exchanged_index hole child i) ≡ i =
      λ i. ground arith in
    record {
      comes_from = λ i p. (exchanged_index hole child i, inside i p, there i);
      goes_to = λ i p. (
        exchanged_index hole child i,
        inside i p,
        ap (at (set a hole x)) (sym (twice i)) ∙ sym (there (exchanged_index hole child i)),
      );
      apart = λ d i j p q e.
          let same =
            d (exchanged_index hole child i) (exchanged_index hole child j) (inside i p)
              (inside j q) (sym (there i) ∙ e ∙ there j) in
          sym (twice i) ∙ ap (exchanged_index hole child) same ∙ twice j;
    }

-- `b` has the entries of `a`, in order from `lo` on; the entries behind the first `n` stay.
pub record Sifted (lo : ℕ) (m : Memory) (n : ℕ) (a b : Array) : Type 0 where
  pub ordered : IsHeapFrom lo m n b
  pub live : AllLive m n b
  pub same : Perm b a
  pub size : length b ≡ length a
  pub rest : (i : ℕ) → n ≤ i → at b i ≡ at a i
  pub moves : Moves n a b

-- A write trades the old entry for the new one.
trade-perm {ℓ} :
    {A : Type ℓ} (d v : A) (a : List A) (i : ℕ)
    → i < length a
    → Perm (get_or a i d ∷ set a i v) (v ∷ a)
unfolding get_or set
trade-perm d v [] i h = elim h [ ]
trade-perm d v (x ∷ a) zero h = Perm.swap v x a
trade-perm d v (x ∷ a) (suc i) h =
    Perm.trans (Perm.swap x (get_or a i d) (set a i v))
      (Perm.trans (Perm.cons x (trade-perm d v a i (omega arith))) (Perm.swap v x a))

-- With `x` put into `hole`, moving the entry at `child` into `hole` and `x` to `child` keeps the
-- entries.
pub exchange-perm :
    (a : Array) (hole child : ℕ) (x : Option ℕ)
    → hole < length a
    → child < length a
    → hole ≢ child
    → Perm (set (set a hole (at a child)) child x) (set a hole x)
exchange-perm a hole child x h k ne =
    let b = set a hole (at a child) in
    let v = set a hole x in
    let kept : at b child ≡ at a child =
      ground (arith, get_or-set a hole child (at a child) none) in
    let y = at a child in
    let o = at a hole in
    let s = set b child x in
    let written = rw kept at (trade-perm none x b child (rw length-set k)) in
    let moved = trade-perm none y a hole h in
    let put = Perm.symm (trade-perm none x a hole h) in
    let both : Perm (o ∷ y ∷ s) (o ∷ y ∷ v) = Perm.trans (Perm.cons o written) (
      Perm.trans (Perm.swap x o b) (
        Perm.trans (Perm.cons x moved)
          (Perm.trans (Perm.swap y x a) (Perm.trans (Perm.cons y put) (Perm.swap o y v))))) in
    Perm.cons_inv (Perm.cons_inv both)

-- What putting in order after such an exchange gives.
pub Sifted-exchange :
    (m : Memory) (n : ℕ) (temp : Option ℕ) (a : Array) (hole lo child : ℕ) (r : Run Array)
    → hole < n
    → n ≤ length a
    → child < n
    → hole ≢ child
    → Returns (Sifted lo m n (set (set a hole (at a child)) child temp)) r
    → Returns (Sifted lo m n (set a hole temp)) r
Sifted-exchange m n temp a hole lo child r p fits h ne done =
    let size = length-set a hole temp in
    let in_hole : hole < length a = omega arith in
    let in_child : child < length a = omega arith in
    Returns-map (Sifted lo m n (set (set a hole (at a child)) child temp))
      (Sifted lo m n (set a hole temp)) r done
      λ b s. record {
        ordered = s.ordered;
        live = s.live;
        same = Perm.trans s.same (exchange-perm a hole child temp in_hole in_child ne);
        size =
            s.size
            ∙ length-set (set a hole (at a child)) child temp
            ∙ length-set a hole (at a child)
            ∙ sym size;
        rest = λ i q. ground (
          arith,
          s.rest i q,
          get_or-set (set a hole (at a child)) child i temp none,
          get_or-set a hole i (at a child) none,
          get_or-set a hole i temp none,
          length-set a hole (at a child),
          p,
        );
        moves = Moves-trans s.moves (exchange-Moves n a hole child temp p in_hole h in_child ne);
      }

-- The entries after an exchange.
pub exchanged-at :
    (a : Array) (hole child : ℕ) (x : Option ℕ) (c : ℕ)
    → hole < length a
    → child < length a
    → at (set (set a hole (at a child)) child x) c
      ≡ (if child == c then x else if hole == c then at a child else at a c)
exchanged-at a hole child x c h k = rw (
  get_or-set (set a hole (at a child)) child c x none (rw length-set k),
  get_or-set a hole c (at a child) none h,
)
