-- ===== src/NonactiveConnect/Gone.antt =====
-- The list of 11-2 lst_timer.h where every timer of it has been deleted.
use you_shuang.Base.{
  ℕ, zero, suc, ◌<◌, ◌≡◌, refl, ap, ◌∙◌, true, false, inl, inr, Option, none, some, arith, ltb,
  ◌==◌, Bool-cases, Option-cases, fault, update, Returns,
}
use you_shuang.Nodes.{Node, at, set_next, set_prev, delete, points_to}
use you_shuang.TimerList.{Task, Memory, TimerList, add_timer, del_timer}
use you_shuang.NonactiveConnect.Known.{is_reused}

module _ (m : Memory) (h : (p : ℕ) → m p ≡ none) where
  pub at-Gone : (o : Option ℕ) → at m o ≡ fault
  unfolding at
  at-Gone none = refl
  at-Gone (some p) = rw (h p) refl

  pub set_next-Gone : (o v : Option ℕ) → set_next m o v ≡ fault
  unfolding set_next
  set_next-Gone none v = refl
  set_next-Gone (some p) v = rw (h p) refl

  pub delete-Gone : (p : ℕ) → delete m p ≡ fault
  unfolding delete
  delete-Gone p = rw (h p) refl

-- A timer that was deleted cannot be taken out.
pub del_timer-Gone :
    (l : TimerList) (t : ℕ) → ((p : ℕ) → l.memory p ≡ none) → del_timer l (some t) ≡ fault
unfolding del_timer
del_timer-Gone l t h = elim (Bool-cases (points_to l.head t)) [
  | inl e ↦ elim (Bool-cases (points_to l.tail t)) [
    | inl f ↦ rw (e, f, delete-Gone l.memory h t) refl
    | inr f ↦ rw (e, f, at-Gone l.memory h l.head) refl
  ]
  | inr e ↦ elim (Bool-cases (points_to l.tail t)) [
    | inl f ↦ rw (e, f, at-Gone l.memory h l.tail) refl
    | inr f ↦ rw (e, f, at-Gone l.memory h (some t)) refl
  ]
]

-- A timer in an empty list, or one at the address of the first: it is the first, and there.
pub record AtHead (timer : ℕ) (l : TimerList) : Type 0 where
  pub head_is : l.head ≡ some timer
  pub there : (n : Node Task) × (l.memory timer ≡ some n)
  pub alone : (q : ℕ) → (timer == q) ≡ false → l.memory q ≡ none

module _ (timer : ℕ) (k : Task) (l : TimerList) (h : (p : ℕ) → l.memory p ≡ none) where
  abbrev pub fresh : TimerList
  fresh = record l {
    memory = update l.memory timer (some (record { task = k; prev = none; next = none }));
  }

  same : (timer == timer) ≡ true
  same = ground arith

  pub add_timer-AtHead :
      (fuel : ℕ)
      → is_reused l.head timer ≡ true
      → 0 < fuel
      → Returns (AtHead timer) (add_timer fuel fresh (some timer))
  unfolding add_timer at set_next set_prev
  add_timer-AtHead zero e f = absurd (omega arith)
  add_timer-AtHead (suc fuel) e f = elim (Option-cases l.head) [
    | inl z ↦ simp z (record {
      head_is = refl;
      there = (record { task = k; prev = none; next = none }, rw same refl);
      alone = λ q n. rw n (h q);
    })
    | inr (p, z) ↦
        let again : (p == timer) ≡ true = rw z at e in
        let one : p ≡ timer = ground arith in
        let z' : l.head ≡ some timer = z ∙ ap some one in
        let late : ltb k.expire k.expire ≡ false = ground arith in
        simp (z', same, late)
          (record {
            head_is = refl;
            there = (record { task = k; prev = some timer; next = none }, rw same refl);
            alone = λ q n'. rw n' (h q);
          })
  ]

  pub add_timer-Gone :
      (fuel p : ℕ)
      → l.head ≡ some p
      → (p == timer) ≡ false
      → add_timer fuel fresh (some timer) ≡ fault
  unfolding add_timer at
  add_timer-Gone fuel p z n =
      let n' : (timer == p) ≡ false = ground (arith, n) in simp (z, same, n', h p) refl
