-- ===== src/TimeWheel/Only.antt =====
-- A timer on the wheel of 11-5 time_wheel_timer.h whose call no other timer has.
use mathlib.Core.Path.{subst}
use mathlib.Core.List.{Memᴰ}
use you_shuang.Base.{ℕ, ◌<◌, ◌≡◌, ◌≢◌, ap, ◌∙◌, sym, true, inl, inr, some, arith, ◌==◌, Bool-cases}
use you_shuang.TimeWheel.{slot_count, TwTask, TimeWheel, Calls}
use you_shuang.TimeWheel.Sweep.{Timers, waits, turned, AllCallable}
use you_shuang.TimeWheel.Wheel.{IsWheel, after, Turned}
use you_shuang.TimeWheel.Members.{Memᴰ-kept, Memᴰ-calls, has-Memᴰ}

-- No other timer on the wheel has the call `f` of `d`.
abbrev pub IsOnly : (ℕ → Timers) → ℕ → TwTask → ℕ → ℕ → Type 0
IsOnly lists a k f d =
    (i b : ℕ) (j : TwTask)
    → i < slot_count
    → Memᴰ (b, j) (lists i)
    → j.cb_func ≡ some f
    → j.user_data ≡ some d
    → ◌≡◌ {A = ℕ × TwTask} (b, j) (a, k)

module _ (w : TimeWheel) (lists : ℕ → Timers) (v : IsWheel w lists) (slot a : ℕ) (k : TwTask)
    (f d : ℕ) (on : slot < slot_count) (there : Memᴰ (a, k) (lists slot))
    (only : IsOnly lists a k f d) where
  -- Where the timer's call is, there is the timer.
  only-slot :
      (i b : ℕ) (j : TwTask)
      → i < slot_count
      → Memᴰ (b, j) (lists i)
      → ◌≡◌ {A = ℕ × TwTask} (b, j) (a, k)
      → i ≡ slot
  only-slot i b j h m e =
      v.apart a i slot h on (has-Memᴰ a k (lists i) (subst (λ x. Memᴰ x (lists i)) e m))
        (has-Memᴰ a k (lists slot) there)

  pub turned-IsOnly : w.cur_slot ≡ slot → IsOnly (after w lists) a (turned k) f d
  turned-IsOnly here i b j h m p q = elim (Bool-cases (w.cur_slot == i)) [
    | inl y ↦
        let (l, t, e) = Memᴰ-kept b j (lists i) (rw y at m) in
        ap (λ x. (b, x)) e
        ∙ ap (λ x. (x.0, turned x.1))
            (only i b l h t (ap TwTask.cb_func (sym e) ∙ p) (ap TwTask.user_data (sym e) ∙ q))
    | inr n ↦
        let t : Memᴰ (b, j) (lists i) = rw n at m in
        let z = only-slot i b j h t (only i b j h t p q) in absurd (ground (arith, here, z))
  ]

  pub same-IsOnly : w.cur_slot ≢ slot → IsOnly (after w lists) a k f d
  same-IsOnly away i b j h m p q = elim (Bool-cases (w.cur_slot == i)) [
    | inl y ↦
        let (l, t, e) = Memᴰ-kept b j (lists i) (rw y at m) in
        let z =
          only-slot i b l h t
            (only i b l h t (ap TwTask.cb_func (sym e) ∙ p) (ap TwTask.user_data (sym e) ∙ q)) in
        absurd (ground (arith, away, z))
    | inr n ↦ only i b j h (rw n at m) p q
  ]

  -- A tick does not call the timer while it waits, or stands in another slot.
  pub tick-quiet :
      (r : TimeWheel × Calls)
      → Turned w lists r
      → AllCallable (lists w.cur_slot)
      → (w.cur_slot ≡ slot → waits k ≡ true)
      → ¬ Memᴰ (f, d) r.1
  tick-quiet r t c more m =
      let (b, j, m', still, p, q) = Memᴰ-calls f d (lists w.cur_slot) c (rw (t.called) at m) in
      let e = only w.cur_slot b j v.cur m' p q in
      let waiting : waits j ≡ true =
        ap (λ x. waits x.1) e ∙ more (only-slot w.cur_slot b j v.cur m' e) in
      cc
