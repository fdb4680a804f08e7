-- ===== src/WebServer/Counts.antt =====
-- The connections of 15-6 WebServer.cpp that are open.
use you_shuang.Base.{
  ℕ, zero, suc, ◌+◌, ◌≤◌, ◌<◌, ◌≡◌, refl, sym, ap, false, inl, inr, Option, none, some, arith, ◌==◌,
  Bool-cases, update,
}
use you_shuang.Http.Conn.{HttpConn}

abbrev pub socket_count : Option ℕ → ℕ
socket_count none = 0
socket_count (some fd) = 1

abbrev pub is_open : Option HttpConn → ℕ
is_open none = 0
is_open (some c) = socket_count c.sockfd

-- Of the objects in front of `n`, those that have a descriptor.
pub open_count : (ℕ → Option HttpConn) → ℕ → ℕ
open_count users zero = 0
open_count users (suc n) = is_open (users n) + open_count users n

pub open_count-none : (n : ℕ) → open_count (λ fd. none) n ≡ 0
unfolding open_count
open_count-none zero = refl
open_count-none (suc n) = omega (arith, open_count-none n)

open_count-above :
    (users : ℕ → Option HttpConn) (fd n : ℕ) (o : Option HttpConn)
    → n ≤ fd
    → open_count (update users fd o) n ≡ open_count users n
unfolding open_count
open_count-above users fd zero o h = refl
open_count-above users fd (suc n) o h =
    let other : (fd == n) ≡ false = ground arith in
    let rest = open_count-above users fd n o (omega arith) in
    rw other (ap (λ k. is_open (users n) + k) rest)

-- One object is written.
pub open_count-update :
    (users : ℕ → Option HttpConn) (fd n : ℕ) (o : Option HttpConn)
    → fd < n
    → open_count (update users fd o) n + is_open (users fd) ≡ open_count users n + is_open o
unfolding open_count
open_count-update users fd zero o h = absurd (omega arith)
open_count-update users fd (suc n) o h = elim (Bool-cases (fd == n)) [
  | inl e ↦
      let here : fd ≡ n = ground arith in
      let old : is_open (users n) ≡ is_open (users fd) = ap (λ k. is_open (users k)) (sym here) in
      let rest = open_count-above users fd n o (omega (arith, here)) in
      rw e (omega (arith, old, rest))
  | inr e ↦ let rest = open_count-update users fd n o (ground arith) in rw e (omega (arith, rest))
]
