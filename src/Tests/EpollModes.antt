-- ===== src/Tests/EpollModes.antt =====
-- Tests of EpollModes.
use you_shuang.Base.{
  ℕ, zero, suc, ◌≤◌, ◌<◌, ◌≡◌, List, [], ◌∷◌, ◌++◌, some, arith, refl, ap, take, drop, length,
}
use you_shuang.Base.Bytes.{Received, again, bytes}
use you_shuang.EpollModes.{Kernel, Server, on_readable, et}
use you_shuang.EpollModes.Agree.{IsKernel, Agrees, lt_rounds, et-Agrees}

-- A kernel with one connection, that gives all that it is asked for.
abbrev recv_from : ℕ → ℕ → List ℕ → Received × List ℕ
recv_from fd n [] = (again, [])
recv_from fd n (c ∷ cs) = (bytes (take n (c ∷ cs)), drop n (c ∷ cs))

abbrev kernel : Kernel
kernel = record { Sockets = List ℕ; recv = recv_from }

length-take : (n : ℕ) (xs : List ℕ) → length (take n xs) ≤ n
length-take zero xs = omega arith
length-take (suc n) [] = omega arith
length-take (suc n) (x ∷ xs) = omega (arith, length-take n xs)

take-drop : (n : ℕ) (xs : List ℕ) → xs ≡ take n xs ++ drop n xs
take-drop zero xs = refl
take-drop (suc n) [] = refl
take-drop (suc n) (x ∷ xs) = ap (◌∷◌ x) (take-drop n xs)

kernel_some :
    (n : ℕ) (k : List ℕ)
    → 0 < n
    → 0 < length k
    → (b : ℕ) × (bs : List ℕ) × (k' : List ℕ) × (recv_from 7 n k ≡ (bytes (b ∷ bs), k'))
      × (length (b ∷ bs) ≤ n)
      × (k ≡ (b ∷ bs) ++ k')
kernel_some n [] p q = absurd (omega arith)
kernel_some zero (c ∷ cs) p q = absurd (omega arith)
kernel_some (suc n) (c ∷ cs) p q =
    (c, take n cs, drop n cs, refl, omega (arith, length-take n cs), ap (◌∷◌ c) (take-drop n cs))

kernel_none :
    (n : ℕ) (k : List ℕ)
    → 0 < n
    → k ≡ []
    → (k' : List ℕ) × (recv_from 7 n k ≡ (again, k')) × (k' ≡ [])
kernel_none n k p e = ([], ap (recv_from 7 n) e, refl)

abbrev kernel-IsKernel : IsKernel kernel 7
kernel-IsKernel = record { unread = λ k. k; recv-some = kernel_some; recv-none = kernel_none }

-- Twelve bytes, which take two calls of recv.
abbrev twelve : Server kernel
twelve = record { sockets = 1 ∷ 2 ∷ 3 ∷ 4 ∷ 5 ∷ 6 ∷ 7 ∷ 8 ∷ 9 ∷ 10 ∷ 11 ∷ 12 ∷ []; acts = [] }

et-Agrees_example :
    (e : Server kernel) × (et kernel 13 (on_readable 7 ∷ []) twelve ≡ some e)
    × Agrees kernel 7 kernel-IsKernel twelve (lt_rounds kernel 7 kernel-IsKernel 13 twelve) e
et-Agrees_example = et-Agrees kernel 7 kernel-IsKernel 13 twelve (omega arith)
