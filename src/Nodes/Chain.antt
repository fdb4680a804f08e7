-- ===== src/Nodes/Chain.antt =====
-- What a doubly linked list of nodes stands for: its timers in order.
use you_shuang.Base.{
  ℕ, ◌≡◌, refl, sym, ap, ◌∙◌, Bool, true, false, ◌||◌, List, [], ◌∷◌, ◌++◌, Option, none, some,
  arith, ◌==◌, ◌⊎◌, inl, inr, ok, update,
}
use you_shuang.Nodes.{Node, NodeMemory, at, set_next, set_prev, delete, points_to}

-- The address of each timer and what it is for.
abbrev pub Nodes : Type 0 → Type 0
Nodes A = List (ℕ × A)

module _ {A : Type 0} where
  abbrev pub node : A → Option ℕ → Option ℕ → Node A
  node k p n = record { task = k; prev = p; next = n }

  abbrev pub has : ℕ → Nodes A → Bool
  has a [] = false
  has a ((p, k) ∷ xs) = (p == a) || has a xs

  abbrev pub first : Nodes A → Option ℕ
  first [] = none
  first ((a, k) ∷ xs) = some a

  -- The last of the timers, or what stands before them.
  abbrev pub last : Option ℕ → Nodes A → Option ℕ
  last p [] = p
  last p ((a, k) ∷ xs) = last (some a) xs

  -- Behind `prev` the timers follow one another, at different addresses, and the last one's `next` is
  -- null.
  abbrev pub Chain : NodeMemory A → Option ℕ → Nodes A → Type 0
  Chain m prev [] = Unit {0}
  Chain m prev ((a, k) ∷ xs) =
      (m a ≡ some (node k prev (first xs))) × (has a xs ≡ false) × Chain m (some a) xs

  -- Outside the timers the memory is the same.
  abbrev pub SameOutside : Nodes A → NodeMemory A → NodeMemory A → Type 0
  SameOutside xs m m' = (a : ℕ) → has a xs ≡ false → m' a ≡ m a

  pub has-append : (a : ℕ) (xs ys : Nodes A) → has a (xs ++ ys) ≡ (has a xs || has a ys)
  has-append a [] ys = refl
  has-append a (x ∷ xs) ys = ground (arith, has-append a xs ys)

  pub last-append : (p : Option ℕ) (xs ys : Nodes A) → last p (xs ++ ys) ≡ last (last p xs) ys
  last-append p [] ys = refl
  last-append p ((a, k) ∷ xs) ys = last-append (some a) xs ys

  -- A chain survives what spares its addresses.
  pub Chain-frame :
      (m m' : NodeMemory A) (prev : Option ℕ) (xs : Nodes A)
      → Chain m prev xs
      → ((a : ℕ) → has a xs ≡ true → m' a ≡ m a)
      → Chain m' prev xs
  Chain-frame m m' prev [] c same = tt
  Chain-frame m m' prev ((a, k) ∷ xs) c same = (
    same a (ground arith) ∙ c.0,
    c.1,
    Chain-frame m m' (some a) xs c.2 (λ b h. same b (ground arith)),
  )

  pub Chain-outside :
      (m m' : NodeMemory A) (prev : Option ℕ) (xs ys : Nodes A)
      → Chain m prev xs
      → SameOutside ys m m'
      → ((a : ℕ) → has a xs ≡ true → has a ys ≡ false)
      → Chain m' prev xs
  Chain-outside m m' prev xs ys c same apart =
      Chain-frame m m' prev xs c (λ a h. same a (apart a h))

  -- The part of a chain behind some of its timers, and the chain with another such part.
  pub Chain-drop :
      (m : NodeMemory A) (prev : Option ℕ) (xs ys : Nodes A)
      → Chain m prev (xs ++ ys)
      → Chain m (last prev xs) ys
  Chain-drop m prev [] ys c = c
  Chain-drop m prev ((a, k) ∷ xs) ys c = Chain-drop m (some a) xs ys c.2

  pub Chain-apart :
      (m : NodeMemory A) (prev : Option ℕ) (xs ys : Nodes A)
      → Chain m prev (xs ++ ys)
      → (a : ℕ) → has a xs ≡ true
      → has a ys ≡ false
  Chain-apart m prev [] ys c a h = cc
  Chain-apart m prev ((b, k) ∷ xs) ys c a h =
      ground (arith, has-append b xs ys, Chain-apart m (some b) xs ys c.2 a, c.1)

  -- One operation on a node that is known.
  module _ (m : NodeMemory A) (p : ℕ) (k : A) (a b : Option ℕ) (e : m p ≡ some (node k a b)) where
    pub at-node : at m (some p) ≡ ok (node k a b)
    unfolding at
    at-node = rw e

    pub set_next-node : (v : Option ℕ) → set_next m (some p) v ≡ ok (update m p (some (node k a v)))
    unfolding set_next
    set_next-node v = rw e

    pub set_prev-node : (v : Option ℕ) → set_prev m (some p) v ≡ ok (update m p (some (node k v b)))
    unfolding set_prev
    set_prev-node v = rw e

    pub delete-node : delete m p ≡ ok (update m p none)
    unfolding delete
    delete-node = rw e

  pub first-append :
      (xs ys ys' : Nodes A) → first ys' ≡ first ys → first (xs ++ ys') ≡ first (xs ++ ys)
  first-append [] ys ys' e = e
  first-append ((a, k) ∷ xs) ys ys' e = refl

  -- Another part behind the timers `xs`, which begins at the same address.
  pub Chain-replace :
      (m m' : NodeMemory A) (prev : Option ℕ) (xs ys ys' : Nodes A)
      → Chain m prev (xs ++ ys)
      → Chain m' (last prev xs) ys'
      → ((a : ℕ) → has a xs ≡ true → m' a ≡ m a)
      → first ys' ≡ first ys
      → ((a : ℕ) → has a xs ≡ true → has a ys' ≡ false)
      → Chain m' prev (xs ++ ys')
  Chain-replace m m' prev [] ys ys' c d same begin apart = d
  Chain-replace m m' prev ((a, k) ∷ xs) ys ys' c d same begin apart = (
    same a (ground arith)
        ∙ c.0
        ∙ ap (λ f. some (node k prev f)) (sym (first-append xs ys ys' begin)),
    ground (arith, has-append a xs ys', has-append a xs ys, c.1, apart a),
    Chain-replace m m' (some a) xs ys ys' c.2 d (λ b h. same b (ground arith)) begin
        (λ b h. apart b (ground arith)),
  )

  -- A list is empty, or has a last timer.
  pub snoc_cases :
      (xs : Nodes A) → (xs ≡ []) ⊎ ((ws : Nodes A) × (d : ℕ × A) × (xs ≡ ws ++ (d ∷ [])))
  snoc_cases [] = inl refl
  snoc_cases (x ∷ xs) = elim (snoc_cases xs) [
    | inl e ↦ inr ([], x, ap (◌∷◌ x) e)
    | inr (ws, d, e) ↦ inr (x ∷ ws, d, ap (◌∷◌ x) e)
  ]

  pub points_to-last :
      (q b : ℕ) (kb : A) (xs : Nodes A)
      → has q ((b, kb) ∷ xs) ≡ false
      → points_to (last (some b) xs) q ≡ false
  unfolding points_to
  points_to-last q b kb [] h = ground arith
  points_to-last q b kb ((a, k) ∷ xs) h = points_to-last q a k xs (ground arith)

  pub points_to-first :
      (q p : ℕ) (kp : A) (ws rest : Nodes A)
      → has q ws ≡ false
      → (p == q) ≡ false
      → points_to (first (ws ++ ((p, kp) ∷ rest))) q ≡ false
  unfolding points_to
  points_to-first q p kp [] rest h e = e
  points_to-first q p kp ((a, k) ∷ ws) rest h e = ground arith
