-- ===== src/ProcessPool/Child/Safe.antt =====
-- A child of the pool of 15-1 processpool.h with a class of tasks that keeps its promise.
use you_shuang.Base.{
  ℕ, ◌≤◌, ◌<◌, ◌≡◌, refl, sym, ap, ◌∙◌, true, ◌⊎◌, inl, inr, List, [], ◌∷◌, Option, none, some,
  arith, ltb, ◌==◌, Bool-cases, ok, Unless, Unless-bind,
}
use mathlib.Core.Option.{some_inj}
use mathlib.Core.Path.{subst}
use you_shuang.ProcessPool.{Signal}
use you_shuang.ProcessPool.Child.{
  user_per_process, TaskClass, IsTaskClass, PipeRead, told, pipe_again, pipe_failed, pipe_closed,
  Child, ChildEvent, on_pipe, on_sig_pipe, on_client, on_other, put, accept_client, on_parent,
  stops, on_signals, run_task, in_users, handle, handle_all, run_child,
}

module _ (C : TaskClass) (laws : IsTaskClass C) where
  -- Every object that was initialised has a place in the table, and is well-formed.
  abbrev pub AllValid : Child C → Type 0
  AllValid s = (fd : ℕ) (t : C.T) → s.users fd ≡ some t → (fd < user_per_process) × laws.IsValid t

  -- An event of a client is one of a connection that was accepted, and the calls of process() keep to
  -- their contract.
  abbrev IsFairEvent : Child C → ChildEvent C → Type 0
  IsFairEvent s (on_client sockfd g) = (t : C.T) × (s.users sockfd ≡ some t) × laws.IsFair g t
  IsFairEvent s _ = Unit {0}

  abbrev AreFair : Child C → List (ChildEvent C) → Type 0
  AreFair s [] = Unit {0}
  AreFair s (e ∷ es) = IsFairEvent s e × ((t : Child C) → handle C e s ≡ ok t → AreFair t es)

  abbrev pub AllFair : Child C → List (Option (List (ChildEvent C))) → Type 0
  AllFair s [] = Unit {0}
  AllFair s (none ∷ rest) = Unit {0}
  AllFair s (some es ∷ rest) =
      AreFair s es × ((t : Child C) → handle_all C es s ≡ ok t → AllFair t rest)

  -- accept gives a descriptor behind the table of the users.
  abbrev IsBeyond : ChildEvent C → Type 0
  IsBeyond (on_pipe read (some connfd)) = user_per_process ≤ connfd
  IsBeyond _ = ⊥

  abbrev AreBeyond : List (ChildEvent C) → Type 0
  AreBeyond [] = ⊥
  AreBeyond (e ∷ es) = IsBeyond e ⊎ AreBeyond es

  abbrev pub AnyBeyond : List (Option (List (ChildEvent C))) → Type 0
  AnyBeyond [] = ⊥
  AnyBeyond (none ∷ rest) = ⊥
  AnyBeyond (some es ∷ rest) = AreBeyond es ⊎ AnyBeyond rest

  put-valid :
      (users : ℕ → Option C.T) (c : ℕ) (u : C.T)
      → c < user_per_process
      → laws.IsValid u
      → ((fd : ℕ) (t : C.T) → users fd ≡ some t → (fd < user_per_process) × laws.IsValid t)
      → (fd : ℕ) (t : C.T) → put C users c u fd ≡ some t
      → (fd < user_per_process) × laws.IsValid t
  put-valid users c u h w v fd t e = elim (Bool-cases (c == fd)) [
    | inl here ↦
        let z : some u ≡ some t = rw here at e in
        (ground arith, subst laws.IsValid (some_inj.0 z) w)
    | inr there ↦ let z : users fd ≡ some t = rw there at e in v fd t z
  ]

  accept_client-AllValid :
      (o : Option ℕ) (s : Child C) (read : PipeRead)
      → AllValid s
      → Unless (IsBeyond (on_pipe read o)) AllValid (accept_client C o s)
  unfolding accept_client in_users
  accept_client-AllValid none s read v = v
  accept_client-AllValid (some c) s read v = elim (Bool-cases (ltb c user_per_process)) [
    | inl y ↦ rw y (put-valid s.users c (C.init c) (ground arith) (laws.init-IsValid c) v)
    | inr n ↦ rw n (ground arith)
  ]

  on_parent-AllValid :
      (read : PipeRead) (o : Option ℕ) (s : Child C)
      → AllValid s
      → Unless (IsBeyond (on_pipe read o)) AllValid (on_parent C read o s)
  unfolding on_parent
  on_parent-AllValid told o s v = accept_client-AllValid o s told v
  on_parent-AllValid pipe_again o s v = accept_client-AllValid o s pipe_again v
  on_parent-AllValid pipe_failed (some c) s v = v
  on_parent-AllValid pipe_failed none s v = v
  on_parent-AllValid pipe_closed (some c) s v = v
  on_parent-AllValid pipe_closed none s v = v

  on_signals-same : (gs : List Signal) (s : Child C) → (on_signals C gs s).users ≡ s.users
  unfolding on_signals
  on_signals-same [] s = refl
  on_signals-same (g ∷ gs) s = on_signals-same gs (record s { stop = stops C g s.stop })

  handle-AllValid :
      (e : ChildEvent C) (s : Child C)
      → AllValid s
      → IsFairEvent s e
      → Unless (IsBeyond e) AllValid (handle C e s)
  unfolding handle run_task in_users
  handle-AllValid (on_pipe read o) s v f = on_parent-AllValid read o s v
  handle-AllValid (on_sig_pipe gs) s v f =
      λ fd t e. v fd t (ap (λ u. u fd) (sym (on_signals-same gs s)) ∙ e)
  handle-AllValid (on_client sockfd g) s v f =
      let (t, there, fair) = f in
      let (inside, good) = v sockfd t there in
      let (r, go, valid) = laws.process-IsValid g t good fair in
      let below : ltb sockfd user_per_process ≡ true = ground (arith, inside) in
      simp (below, there, go) (put-valid s.users sockfd r.0 inside valid v)
  handle-AllValid on_other s v f = v

  handle_all-AllValid :
      (es : List (ChildEvent C)) (s : Child C)
      → AllValid s
      → AreFair s es
      → Unless (AreBeyond es) AllValid (handle_all C es s)
  unfolding handle_all
  handle_all-AllValid [] s v f = v
  handle_all-AllValid (e ∷ es) s v f =
      Unless-bind (IsBeyond e) (AreBeyond es) (AreBeyond (e ∷ es)) AllValid AllValid (handle C e s)
        (handle_all C es) (handle-AllValid e s v f.0) inl inr
        (λ t go w. handle_all-AllValid es t w (f.1 t go))

  -- For any class of tasks that keeps its promise.
  pub run_child-AllValid :
      (rounds : List (Option (List (ChildEvent C)))) (s : Child C)
      → AllValid s
      → AllFair s rounds
      → Unless (AnyBeyond rounds) AllValid (run_child C rounds s)
  unfolding run_child
  run_child-AllValid [] s v f = v
  run_child-AllValid (none ∷ rest) s v f = v
  run_child-AllValid (some es ∷ rest) s v f = elim (Bool-cases s.stop) [
    | inl e ↦ simp e v
    | inr e ↦ simp e (
        Unless-bind (AreBeyond es) (AnyBeyond rest) (AnyBeyond (some es ∷ rest)) AllValid AllValid
          (handle_all C es s) (run_child C rest) (handle_all-AllValid es s v f.0) inl inr
          (λ t go w. run_child-AllValid rest t w (f.1 t go)))
  ]
