-- ===== src/EpollModes/Agree.antt =====
-- The two modes of 9-3 ET LT.cpp read the same data.
use mathlib.Core.List.{append_assoc, append-nil}
use you_shuang.Base.{
  ℕ, zero, suc, ◌-◌, ◌≤◌, ◌<◌, ◌≡◌, refl, sym, ap, ◌∙◌, Bool, true, false, List, [], ◌∷◌, ◌++◌, map,
  some, arith, length, length-append, if◌then◌else◌,
}
use you_shuang.Base.Bytes.{again, bytes}
use you_shuang.EpollModes.{
  buffer_size, Kernel, Act, print_got, read_later, on_readable, Server, do_act, with_sockets, lt,
  et_loop, et_next, et,
}

-- What recv promises of an open connection on which no more data comes: it gives some of the data
-- that has not been read, in order and no more than it is asked for, and EAGAIN when there is none.
pub record IsKernel (K : Kernel) (fd : ℕ) : Type 0 where
  pub unread : K.Sockets → List ℕ
  pub recv-some :
      (n : ℕ) (k : K.Sockets)
      → 0 < n
      → 0 < length (unread k)
      → (b : ℕ) × (bs : List ℕ) × (k' : K.Sockets) × (K.recv fd n k ≡ (bytes (b ∷ bs), k'))
        × (length (b ∷ bs) ≤ n)
        × (unread k ≡ (b ∷ bs) ++ unread k')
  pub recv-none :
      (n : ℕ) (k : K.Sockets)
      → 0 < n
      → unread k ≡ []
      → (k' : K.Sockets) × (K.recv fd n k ≡ (again, k')) × (unread k' ≡ [])

positive : 0 < buffer_size - 1
positive = omega arith

abbrev pub concat : List (List ℕ) → List ℕ
concat [] = []
concat (p ∷ ps) = p ++ concat ps

-- Each piece has a byte, and fits the buffer.
abbrev pub AreShort : List (List ℕ) → Type 0
AreShort [] = Unit {0}
AreShort (p ∷ ps) = (0 < length p) × (length p ≤ buffer_size - 1) × AreShort ps

-- The data `unread` is printed piece by piece, in order, a line for each piece.
abbrev pub AllPrinted : List ℕ → List Act → List Act → Type 0
AllPrinted unread before after =
    (pieces : List (List ℕ)) × (concat pieces ≡ unread)
    × AreShort pieces
    × (after ≡ before ++ map print_got pieces)

module _ (K : Kernel) (fd : ℕ) (laws : IsKernel K fd) where
  -- epoll reports the connection in LT mode for as long as there is data.
  abbrev is_ready : List ℕ → Bool
  is_ready [] = false
  is_ready (b ∷ bs) = true

  unfoldable pub lt_rounds : ℕ → Server K → Server K
  lt_rounds zero s = s
  lt_rounds (suc n) s =
      let rest = lt_rounds n (lt K (on_readable fd ∷ []) s) in
      if is_ready (laws.unread s.sockets) then rest else s

  -- One event in ET mode against the rounds in LT mode: `e` is the end of the one, `l` of the other.
  pub record Agrees (s l e : Server K) : Type 0 where
    pub acts_same : e.acts ≡ l.acts ++ (read_later ∷ [])
    pub all_printed : AllPrinted (laws.unread s.sockets) s.acts l.acts
    pub lt_drained : laws.unread l.sockets ≡ []
    pub et_drained : laws.unread e.sockets ≡ []

  et_loop-again :
      (fuel : ℕ) (s : Server K) (k : K.Sockets)
      → K.recv fd (buffer_size - 1) s.sockets ≡ (again, k)
      → et_loop K (suc fuel) fd s ≡ some (do_act K read_later (with_sockets K k s))
  unfolding et_loop
  et_loop-again fuel s k e = simp e refl

  et_loop-bytes :
      (fuel b : ℕ) (bs : List ℕ) (s : Server K) (k : K.Sockets)
      → K.recv fd (buffer_size - 1) s.sockets ≡ (bytes (b ∷ bs), k)
      → et_loop K (suc fuel) fd s
        ≡ et_loop K fuel fd (do_act K (print_got (b ∷ bs)) (with_sockets K k s))
  unfolding et_loop
  et_loop-bytes fuel b bs s k e = simp e refl

  lt-bytes :
      (b : ℕ) (bs : List ℕ) (s : Server K) (k : K.Sockets)
      → K.recv fd (buffer_size - 1) s.sockets ≡ (bytes (b ∷ bs), k)
      → lt K (on_readable fd ∷ []) s ≡ do_act K (print_got (b ∷ bs)) (with_sockets K k s)
  unfolding lt
  lt-bytes b bs s k e = simp e refl

  -- A part of the data that has been printed first.
  printed-Agrees :
      (b : ℕ) (bs : List ℕ) (k : K.Sockets) (s l e : Server K)
      → laws.unread s.sockets ≡ (b ∷ bs) ++ laws.unread k
      → length (b ∷ bs) ≤ buffer_size - 1
      → Agrees (do_act K (print_got (b ∷ bs)) (with_sockets K k s)) l e
      → Agrees s l e
  printed-Agrees b bs k s l e split small a = record {
    acts_same = a.acts_same;
    all_printed =
        let (pieces, whole, short, lines) = a.all_printed in
        (
          (b ∷ bs) ∷ pieces,
          ap (λ x. (b ∷ bs) ++ x) whole ∙ sym split,
          (omega arith, small, short),
          lines ∙ append_assoc s.acts (print_got (b ∷ bs) ∷ []) (map print_got pieces),
        );
    lt_drained = a.lt_drained;
    et_drained = a.et_drained;
  }

  et_loop-Agrees :
      (fuel : ℕ) (s : Server K)
      → length (laws.unread s.sockets) < fuel
      → (e : Server K) × (et_loop K fuel fd s ≡ some e) × Agrees s (lt_rounds fuel s) e
  unfolding lt_rounds
  et_loop-Agrees zero s h = absurd (omega arith)
  et_loop-Agrees (suc fuel) s h = by_unread (laws.unread s.sockets) refl (et_loop-Agrees fuel)
    where
      by_unread :
          (u : List ℕ)
          → laws.unread s.sockets ≡ u
          → ((t : Server K)
              → length (laws.unread t.sockets) < fuel
              → (e : Server K) × (et_loop K fuel fd t ≡ some e) × Agrees t (lt_rounds fuel t) e)
          → (e : Server K) × (et_loop K (suc fuel) fd s ≡ some e)
            × Agrees s (lt_rounds (suc fuel) s) e
      by_unread [] z later =
          let (k, r, d) = laws.recv-none (buffer_size - 1) s.sockets positive z in
          (
            do_act K read_later (with_sockets K k s),
            et_loop-again fuel s k r,
            simp z (record {
              acts_same = refl;
              all_printed = ([], sym z, tt, sym (append-nil s.acts));
              lt_drained = z;
              et_drained = d;
            }),
          )
      by_unread (c ∷ cs) z later =
          let (b, bs, k, r, small, split) =
            laws.recv-some (buffer_size - 1) s.sockets positive (rw z (omega arith)) in
          let next = do_act K (print_got (b ∷ bs)) (with_sockets K k s) in
          let less : length (laws.unread k) < fuel =
            omega (arith, h, ap length split, length-append (b ∷ bs) (laws.unread k)) in
          let (e, go, a) = later next less in
          (
            e,
            et_loop-bytes fuel b bs s k r ∙ go,
            simp (z, lt-bytes b bs s k r)
                (printed-Agrees b bs k s (lt_rounds fuel next) e split small a),
          )

  et-one :
      (fuel : ℕ) (s e : Server K)
      → et_loop K fuel fd s ≡ some e
      → et K fuel (on_readable fd ∷ []) s ≡ some e
  unfolding et
  et-one fuel s e go = ap (λ o. et_next K o (et K fuel [])) go

  -- One event of a connection in ET mode does what as many events in LT mode do as there is data for,
  -- and says then that it reads later. Both print a line for each of the pieces that recv gives, which
  -- are all that has come, in order, and leave nothing to be read: a line has the number of bytes of
  -- its piece and the bytes in front of the first NUL. recv gives some of the data that is there and no more than it is asked for, no more
  -- data comes meanwhile, and the loop of ET has a round more than there are bytes.
  pub et-Agrees :
      (fuel : ℕ) (s : Server K)
      → length (laws.unread s.sockets) < fuel
      → (e : Server K) × (et K fuel (on_readable fd ∷ []) s ≡ some e)
        × Agrees s (lt_rounds fuel s) e
  et-Agrees fuel s h = let (e, go, a) = et_loop-Agrees fuel s h in (e, et-one fuel s e go, a)
