-- ===== src/CgiServer/Content.antt =====
-- Which program 15-2 pool_CGIServer.cpp runs: the data of a connection in one piece or in many.
use mathlib.Core.Path.{subst}
use mathlib.Core.List.{append_assoc, append-nil}
use you_shuang.Base.{
  ℕ, zero, suc, ◌+◌, ◌-◌, ◌≤◌, ◌<◌, ◌≡◌, ◌≢◌, refl, sym, ap, ◌∙◌, true, false, inl, inr, List, [],
  ◌∷◌, ◌++◌, map, arith, ◌==◌, ltb, leb, Bool-cases, length, length-append, replicate,
  length-replicate, take, set, store-ok, Returns, Returns-bind,
}
use you_shuang.Base.Bytes.{
  overwrite, overwrite-append, drop-replicate, until_nul, c_string-until_nul, bytes,
}
use you_shuang.CgiServer.{
  buffer_size, CgiConn, Effect, removefd, redirect, execl, Fork, fork_failed, in_parent, in_child,
  Given, find_end, run_program, serve, process_loop, process,
}
use you_shuang.CgiServer.Scan.{IsEnd, IsEnd-append, append-IsEnd, Found, find_end-Found}

-- The buffer holds this content, which has no "\r\n" yet, and NULs behind it.
pub record IsReading (c : CgiConn) (content : List ℕ) : Type 0 where
  pub buf_is : c.buf ≡ content ++ replicate (buffer_size - length content) 0
  pub idx_is : c.read_idx ≡ length content
  pub room : length content < buffer_size
  pub no_end : (j : ℕ) → j < length content → ¬ IsEnd content j

abbrev pub concat : List (List ℕ) → List ℕ
concat [] = []
concat (d ∷ ds) = d ++ concat ds

abbrev pub AllFull : List (List ℕ) → Type 0
AllFull [] = Unit {0}
AllFull (d ∷ ds) = (0 < length d) × AllFull ds

-- What is done for a request of a program: where there is one of this name and fork made this
-- process the child, the connection becomes its standard output and it is run; else the connection
-- is closed.
pub data Served (g : Given) (fd : ℕ) (name : List ℕ) (effects : List Effect) : Type 0 where
  missing : g.access name ≡ false → effects ≡ removefd fd ∷ [] → Served g fd name effects
  left_to_child :
      g.access name ≡ true
      → g.fork ≢ in_child
      → effects ≡ removefd fd ∷ []
      → Served g fd name effects
  runs :
      g.access name ≡ true
      → g.fork ≡ in_child
      → effects ≡ redirect fd ∷ execl name ∷ []
      → Served g fd name effects

run_program-Served : (g : Given) (fd : ℕ) (name : List ℕ) → Served g fd name (run_program g fd name)
unfolding run_program
run_program-Served g fd name = elim (Bool-cases (g.access name)) [
  | inl there ↦ by_fork there g.fork refl
  | inr gone ↦ missing gone (rw gone refl)
]
  where
    by_fork :
        g.access name ≡ true → (f : Fork) → g.fork ≡ f → Served g fd name (run_program g fd name)
    by_fork there fork_failed e =
        left_to_child there (λ z. let y : fork_failed ≡ in_child = sym e ∙ z in cc)
          (simp (there, e) refl)
    by_fork there in_parent e =
        left_to_child there (λ z. let y : in_parent ≡ in_child = sym e ∙ z in cc)
          (simp (there, e) refl)
    by_fork there in_child e = runs there e (simp (there, e) refl)

-- Of `all`, which has come from the client, either nothing is a request yet, or the bytes in front
-- of the first "\r\n" are: the program of this name is run, if it is there.
pub data Outcome (g : Given) (fd : ℕ) (all : List ℕ) (r : CgiConn × List Effect) : Type 0 where
  waits : IsReading r.0 all → r.1 ≡ [] → Outcome g fd all r
  served :
      (e : ℕ)
      → suc e < length all
      → IsEnd all (suc e)
      → ((j : ℕ) → j < suc e → ¬ IsEnd all j)
      → Served g fd (until_nul (take e all)) r.1
      → Outcome g fd all r

-- Data behind the content.
received-buf :
    (c : CgiConn) (content d : List ℕ)
    → IsReading c content
    → length content + length d < buffer_size
    → overwrite c.buf c.read_idx d
      ≡ (content ++ d) ++ replicate (buffer_size - length (content ++ d)) 0
received-buf c content d v h =
    let n = buffer_size - length content in
    let fits : length d ≤ length (replicate {A = ℕ} n 0) =
      omega (arith, length-replicate {A = ℕ} n 0) in
    let l : n - length d ≡ buffer_size - length (content ++ d) =
      omega (arith, length-append content d) in
    rw (v.buf_is, v.idx_is)
      (overwrite-append content (replicate n 0) d fits
        ∙ ap (λ x. content ++ (d ++ x))
            (drop-replicate (length d) n 0 (omega arith) ∙ ap (λ k. replicate k 0) l)
        ∙ sym (append_assoc content d _))

-- A NUL in place of the "\r" cuts the name off.
set-cut :
    (xs ys : List ℕ) (e : ℕ)
    → e < length xs
    → (zs : List ℕ) × (set (xs ++ ys) e 0 ≡ take e xs ++ (0 ∷ zs))
unfolding set
set-cut [] ys e h = absurd (omega arith)
set-cut (x ∷ xs) ys zero h = (xs ++ ys, refl)
set-cut (x ∷ xs) ys (suc e) h = let (zs, q) = set-cut xs ys e (omega arith) in (zs, ap (◌∷◌ x) q)

take-append : (xs ys : List ℕ) (e : ℕ) → e ≤ length xs → take e (xs ++ ys) ≡ take e xs
take-append xs ys zero h = refl
take-append [] ys (suc e) h = absurd (omega arith)
take-append (x ∷ xs) ys (suc e) h = ap (◌∷◌ x) (take-append xs ys e (omega arith))

serve-Outcome :
    (g : Given) (c : CgiConn) (got rest ys : List ℕ) (e : ℕ)
    → c.buf ≡ got ++ ys
    → suc e < length got
    → IsEnd got (suc e)
    → ((j : ℕ) → j < suc e → ¬ IsEnd got j)
    → Returns (Outcome g c.sockfd (got ++ rest)) (serve g c (suc e))
unfolding serve
serve-Outcome g c got rest ys e b h there first =
    let (zs, cut) = set-cut got ys e (omega arith) in
    let inside : e < length c.buf = omega (arith, ap length b, length-append got ys) in
    let cut' : set c.buf e 0 ≡ take e got ++ (0 ∷ zs) = ap (λ x. set x e 0) b ∙ cut in
    rw (store-ok c.buf e 0 inside, cut', c_string-until_nul (take e got) zs)
      (served e (omega (arith, length-append got rest)) (append-IsEnd got rest (suc e) h there)
        (λ j p q. first j p (IsEnd-append got rest j (omega arith) q))
        (subst
          (λ x. Served g c.sockfd (until_nul x) (run_program g c.sockfd (until_nul (take e got))))
          (sym (take-append got rest e (omega arith)))
          (run_program-Served g c.sockfd (until_nul (take e got)))))

-- The search over the new data: nothing new, or the first end.
searched-IsReading :
    (c : CgiConn) (content d : List ℕ) (r : ℕ) (next : CgiConn)
    → IsReading c content
    → next.buf ≡ (content ++ d) ++ replicate (buffer_size - length (content ++ d)) 0
    → next.read_idx ≡ length (content ++ d)
    → length (content ++ d) < buffer_size
    → Found next.buf (length content) (length (content ++ d)) r
    → r ≡ length (content ++ d)
    → IsReading next (content ++ d)
searched-IsReading c content d r next v b i h f e = record {
  buf_is = b;
  idx_is = i;
  room = h;
  no_end = λ j p q.
      let zeros : List ℕ = replicate (buffer_size - length (content ++ d)) 0 in
      let in_buf : IsEnd next.buf j =
        subst (λ x. IsEnd x j) (sym b) (append-IsEnd (content ++ d) zeros j p q) in
      elim (Bool-cases (ltb j (length content))) [
        | inl old ↦ v.no_end j (ground arith) (IsEnd-append content d j (ground arith) q)
        | inr new ↦ f.none_before j (ground arith) (omega (arith, e)) in_buf
      ];
}

search-Outcome :
    (g : Given) (next : CgiConn) (content d rest : List ℕ) (r : ℕ)
    → ((j : ℕ) → j < length content → ¬ IsEnd content j)
    → next.buf ≡ (content ++ d) ++ replicate (buffer_size - length (content ++ d)) 0
    → Found next.buf (length content) (length (content ++ d)) r
    → r < length (content ++ d)
    → Returns (Outcome g next.sockfd ((content ++ d) ++ rest)) (serve g next r)
search-Outcome g next content d rest zero none b f h = absurd (f.at_end h)
search-Outcome g next content d rest (suc e) none b f h =
    let zeros : List ℕ = replicate (buffer_size - length (content ++ d)) 0 in
    let there =
      IsEnd-append (content ++ d) zeros (suc e) h (subst (λ x. IsEnd x (suc e)) b (f.at_end h)) in
    serve-Outcome g next (content ++ d) rest zeros e b h there (λ j p q.
      let in_buf : IsEnd next.buf j =
        subst (λ x. IsEnd x j) (sym b) (append-IsEnd (content ++ d) zeros j (omega arith) q) in
      elim (Bool-cases (ltb j (length content))) [
        | inl old ↦ none j (ground arith) (IsEnd-append content d j (ground arith) q)
        | inr new ↦ f.none_before j (ground arith) p in_buf
      ])

process_loop-Outcome :
    (g : Given) (ds : List (List ℕ)) (c : CgiConn) (content : List ℕ)
    → IsReading c content
    → AllFull ds
    → length content + length (concat ds) < buffer_size
    → Returns (Outcome g c.sockfd (content ++ concat ds)) (process_loop g (map bytes ds) c)
unfolding process_loop
process_loop-Outcome g [] c content v f h = rw append-nil (waits v refl)
process_loop-Outcome g ([] ∷ ds) c content v f h = absurd (omega (arith, f.0))
process_loop-Outcome g ((b ∷ bs) ∷ ds) c content v f h =
    let d = b ∷ bs in
    let got = content ++ d in
    let fits : length content + length d < buffer_size =
      omega (arith, length-append d (concat ds)) in
    let next = record c { buf = overwrite c.buf c.read_idx d; read_idx = c.read_idx + length d } in
    let buf_is = received-buf c content d v fits in
    let len : c.read_idx + length d ≡ length got =
      omega (arith, v.idx_is, length-append content d) in
    let leb_ok : leb (c.read_idx + length d) (buffer_size - 1) ≡ true = ground (arith, v.idx_is) in
    let whole : length next.buf ≡ buffer_size = omega (
      arith,
      ap length buf_is,
      length-append got (replicate {A = ℕ} (buffer_size - length got) 0),
      length-replicate {A = ℕ} (buffer_size - length got) 0,
      fits,
      length-append content d,
    ) in
    let search : Returns (Found next.buf (length content) (length got))
        (find_end (length d) next.buf c.read_idx) =
      rw (← v.idx_is) (
        find_end-Found (length d) next.buf c.read_idx (length got) len
          (omega (arith, whole, len, v.idx_is))) in
    subst (λ all. Returns (Outcome g c.sockfd all) (process_loop g (bytes d ∷ map bytes ds) c))
      (append_assoc content d (concat ds))
      (rw leb_ok (
        Returns-bind (Found next.buf (length content) (length got))
          (Outcome g c.sockfd (got ++ concat ds)) (find_end (length d) next.buf c.read_idx) _ search
          (λ r s. elim (Bool-cases (r == next.read_idx)) [
            | inl e ↦ rw e (
                process_loop-Outcome g ds next got
                  (searched-IsReading c content d r next v buf_is len
                    (omega (arith, fits, length-append content d)) s (ground (arith, len)))
                  f.1 (omega (arith, h, length-append content d, length-append d (concat ds))))
            | inr e ↦ rw e (
                search-Outcome g next content d (concat ds) r v.no_end buf_is s
                  (ground (arith, s.upto, len)))
          ])))

-- However the data of a client comes in pieces, as long as it fits the buffer, process() serves the
-- request in front of the first "\\r\\n" of it all: the program of that name is run by the child of
-- fork, where it exists, and the connection is closed otherwise. If there is no "\\r\\n", it keeps
-- the data and does nothing.
pub process-Outcome :
    (g : Given) (ds : List (List ℕ)) (c : CgiConn) (content : List ℕ)
    → IsReading c content
    → AllFull ds
    → length content + length (concat ds) < buffer_size
    → g.received ≡ map bytes ds
    → Returns (Outcome g c.sockfd (content ++ concat ds)) (process g c)
unfolding process
process-Outcome g ds c content v f h e = simp e (process_loop-Outcome g ds c content v f h)
