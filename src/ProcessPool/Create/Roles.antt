-- ===== src/ProcessPool/Create/Roles.antt =====
-- The roles that the constructor of 15-1 processpool.h gives.
use mathlib.Core.List.{append_assoc, append-nil}
use you_shuang.Base.{
  ℕ, suc, ◌+◌, ◌≤◌, ◌<◌, ◌≡◌, refl, sym, ap, ◌∙◌, true, false, List, [], ◌∷◌, ◌++◌, none, some,
  arith, ltb, leb, ok, load, length, length-append, replicate,
}
use you_shuang.ProcessPool.{Process, Pool}
use you_shuang.ProcessPool.Loop.{IsPool}
use you_shuang.ProcessPool.Create.{
  max_process_number, in_child, in_parent, Given, Created, unset, forked, create_loop, processpool,
  run_parent, run_child, run,
}

-- The rounds in which all calls succeed, in the parent: the ends of the pipes, and the pids.
abbrev pub in_parents : List ((ℕ × ℕ) × ℕ) → List Given
in_parents [] = []
in_parents ((pipefd, pid) ∷ ps) = (some pipefd, in_parent pid) ∷ in_parents ps

abbrev pub children : List ((ℕ × ℕ) × ℕ) → List Process
children [] = []
children ((pipefd, pid) ∷ ps) = forked pipefd pid ∷ children ps

abbrev pub child_ends : List ((ℕ × ℕ) × ℕ) → List ℕ
child_ends [] = []
child_ends ((pipefd, pid) ∷ ps) = pipefd.1 ∷ child_ends ps

create_loop-in_parents :
    (garbage : ℕ × ℕ) (i : ℕ) (ps : List ((ℕ × ℕ) × ℕ)) (rest : List Given) (made : List Process)
    (closed : List ℕ)
    → create_loop garbage i (in_parents ps ++ rest) made closed
      ≡ create_loop garbage (i + length ps) rest (made ++ children ps) (closed ++ child_ends ps)
unfolding create_loop
create_loop-in_parents garbage i [] rest made closed =
    let z : i + 0 ≡ i = omega arith in rw (z, append-nil made, append-nil closed) refl
create_loop-in_parents garbage i ((pipefd, pid) ∷ ps) rest made closed =
    let z : i + 1 + length ps ≡ i + suc (length ps) = omega arith in
    create_loop-in_parents garbage (i + 1) ps rest (made ++ (forked pipefd pid ∷ []))
      (closed ++ (pipefd.1 ∷ []))
    ∙ rw
        (
          z,
          append_assoc made (forked pipefd pid ∷ []) (children ps),
          append_assoc closed (pipefd.1 ∷ []) (child_ends ps),
        )
        refl

length-in_parents : (ps : List ((ℕ × ℕ) × ℕ)) → length (in_parents ps) ≡ length ps
length-in_parents [] = refl
length-in_parents (p ∷ ps) = ap (λ n. suc n) (length-in_parents ps)

length-children : (ps : List ((ℕ × ℕ) × ℕ)) → length (children ps) ≡ length ps
length-children [] = refl
length-children (p ∷ ps) = ap (λ n. suc n) (length-children ps)

children-append : (ps qs : List ((ℕ × ℕ) × ℕ)) → children (ps ++ qs) ≡ children ps ++ children qs
children-append [] qs = refl
children-append (p ∷ ps) qs = ap (◌∷◌ (forked (p.0) (p.1))) (children-append ps qs)

-- The process number is in its bounds.
processpool-loop :
    (garbage : ℕ × ℕ) (gs : List Given)
    → 0 < length gs
    → length gs ≤ max_process_number
    → processpool garbage gs ≡ create_loop garbage 0 gs [] []
unfolding processpool
processpool-loop garbage gs h k =
    let a : ltb 0 (length gs) ≡ true = ground arith in
    let b : leb (length gs) max_process_number ≡ true = ground arith in rw (a, b) refl

load-behind : (xs ys : List Process) (y : Process) → load (xs ++ (y ∷ ys)) (length xs) ≡ ok y
unfolding load
load-behind [] ys y = refl
load-behind (x ∷ xs) ys y = load-behind xs ys y

load-child :
    (before : List ((ℕ × ℕ) × ℕ)) (y : Process) (ys : List Process)
    → load (children before ++ (y ∷ ys)) (length before) ≡ ok y
load-child before y ys =
    ap (load (children before ++ (y ∷ ys))) (sym (length-children before))
    ∙ load-behind (children before) ys y

parent-Created :
    (garbage : ℕ × ℕ) (ps : List ((ℕ × ℕ) × ℕ))
    → 0 < length ps
    → length ps ≤ max_process_number
    → processpool garbage (in_parents ps)
      ≡ some (record { idx = none; sub_process = children ps; closed = child_ends ps })
unfolding create_loop
parent-Created garbage ps h k =
    let n = length-in_parents ps in
    processpool-loop garbage (in_parents ps) (omega (arith, n)) (omega (arith, n))
    ∙ ap (λ gs. create_loop garbage 0 gs [] []) (sym (append-nil (in_parents ps)))
    ∙ create_loop-in_parents garbage 0 ps [] [] []

child-Created :
    (garbage pipefd : ℕ × ℕ) (before : List ((ℕ × ℕ) × ℕ)) (rest : List Given)
    → length before + 1 + length rest ≤ max_process_number
    → processpool garbage (in_parents before ++ ((some pipefd, in_child) ∷ rest))
      ≡ some (record {
        idx = some (length before);
        sub_process =
            children before ++ (forked pipefd 0 ∷ replicate (length rest) (unset garbage));
        closed = child_ends before ++ (pipefd.0 ∷ []);
      })
unfolding create_loop
child-Created garbage pipefd before rest h =
    let n = length-append (in_parents before) ((some pipefd, in_child) ∷ rest) in
    let k = length-in_parents before in
    let z : 0 + length before ≡ length before = omega arith in
    processpool-loop garbage (in_parents before ++ ((some pipefd, in_child) ∷ rest))
      (omega (arith, n)) (omega (arith, n, k))
    ∙ create_loop-in_parents garbage 0 before ((some pipefd, in_child) ∷ rest) [] []
    ∙ rw z refl

-- The parent `p` and the child `c` that was forked behind `before` have the ends of one pipe: the
-- parent runs its loop from a pool in order, in which the child's entry has the pipe, and the child
-- waits at its own end of it.
pub record Joined (before : List ((ℕ × ℕ) × ℕ)) (n : ℕ) (pipefd : ℕ × ℕ) (pid : ℕ) (p c : Created)
    : Type 0 where
  pub pool : Pool
  pub parent_runs : run p ≡ ok (run_parent pool)
  pub entry : load pool.sub_process (length before) ≡ ok (forked pipefd pid)
  pub valid : IsPool n pool
  pub child_runs : run c ≡ ok (run_child (pipefd.1))
  pub child_closed : c.closed ≡ child_ends before ++ (pipefd.0 ∷ [])

-- Where all calls succeed and there are at most 16 children, the constructor gives the parent and
-- each child the ends of one pipe, and the parent can begin its loop; a child has closed the
-- parent's end of its own pipe, and the ends that the parent closed before.
pub processpool-Joined :
    (garbage : ℕ × ℕ) (before behind : List ((ℕ × ℕ) × ℕ)) (pipefd : ℕ × ℕ) (pid : ℕ)
    → length before + 1 + length behind ≤ max_process_number
    → (p : Created) × (c : Created) × (processpool garbage
          (in_parents (before ++ ((pipefd, pid) ∷ behind)))
        ≡ some p)
      × (processpool garbage (in_parents before ++ ((some pipefd, in_child) ∷ in_parents behind))
          ≡ some c)
      × Joined before (length before + 1 + length behind) pipefd pid p c
unfolding create_loop run
processpool-Joined garbage before behind pipefd pid h =
    let all = before ++ ((pipefd, pid) ∷ behind) in
    let size = length-append before ((pipefd, pid) ∷ behind) in
    let p : Created = record { idx = none; sub_process = children all; closed = child_ends all } in
    let c : Created = record {
      idx = some (length before);
      sub_process =
          children before
          ++ (forked pipefd 0 ∷ replicate (length (in_parents behind)) (unset garbage));
      closed = child_ends before ++ (pipefd.0 ∷ []);
    } in
    (
      p,
      c,
      parent-Created garbage all (omega (arith, size)) (omega (arith, size)),
      child-Created garbage pipefd before (in_parents behind)
          (omega (arith, length-in_parents behind)),
      record {
        pool = record {
          sub_process = children all;
          sub_process_counter = 0;
          stop = false;
          acts = [];
        };
        parent_runs = refl;
        entry =
            ap (λ x. load x (length before)) (children-append before ((pipefd, pid) ∷ behind))
            ∙ load-child before (forked pipefd pid) (children behind);
        valid = record {
          size = length-children all ∙ omega (arith, size);
          counter_lt = omega arith;
        };
        child_runs =
            rw
              (load-child before (forked pipefd 0)
                (replicate (length (in_parents behind)) (unset garbage)))
              refl;
        child_closed = refl;
      },
    )
