-- ===== src/ProcessPool/Create.antt =====
-- 15-1 processpool.h: the constructor, create and run, which make each process the parent or a child.
pub mod Roles
use you_shuang.Base.{
  ℕ, zero, suc, ◌+◌, Bool, true, false, ◌&&◌, List, [], ◌∷◌, ◌++◌, Option, none, some, ltb, leb,
  if◌then◌else◌, Run, ok, fault, ◌>>=◌, load, length, replicate,
}
use you_shuang.ProcessPool.{Process, Pool}

abbrev pub max_process_number : ℕ
max_process_number = 16

-- What fork gives: in the parent with the pid of the child.
pub data Fork : Type 0 where
  fork_failed in_child : Fork
  in_parent : ℕ → Fork

-- What a round of the constructor's loop is given: the ends of a pipe, unless socketpair fails, and
-- what fork gives.
abbrev pub Given : Type 0
Given = Option (ℕ × ℕ) × Fork

-- The pool behind the constructor; `none` is the index -1 of the parent. `closed` are the ends of
-- pipes that this process or its parent has closed.
pub record Created : Type 0 where
  pub idx : Option ℕ
  pub sub_process : List Process
  pub closed : List ℕ

-- What process() leaves in an entry; its pipe is not written.
abbrev pub unset : ℕ × ℕ → Process
unset garbage = record { pid = none; pipefd = garbage }

abbrev pub forked : ℕ × ℕ → ℕ → Process
forked pipefd pid = record { pid = some pid; pipefd = pipefd }

-- The loop, at `i`, with the entries that are written; `none` is a failed assertion.
unfoldable pub create_loop : ℕ × ℕ → ℕ → List Given → List Process → List ℕ → Option Created
create_loop garbage i [] made closed =
    some (record { idx = none; sub_process = made; closed = closed })
create_loop garbage i ((none, f) ∷ rest) made closed = none
create_loop garbage i ((some pipefd, fork_failed) ∷ rest) made closed = none
create_loop garbage i ((some pipefd, in_parent pid) ∷ rest) made closed =
    create_loop garbage (i + 1) rest (made ++ (forked pipefd pid ∷ [])) (closed ++ (pipefd.1 ∷ []))
create_loop garbage i ((some pipefd, in_child) ∷ rest) made closed = some (record {
  idx = some i;
  sub_process = made ++ (forked pipefd 0 ∷ replicate (length rest) (unset garbage));
  closed = closed ++ (pipefd.0 ∷ []);
})

-- The constructor, for as many children as there are rounds.
unfoldable pub processpool : ℕ × ℕ → List Given → Option Created
processpool garbage gs =
    let loop = create_loop garbage 0 gs [] [] in
    if ltb 0 (length gs) && leb (length gs) max_process_number then loop else none

-- The one instance is made by the first call, and kept.
unfoldable pub create : ℕ × ℕ → Option Created → List Given → Option Created
create garbage none gs = processpool garbage gs
create garbage (some instance_) gs = some instance_

-- What run() begins: the loop of the parent, from this pool, or that of a child, with its end of the
-- pipe.
pub data Role : Type 0 where
  run_parent : Pool → Role
  run_child : ℕ → Role

unfoldable pub run : Created → Run Role
run p = elim p.idx [
  | none ↦ ok (
      run_parent
        (record { sub_process = p.sub_process; sub_process_counter = 0; stop = false; acts = [] }))
  | some i ↦ (do c ← load p.sub_process i; ok (run_child (c.pipefd.1)))
]
