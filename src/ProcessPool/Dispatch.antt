-- ===== src/ProcessPool/Dispatch.antt =====
-- The round robin of 15-1 processpool.h over the children that are alive.
use mathlib.Core.Bool.{true, false}
use native.Mathlib.Nat.{mod-eq_of_lt, mod_self}
use you_shuang.Base.{
  ℕ, zero, suc, ◌+◌, ◌-◌, ◌%◌, ◌≤◌, ◌<◌, ◌≡◌, ◌≢◌, ◌⊎◌, inl, inr, sym, ap, ◌∙◌, Bool, List, [], ◌∷◌,
  ◌++◌, none, arith, ◌==◌, leb, Bool-cases, if◌then◌else◌, Returns, Returns-bind, length, get_or,
  load-ok,
}
use you_shuang.ProcessPool.{Process, Pool, send_conn, is_alive, find_child, connect, dispatch}

abbrev pub at : List Process → ℕ → Process
at cs i = get_or cs i (record { pid = none; pipefd = (0, 0) })

-- Going round from `start`, `k` comes before `i`.
abbrev pub Passed : ℕ → ℕ → ℕ → Type 0
Passed start i k = ((start ≤ k) × (k < i)) ⊎ ((i < start) × ((start ≤ k) ⊎ (k < i)))

-- Every child that the round passes before `i` has ended, and if that at `i` has, all have.
pub record Found (cs : List Process) (start i : ℕ) : Type 0 where
  pub inside : i < length cs
  pub passed : (k : ℕ) → k < length cs → Passed start i k → is_alive (at cs k) ≡ false
  pub ended : is_alive (at cs i) ≡ false → (k : ℕ) → k < length cs → is_alive (at cs k) ≡ false

next_cases :
    (i n : ℕ) → i < n → ((i + 1 < n) × ((i + 1) % n ≡ i + 1)) ⊎ ((i + 1 ≡ n) × ((i + 1) % n ≡ 0))
next_cases i n h = elim (Bool-cases (i + 1 == n)) [
  | inl e ↦ inr (ground arith, rw (ap (λ x. x % n) (the_same e)) (mod_self n))
  | inr e ↦ inl (ground arith, mod-eq_of_lt (ground arith))
]
  where
    the_same : (i + 1 == n) ≡ true → i + 1 ≡ n
    the_same e = ground arith

-- With the child at `i`, what the round has passed grows by one step.
Passed-next :
    (n start i next : ℕ)
    → i < n
    → ((i + 1 < n) × (next ≡ i + 1)) ⊎ ((i + 1 ≡ n) × (next ≡ 0))
    → (k : ℕ) → k < n
    → Passed start next k
    → (k ≡ i) ⊎ Passed start i k
Passed-next n start i next h c k p u = elim (Bool-cases (k == i)) [
  | inl e ↦ inl (ground arith)
  | inr e ↦ elim (Bool-cases (leb start i)) [
    | inl f ↦ inr (inl (ground arith, ground arith))
    | inr f ↦ inr (
        inr (
          ground arith,
          elim (Bool-cases (leb start k)) [
            | inl g ↦ inl (ground arith)
            | inr g ↦ inr (ground arith)
          ],
        ))
  ]
]

-- Back at the start, it has passed all.
Passed-all :
    (n start i next : ℕ)
    → i < n
    → start < n
    → ((i + 1 < n) × (next ≡ i + 1)) ⊎ ((i + 1 ≡ n) × (next ≡ 0))
    → next ≡ start
    → (k : ℕ) → k < n
    → (k ≡ i) ⊎ Passed start i k
Passed-all n start i next h g c back k p = elim (Bool-cases (k == i)) [
  | inl e ↦ inl (ground arith)
  | inr e ↦ elim (Bool-cases (leb start i)) [
    | inl f ↦ inr (inl (ground arith, ground arith))
    | inr f ↦ inr (
        inr (
          ground arith,
          elim (Bool-cases (leb start k)) [
            | inl g ↦ inl (ground arith)
            | inr g ↦ inr (ground arith)
          ],
        ))
  ]
]

-- The rounds that are left.
abbrev rounds : ℕ → ℕ → ℕ → ℕ
rounds start i n = if leb start i then n - i + start else start - i

rounds-next :
    (n start i next fuel : ℕ)
    → i < n
    → start < n
    → ((i + 1 < n) × (next ≡ i + 1)) ⊎ ((i + 1 ≡ n) × (next ≡ 0))
    → next ≢ start
    → rounds start i n ≤ suc fuel
    → rounds start next n ≤ fuel
rounds-next n start i next fuel h g c ne enough = ground arith

find_child-Found :
    (fuel : ℕ) (cs : List Process) (start i : ℕ)
    → start < length cs
    → i < length cs
    → ((k : ℕ) → k < length cs → Passed start i k → is_alive (at cs k) ≡ false)
    → rounds start i (length cs) ≤ fuel
    → Returns (Found cs start) (find_child fuel cs start i)
unfolding find_child
find_child-Found zero cs start i h p dead enough = absurd (ground arith)
find_child-Found (suc fuel) cs start i h p dead enough =
    let n = length cs in
    let next = (i + 1) % n in
    let c = next_cases i n p in
    rw (load-ok cs i (record { pid = none; pipefd = (0, 0) }) p)
      (elim (Bool-cases (is_alive (at cs i))) [
        | inl e ↦ rw e (record {
          inside = p;
          passed = dead;
          ended = λ f. absurd (let z : true ≡ false = sym e ∙ f in cc);
        })
        | inr e ↦
            let dead_next : (k : ℕ) → k < n → Passed start next k → is_alive (at cs k) ≡ false =
              λ k q u. elim (Passed-next n start i next p c k q u) [
                | inl same ↦ rw same e
                | inr v ↦ dead k q v
              ] in
            rw e (elim (Bool-cases (next == start)) [
              | inl f ↦
                  let back : next ≡ start = ground arith in
                  rw f (record {
                    inside = omega (arith, back, h);
                    passed = dead_next;
                    ended = λ g k q. elim (Passed-all n start i next p h c back k q) [
                      | inl same ↦ rw same e
                      | inr v ↦ dead k q v
                    ];
                  })
              | inr f ↦ rw f (
                  find_child-Found fuel cs start next h (omega (arith, c, p)) dead_next
                    (rounds-next n start i next fuel p h c (λ z. ground arith) enough))
            ])
      ])

-- What a new connection does to the pool: the first child alive, going round from the counter, is
-- told of it, and the counter moves behind that child; or all children have ended, and the parent
-- stops.
pub data Dispatched (s : Pool) : Pool × Bool → Type 0 where
  connected :
      (i : ℕ)
      → i < length s.sub_process
      → is_alive (at s.sub_process i) ≡ true
      → ((k : ℕ)
          → k < length s.sub_process
          → Passed s.sub_process_counter i k
          → is_alive (at s.sub_process k) ≡ false)
      → Dispatched s (
        record s {
          sub_process_counter = (i + 1) % length s.sub_process;
          acts = s.acts ++ (send_conn (at s.sub_process i).pipefd.0 ∷ []);
        },
        true,
      )
  stopped :
      ((k : ℕ) → k < length s.sub_process → is_alive (at s.sub_process k) ≡ false)
      → Dispatched s (record s { stop = true }, false)

-- Where the counter is a child's index, a new connection goes to the first child alive, going
-- round from the counter, and only if all children have ended the parent stops.
pub dispatch-Dispatched :
    (s : Pool) → s.sub_process_counter < length s.sub_process → Returns (Dispatched s) (dispatch s)
unfolding dispatch connect
dispatch-Dispatched s h =
    let cs = s.sub_process in
    let start = s.sub_process_counter in
    Returns-bind (Found cs start) (Dispatched s) _ _
      (find_child-Found (length cs) cs start start h h (λ k p u. absurd (ground arith))
        (ground arith))
      (λ i f.
        rw (load-ok cs i (record { pid = none; pipefd = (0, 0) }) f.inside)
          (elim (Bool-cases (is_alive (at cs i))) [
            | inl e ↦ rw e (connected i f.inside e f.passed)
            | inr e ↦ rw e (stopped (f.ended e))
          ]))
