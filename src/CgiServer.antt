-- ===== src/CgiServer.antt =====
-- 15-2 pool_CGIServer.cpp: the class cgi_conn, which reads the name of a program up to the first
-- "\r\n" and runs it for its client.
pub mod Scan
pub mod Content
pub mod Safety
pub mod Children
use you_shuang.Base.{
  ℕ, zero, suc, ◌+◌, ◌-◌, Bool, true, false, ◌&&◌, List, [], ◌∷◌, Option, none, some, ltb, leb,
  ◌==◌, if◌then◌else◌, Run, ok, fault, ◌>>=◌, length, replicate, load, store,
}
use you_shuang.Base.Bytes.{overwrite, c_string, Received, again, error, bytes}

abbrev pub buffer_size : ℕ
buffer_size = 1024

abbrev cr : ℕ
cr = 13

abbrev lf : ℕ
lf = 10

-- The static m_epollfd and the address are not modelled: they are handed on, or not read.
pub record CgiConn : Type 0 where
  pub sockfd : ℕ
  pub buf : List ℕ
  pub read_idx : ℕ

-- What fork gives.
pub data Fork : Type 0 where
  fork_failed in_parent in_child : Fork

-- What process() does: the connection is taken out of epoll and closed; and in the child the
-- standard output becomes the connection, and the program is run.
pub data Effect : Type 0 where
  removefd : ℕ → Effect
  redirect : ℕ → Effect
  execl : List ℕ → Effect

-- What the calls of process() give: those of recv, and whether a file is there, and fork.
pub record Given : Type 0 where
  pub received : List Received
  pub access : List ℕ → Bool
  pub fork : Fork

unfoldable pub init : ℕ → CgiConn
init fd = record { sockfd = fd; buf = replicate buffer_size 0; read_idx = 0 }

-- The two bytes in front of and at `idx` are "\r\n".
unfoldable pub ends_at : List ℕ → ℕ → Run Bool
ends_at buf zero = ok false
ends_at buf (suc i) = do a ← load buf i; b ← load buf (suc i); ok (a == cr && (b == lf))

-- The loop for "\r\n", with the bytes that are left: the index where it stops.
pub find_end : ℕ → List ℕ → ℕ → Run ℕ
find_end zero buf idx = ok idx
find_end (suc left) buf idx = do
  e ← ends_at buf idx
  let rest = find_end left buf (idx + 1)
  if e then ok idx else rest

-- The request is there: its name ends in front of "\r\n".
pub run_program : Given → ℕ → List ℕ → List Effect
run_program g fd name =
    if g.access name
    then elim g.fork [
      | fork_failed ↦ removefd fd ∷ []
      | in_parent ↦ removefd fd ∷ []
      | in_child ↦ redirect fd ∷ execl name ∷ []
    ]
    else removefd fd ∷ []

serve : Given → CgiConn → ℕ → Run (CgiConn × List Effect)
serve g c zero = fault
serve g c (suc i) = do
  buf ← store c.buf i 0
  name ← c_string buf
  ok (record c { buf = buf }, run_program g c.sockfd name)

-- The loop of process(), over the answers of recv; after the last of them comes EAGAIN. recv is asked
-- for what is left in front of the last byte, and an answer that is longer breaks its contract.
process_loop : Given → List Received → CgiConn → Run (CgiConn × List Effect)
process_loop g [] c = ok (c, [])
process_loop g (again ∷ answers) c = ok (c, [])
process_loop g (error ∷ answers) c = ok (c, removefd c.sockfd ∷ [])
process_loop g (bytes [] ∷ answers) c = ok (c, removefd c.sockfd ∷ [])
process_loop g (bytes (b ∷ bs) ∷ answers) c =
    let n = length (b ∷ bs) in
    let next = record c { buf = overwrite c.buf c.read_idx (b ∷ bs); read_idx = c.read_idx + n } in
    let more = process_loop g answers next in
    let scanned = (do
      idx ← find_end n next.buf c.read_idx
      if idx == next.read_idx then more else serve g next idx) in
    if leb (c.read_idx + n) (buffer_size - 1) then scanned else fault

unfoldable pub process : Given → CgiConn → Run (CgiConn × List Effect)
unfolding process_loop serve run_program find_end
process g c = process_loop g g.received c
