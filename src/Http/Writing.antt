-- ===== src/Http/Writing.antt =====
-- Sending the response: http_conn::write of 15-5 http_conn.cpp.
pub mod Keeps
use you_shuang.Base.{ℕ, ◌+◌, Bool, true, false, List, [], ◌∷◌, ◌==◌, if◌then◌else◌}
use you_shuang.Base.Int.{ℤ, pos, pos_part, neg_part, sub_ℕ, lebℤ}
use you_shuang.Http.Conn.{HttpConn, log, modfd, epollin, epollout, writev, reset, unmap}

-- An answer of writev: a number of bytes, EAGAIN or another error.
pub data Sent : Type 0 where
  sent : ℕ → Sent
  again error : Sent

finish : HttpConn → HttpConn × Bool
finish c =
    let unmapped = unmap c in
    if unmapped.linger
    then (modfd (reset unmapped) epollin, true)
    else (modfd unmapped epollin, false)

-- The loop, over the answers of writev; after the last of them comes EAGAIN. The blocks that are
-- sent stay the same ones in each round.
write_loop : List Sent → ℤ → ℕ → HttpConn → HttpConn × Bool
write_loop [] to_send have_sent c = (modfd (log c (writev c.iv)) epollout, true)
write_loop (again ∷ answers) to_send have_sent c = (modfd (log c (writev c.iv)) epollout, true)
write_loop (error ∷ answers) to_send have_sent c = (unmap (log c (writev c.iv)), false)
write_loop (sent n ∷ answers) to_send have_sent c =
    let to_send' = sub_ℕ (pos_part to_send) (neg_part to_send + n) in
    let rest = write_loop answers to_send' (have_sent + n) (log c (writev c.iv)) in
    if lebℤ to_send' (pos (have_sent + n)) then finish (log c (writev c.iv)) else rest

unfoldable pub write : HttpConn → List Sent → HttpConn × Bool
unfolding write_loop finish
write c answers =
    if c.write_idx == 0
    then (reset (modfd c epollin), true)
    else write_loop answers (pos c.write_idx) 0 c
