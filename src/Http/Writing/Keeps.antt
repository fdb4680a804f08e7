-- ===== src/Http/Writing/Keeps.antt =====
-- What the members of 15-5 http_conn.cpp that send a response leave alone.
use you_shuang.Base.{
  ℕ, zero, suc, ◌+◌, ◌≡◌, refl, ◌∙◌, Bool, true, false, List, [], ◌∷◌, arith, ◌==◌, if◌then◌else◌,
  length-replicate,
}
use you_shuang.Base.Int.{ℤ, pos, pos_part, neg_part, sub_ℕ, lebℤ}
use you_shuang.Http.Conn.{
  HttpConn, Call, epoll_mod, munmap, log, modfd, epollin, writev, read_buffer_size, reset, unmap,
}
use you_shuang.Http.Reading.Terminates.{IsReading}
use you_shuang.Http.Writing.{Sent, sent, again, error, finish, write_loop, write}

-- A member leaves the descriptor and the count alone, and the indices in order.
pub record Kept (c d : HttpConn) : Type 0 where
  pub sockfd_same : d.sockfd ≡ c.sockfd
  pub count_same : d.user_count ≡ c.user_count
  pub reading : IsReading d

pub reset-IsReading : (c : HttpConn) → IsReading (reset c)
unfolding reset
reset-IsReading c = record {
  size = length-replicate {A = ℕ} read_buffer_size 0;
  line_le = omega arith;
  checked_le = omega arith;
  filled = omega arith;
}

reset-Kept : (c : HttpConn) → Kept c (reset c)
unfolding reset
reset-Kept c = record { sockfd_same = refl; count_same = refl; reading = reset-IsReading c }

Kept-trans : {c d e : HttpConn} → Kept c d → Kept d e → Kept c e
Kept-trans p q = record {
  sockfd_same = q.sockfd_same ∙ p.sockfd_same;
  count_same = q.count_same ∙ p.count_same;
  reading = q.reading;
}

log-Kept : (c : HttpConn) (call : Call) → IsReading c → Kept c (log c call)
log-Kept c call v = record {
  sockfd_same = refl;
  count_same = refl;
  reading = record {
    size = v.size;
    line_le = v.line_le;
    checked_le = v.checked_le;
    filled = v.filled;
  };
}

if-Kept :
    (b : Bool) (c : HttpConn) (x y : HttpConn × Bool)
    → Kept c x.0
    → Kept c y.0
    → Kept c (if b then x else y).0
if-Kept true c x y p q = p
if-Kept false c x y p q = q

unmap-Kept : (c : HttpConn) → IsReading c → Kept c (unmap c)
unfolding unmap
unmap-Kept c v = go c.file_address
  where
    go :
        (a : ℕ)
        → Kept c (elim a [
          | zero ↦ c
          | suc b ↦ record (log c (munmap (suc b) c.file_stat.size)) { file_address = 0 }
        ])
    go zero = record { sockfd_same = refl; count_same = refl; reading = v }
    go (suc b) = record {
      sockfd_same = refl;
      count_same = refl;
      reading = record {
        size = v.size;
        line_le = v.line_le;
        checked_le = v.checked_le;
        filled = v.filled;
      };
    }

finish-Kept : (c : HttpConn) → IsReading c → Kept c (finish c).0
unfolding finish
finish-Kept c v =
    let u = unmap-Kept c v in
    if-Kept (unmap c).linger c _ _
      (Kept-trans u (
        Kept-trans (reset-Kept (unmap c))
          (log-Kept (reset (unmap c)) _ (reset-IsReading (unmap c)))))
      (Kept-trans u (log-Kept (unmap c) _ u.reading))

write_loop-Kept :
    (answers : List Sent) (to_send : ℤ) (have_sent : ℕ) (c : HttpConn)
    → IsReading c
    → Kept c (write_loop answers to_send have_sent c).0
unfolding write_loop
write_loop-Kept [] to_send have_sent c v =
    let w = log-Kept c (writev c.iv) v in Kept-trans w (log-Kept (log c (writev c.iv)) _ w.reading)
write_loop-Kept (again ∷ answers) to_send have_sent c v =
    let w = log-Kept c (writev c.iv) v in Kept-trans w (log-Kept (log c (writev c.iv)) _ w.reading)
write_loop-Kept (error ∷ answers) to_send have_sent c v =
    let w = log-Kept c (writev c.iv) v in Kept-trans w (unmap-Kept (log c (writev c.iv)) w.reading)
write_loop-Kept (sent n ∷ answers) to_send have_sent c v =
    let to_send' = sub_ℕ (pos_part to_send) (neg_part to_send + n) in
    let w = log-Kept c (writev c.iv) v in
    if-Kept (lebℤ to_send' (pos (have_sent + n))) c _ _
      (Kept-trans w (finish-Kept (log c (writev c.iv)) w.reading))
      (Kept-trans w
        (write_loop-Kept answers to_send' (have_sent + n) (log c (writev c.iv)) w.reading))

-- write leaves the descriptor and the count of users alone, and the indices in order.
pub write-Kept : (c : HttpConn) (answers : List Sent) → IsReading c → Kept c (write c answers).0
unfolding write
write-Kept c answers v =
    let m = log-Kept c (epoll_mod c.sockfd epollin) v in
    if-Kept (c.write_idx == 0) c _ _ (Kept-trans m (reset-Kept (modfd c epollin)))
      (write_loop-Kept answers (pos c.write_idx) 0 c v)
