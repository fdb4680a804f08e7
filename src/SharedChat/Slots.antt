-- ===== src/SharedChat/Slots.antt =====
-- The places of shared memory in 13-4 sharedMemory_chatroomServer.cpp when a user leaves.
use mathlib.Core.List.{Memᴰ}
use you_shuang.Base.{
  ℕ, ◌+◌, ◌-◌, ◌<◌, ◌≡◌, ◌≢◌, refl, sym, ap, ◌∙◌, some, arith, ◌>>=◌, Returns, Returns-map,
  Returns-bind,
}
use you_shuang.SharedChat.{process_limit, Server, run_child, connect, reap}
use you_shuang.SharedChat.Users.{
  at, IsChat, IsChild, Left, reap-Left, Joined, connect-Joined, pids_differ,
}

-- When a user who is not the last leaves and another one comes, whose child has a pid that no other
-- has, while the last user's child was forked for its present place, then the newcomer's child runs
-- for that place too, and both children use one part of the shared memory.
pub slot_clash :
    (s : Server) (j connfd : ℕ) (pipe : ℕ × ℕ) (pid : ℕ)
    → IsChat s
    → j + 1 < s.user_count
    → pid < process_limit
    → ¬ IsChild s pid
    → Memᴰ (run_child (at s.users (s.user_count - 1)).pid (s.user_count - 1)) s.acts
    → Returns
        (λ t.
          IsChild t (at s.users (s.user_count - 1)).pid
          × IsChild t pid
          × Memᴰ (run_child (at s.users (s.user_count - 1)).pid (s.user_count - 1)) t.acts
          × Memᴰ (run_child pid (s.user_count - 1)) t.acts)
        (reap (at s.users j).pid s >>= connect connfd pipe (some pid))
slot_clash s j connfd pipe pid v h small new old =
    let last = s.user_count - 1 in
    let leaver = (at s.users j).pid in
    let other : (at s.users last).pid ≢ leaver =
      λ e. absurd (omega (arith, pids_differ s v last j (omega arith) (omega arith) e)) in
    Returns-bind (Left s leaver) _ (reap leaver s) (connect connfd pipe (some pid))
      (reap-Left s leaver v (j, omega arith, refl))
      (λ t l.
        let count : t.user_count ≡ last = omega (arith, l.count) in
        let new' : ¬ IsChild t pid =
          λ c. let (i, q, e) = l.old c.0 c.1 in new (i, q, ap (λ u. u.pid) (sym e) ∙ c.2) in
        Returns-map (Joined t pid connfd pipe) _ (connect connfd pipe (some pid) t)
          (connect-Joined t connfd pipe pid l.valid (omega (arith, count, v.room)) small new')
          (λ r jn.
            let (i, q, e) = l.stays last (omega arith) other in
            (
              (i, omega (arith, jn.count, q), ap (λ u. u.pid) (jn.stays i q ∙ e)),
              (t.user_count, omega (arith, jn.count), ap (λ u. u.pid) jn.newcomer),
              jn.before _ (l.before _ old),
              rw count at jn.told,
            )))
