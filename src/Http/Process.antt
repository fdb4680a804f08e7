-- ===== src/Http/Process.antt =====
-- The entry for the thread pool: http_conn::process of 15-5 http_conn.cpp.
use you_shuang.Base.{true, Option, none, some, Run, ok, ◌>>=◌, if◌then◌else◌}
use you_shuang.Http.Conn.{HttpCode, no_request, HttpConn, modfd, epollin, epollout, close_conn}
use you_shuang.Http.Response.{NoReturn, process_write}
use you_shuang.Http.Reading.{FileSystem, process_read}

respond : NoReturn → HttpConn → HttpCode → Run HttpConn
respond nr c no_request = ok (modfd c epollin)
respond nr c code = do
  (d, written) ← process_write nr c code
  ok (modfd (if written then d else close_conn d true) epollout)

-- `none` where process_read runs out of fuel, which does not happen.
unfoldable pub process : NoReturn → FileSystem → HttpConn → Run (Option HttpConn)
unfolding respond
process nr fs c =
    process_read fs c
    >>= elim [ none ↦ ok none | some (d, code) ↦ (do e ← respond nr d code; ok (some e)) ]
