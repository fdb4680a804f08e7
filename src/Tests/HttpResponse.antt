-- ===== src/Tests/HttpResponse.antt =====
-- Tests of Http.Response.
use you_shuang.Base.{
  ◌≡◌, refl, true, false, [], ◌∷◌, ◌++◌, none, some, arith, codes, replicate, Returns,
}
use you_shuang.Base.Int.{pos}
use you_shuang.Http.Conn.{HttpConn, check_state_requestline, get, file_request}
use you_shuang.Http.Response.{decimal, returns_anyhow, status_line, process_write}
use you_shuang.Http.Response.Appends.{IsWritable}
use you_shuang.Http.Response.Errors.{header_lines}
use you_shuang.Http.Response.Files.{file_text, FileAnswer, process_write-FileAnswer}

abbrev pub fresh : HttpConn
fresh = record {
  sockfd = some 5;
  read_buf = replicate 2048 0;
  read_idx = 0;
  checked_idx = 0;
  start_line = 0;
  write_buf = replicate 1024 0;
  write_idx = 0;
  check_state = check_state_requestline;
  method = get;
  real_file = replicate 200 0;
  url = none;
  version = none;
  host = none;
  content_length = pos 0;
  linger = false;
  file_address = 4096;
  file_stat = record { size = 7; other_read = true; is_directory = false };
  iv = [];
  user_count = pos 1;
  calls = [];
}

status :
    status_line 404 (codes "Not Found") ≡ codes "HTTP/1.1 404 Not Found" ++ (b'\r' ∷ b'\n' ∷ [])
unfolding status_line decimal
status = refl

fresh-IsWritable : IsWritable fresh
fresh-IsWritable = omega arith

process_write-FileAnswer_example :
    Returns (FileAnswer 7 fresh) (process_write returns_anyhow fresh file_request)
unfolding file_text header_lines status_line decimal
process_write-FileAnswer_example =
    process_write-FileAnswer returns_anyhow fresh fresh-IsWritable (omega arith)
