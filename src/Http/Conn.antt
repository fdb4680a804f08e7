-- ===== src/Http/Conn.antt =====
-- The state of a connection: class http_conn of 15-4 http_conn.h, with the static counter and the
-- calls that it makes of the kernel.
use you_shuang.Base.{
  ℕ, zero, suc, Bool, true, false, List, [], ◌∷◌, ◌++◌, Option, none, some, codes, replicate,
  if◌then◌else◌,
}
use you_shuang.Base.Int.{ℤ, pos, ◌+ℤ◌, negsuc}
pub use you_shuang.Http.Request.{
  HttpCode, no_request, get_request, bad_request, no_resource, forbidden_request, file_request,
  internal_error, closed_connection,
}

pub data Method : Type 0 where
  get post head put delete trace options connect patch : Method

pub data CheckState : Type 0 where
  check_state_requestline check_state_header check_state_content : CheckState

abbrev pub filename_len : ℕ
filename_len = 200

abbrev pub read_buffer_size : ℕ
read_buffer_size = 2048

abbrev pub write_buffer_size : ℕ
write_buffer_size = 1024

abbrev pub doc_root : List ℕ
doc_root = codes "/var/www/html"

-- What the code reads of struct stat.
pub record FileStat : Type 0 where
  pub size : ℕ
  pub other_read : Bool
  pub is_directory : Bool

-- An entry of m_iv: the block of memory and its length.
pub data IoVec : Type 0 where
  from_write_buf : ℕ → IoVec
  from_file : ℕ → ℕ → IoVec

pub data Events : Type 0 where
  epollin epollout : Events

-- Calls of the kernel, in order. A descriptor is `none` where the code passes -1.
pub data Call : Type 0 where
  epoll_add : ℕ → Bool → Call
  epoll_mod : Option ℕ → Events → Call
  epoll_del : ℕ → Call
  close_fd : ℕ → Call
  munmap : ℕ → ℕ → Call
  writev : List IoVec → Call

-- m_sockfd is `none` for -1, a pointer into the read buffer is an offset or `none` for null, and
-- m_file_address is an address with 0 for null. m_address is stored and never read.
pub record HttpConn : Type 0 where
  pub sockfd : Option ℕ
  pub read_buf : List ℕ
  pub read_idx : ℕ
  pub checked_idx : ℕ
  pub start_line : ℕ
  pub write_buf : List ℕ
  pub write_idx : ℕ
  pub check_state : CheckState
  pub method : Method
  pub real_file : List ℕ
  pub url : Option ℕ
  pub version : Option ℕ
  pub host : Option ℕ
  pub content_length : ℤ
  pub linger : Bool
  pub file_address : ℕ
  pub file_stat : FileStat
  pub iv : List IoVec
  pub user_count : ℤ
  pub calls : List Call

abbrev pub log : HttpConn → Call → HttpConn
log c call = record c { calls = c.calls ++ (call ∷ []) }

abbrev pub modfd : HttpConn → Events → HttpConn
modfd c events = log c (epoll_mod c.sockfd events)

-- http_conn::init()
unfoldable pub reset : HttpConn → HttpConn
reset c = record c {
  check_state = check_state_requestline;
  linger = false;
  method = get;
  url = none;
  version = none;
  content_length = pos 0;
  host = none;
  start_line = 0;
  checked_idx = 0;
  read_idx = 0;
  write_idx = 0;
  read_buf = replicate read_buffer_size 0;
  write_buf = replicate write_buffer_size 0;
  real_file = replicate filename_len 0;
}

-- http_conn::init(sockfd, addr)
unfoldable pub init : HttpConn → ℕ → HttpConn
unfolding reset
init c fd =
    let opened = log (record c { sockfd = some fd }) (epoll_add fd true) in
    reset (record opened { user_count = opened.user_count +ℤ pos 1 })

close_open : Option ℕ → HttpConn → HttpConn
close_open none c = c
close_open (some fd) c =
    let removed = log (log c (epoll_del fd)) (close_fd fd) in
    record removed { sockfd = none; user_count = removed.user_count +ℤ negsuc 0 }

unfoldable pub close_conn : HttpConn → Bool → HttpConn
unfolding close_open
close_conn c real_close = if real_close then close_open c.sockfd c else c

unfoldable pub unmap : HttpConn → HttpConn
unmap c = elim c.file_address [
  | zero ↦ c
  | suc a ↦ record (log c (munmap (suc a) c.file_stat.size)) { file_address = 0 }
]
