-- ===== src/Http.antt =====
-- 15-4 http_conn.h and 15-5 http_conn.cpp: the HTTP connection of the web server, and
-- 8-3 parse_line.cpp, the earlier parser with the same two state machines.
pub mod Text
pub mod Line
pub mod Request
pub mod Conn
pub mod Response
pub mod Reading
pub mod Writing
pub mod Process
