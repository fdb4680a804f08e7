-- ===== src/Tests/WebServer.antt =====
-- Tests of WebServer.
use mathlib.Core.Option.{some-ne-none}
use you_shuang.Base.{
  ◌-◌, ◌≡◌, List, [], ◌∷◌, Option, some, none, arith, refl, sym, ap, Unless, Run, ok, fault,
}
use you_shuang.Base.Int.{pos}
use you_shuang.Base.Bytes.{bytes}
use you_shuang.Http.Conn.{HttpConn, read_buffer_size, init}
use you_shuang.Http.Reading.Fills.{IsWithin}
use you_shuang.WebServer.{
  Server, Event, on_listenfd, on_readable, with_count, accept_user, handle, handle_all, start,
  max_fd,
}
use you_shuang.WebServer.Counts.{open_count-none}
use you_shuang.WebServer.Users.{IsServer}
use you_shuang.WebServer.Safe.{AllFair, AnyBeyond, handle_all-IsServer}
use you_shuang.Tests.HttpResponse.{fresh}

start-IsServer : IsServer start
start-IsServer = record {
  counted = sym (ap pos (open_count-none max_fd));
  own = λ fd c e. absurd (some-ne-none c (sym e));
  reading = λ fd c e. absurd (some-ne-none c (sym e));
  bounded = λ fd c e. absurd (some-ne-none c (sym e));
}

-- A client comes, and sends a byte.
abbrev events : List Event
events = on_listenfd (some 7) ∷ on_readable 7 (bytes (71 ∷ []) ∷ []) ∷ []

abbrev user_of : Run Server → Option HttpConn
user_of (ok s) = s.users 7
user_of fault = none

abbrev accepted_user : HttpConn
accepted_user = init (with_count (pos 0) fresh) 7

accepted :
    (s : Server)
    → handle (λ fd. fresh) (on_listenfd (some 7)) start ≡ ok s
    → s.users 7 ≡ some accepted_user
unfolding handle accept_user
accepted s e = sym (ap user_of e)

has_room : IsWithin (read_buffer_size - accepted_user.read_idx) (bytes (71 ∷ []) ∷ [])
unfolding init
has_room = omega arith

events-Fair : AllFair (λ fd. fresh) start events
events-Fair = (refl, λ s e b. ((accepted_user, accepted s e, has_room), λ t z c. tt))

handle_all-IsServer_example :
    Unless (AnyBeyond events) IsServer (handle_all (λ fd. fresh) events start)
handle_all-IsServer_example =
    handle_all-IsServer (λ fd. fresh) events start start-IsServer events-Fair refl
