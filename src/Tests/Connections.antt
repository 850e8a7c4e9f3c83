-- ===== src/Tests/Connections.antt =====
-- Urls, and two clients of the server.
use pic_bed.Prelude.{
  ◌<◌, true, false, Option, none, some, List, [], ◌∷◌, ◌++◌, Text, codes, ◌≡◌, ◌↔◌, refl, arith,
  to_decimal,
}
use pic_bed.Pdu.Buffer.{IsBuffer, contents}
use pic_bed.Http.Conn.{HttpConn, receive, connected}
use pic_bed.Http.Received.{concat, receive-IsBuffer}
use pic_bed.Http.Route.{Route, myfiles, rule, route, matches, route_iff}
use pic_bed.Http.Server.{Sending, find_conn, has_handle}
use pic_bed.Http.Steps.{ServerEvent, connects, readable, answered, loops, writable, serve_all}
use pic_bed.Http.Delivery.{no_conns}

route_iff_example :
    (matches (rule (codes "/api/myfiles") 10 myfiles) (codes "/api/myfiles?cmd=count") ≡ true)
    ↔ (route (codes "/api/myfiles?cmd=count") ≡ myfiles)
route_iff_example = route_iff 2 _ (codes "/api/myfiles?cmd=count") refl

abbrev new_conn : HttpConn
new_conn = record {
  uuid = 1;
  conn_handle = 1;
  sock_handle = 5;
  state = connected;
  busy = false;
  in_buf = record { buf = []; alloc_size = 0; write_offset = 0 };
  out_buf = record { buf = []; alloc_size = 0; write_offset = 0 };
  last_send_tick = 0;
  last_recv_tick = 0;
  given = [];
  wire = [];
  completed = false;
}

receive-IsBuffer_example :
    let s = (receive 1 0 ((7 ∷ 8 ∷ []) ∷ (9 ∷ []) ∷ []) new_conn).in_buf in
    IsBuffer s
    × (contents s ≡ contents new_conn.in_buf ++ concat ((7 ∷ 8 ∷ []) ∷ (9 ∷ []) ∷ []))
    × (s.write_offset < s.alloc_size)
receive-IsBuffer_example =
    receive-IsBuffer 1 0 ((7 ∷ 8 ∷ []) ∷ (9 ∷ []) ∷ []) new_conn
      (record { allocated = refl; within = omega arith }) (omega arith) (omega arith)

-- Any bytes are a login request.
abbrev a_login : Text → Option (Text × Text)
a_login bytes = some (codes "/api/login", [])

abbrev how : Sending
how = record { tick = 1; junk = 0; room = some 4 }

abbrev reply : Route → Text → Text → Text
reply r url content = codes "{}"

-- Two clients come, the second one logs in, its socket takes four bytes of the answer, then six more.
abbrev events : List ServerEvent
events =
    connects 5 0
    ∷ connects 6 0
    ∷ readable ((7 ∷ []) ∷ []) 2 how reply
    ∷ answered 0 reply
    ∷ loops how
    ∷ writable 2 (some 6)
    ∷ []

abbrev or_new : Option HttpConn → HttpConn
or_new none = new_conn
or_new (some c) = c

abbrev client : HttpConn
unfolding serve_all find_conn to_decimal
client = or_new (find_conn (has_handle 2) (serve_all a_login events no_conns).conns)

ten_bytes : client.wire ≡ codes "HTTP/1.1 2"
unfolding client serve_all find_conn to_decimal
ten_bytes = refl

-- Every request is answered with the empty object.
abbrev Empty : Route → Text → Text → Text → Type 0
Empty r url content str_json = str_json ≡ codes "{}"
