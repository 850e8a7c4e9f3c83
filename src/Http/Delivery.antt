-- ===== src/Http/Delivery.antt =====
-- Each client gets the responses to its own requests, in the order of their sending, and nothing else
-- (http_conn.cc).
use pic_bed.Prelude.{ℕ, [], Text}
use pic_bed.Http.Conn.{HttpConn}
use pic_bed.Http.Route.{Route}
use pic_bed.Http.Server.{Server, Sending, has_handle, find_conn, send_to, format_response}

module _ (reply : Route → Text → Text → Text) (url content : Text) (c : HttpConn) (handle : ℕ)
    (how : Sending) (s : Server) where
  abbrev answer : Route → Server
  answer handler =
      send_to (find_conn (has_handle handle) s.conns) (has_handle handle) how
        (format_response (reply handler url content)) s

abbrev pub no_conns : Server
no_conns = record {
  conns = [];
  uuid_alloctor = 0;
  conn_handle_generator = 0;
  response_pdu_list = [];
  jobs = [];
  requests = [];
  sends = [];
}
