-- ===== src/Http/Server.antt =====
-- All connections, and the responses that the workers leave for the main thread (http_conn.cc).
use pic_bed.Prelude.{
  ℕ, ◌+◌, ◌%◌, Bool, Option, none, some, List, [], ◌∷◌, ◌++◌, Text, codes, to_decimal, length, take,
  without, ltb, ◌==◌, if◌then◌else◌,
}
use pic_bed.Pdu.Buffer.{contents}
use pic_bed.Http.Conn.{HttpConn, is_closed, http_conn, send, receive, on_timer, close}
use pic_bed.Http.Route.{Route, register, login, unknown, route}

-- The text of HTTP_RESPONSE_HTML with its two arguments, cut by snprintf at HTTP_RESPONSE_HTML_MAX
unfoldable pub format_response : Text → Text
format_response str_json = take 4095 (
    codes "HTTP/1.1 200 OK"
    ++ crlf
    ++ codes "Connection:close"
    ++ crlf
    ++ codes "Content-Length:"
    ++ to_decimal (length str_json)
    ++ crlf
    ++ codes "Content-Type:application/json;charset=utf-8"
    ++ crlf
    ++ crlf
    ++ str_json)
  where
    crlf : Text
    crlf = 13 ∷ 10 ∷ []

-- A task for a worker: the handler, the uuid of the connection, the url and the body
pub record Job : Type 0 where
  pub handler : Route
  pub conn_uuid : ℕ
  pub url : Text
  pub content : Text

-- ResponsePdu_t
pub record ResponsePdu : Type 0 where
  pub conn_uuid : ℕ
  pub resp_data : List ℕ

-- g_uuid_conn_map and g_http_conn_map, whose entries come and go together; s_uuid_alloctor,
-- g_conn_handle_generator and s_response_pdu_list; the tasks that the workers have; and two histories:
-- the requests that were read, each with the uuid of the connection that it was read from, and the
-- calls of Send, by the connection's uuid
pub record Server : Type 0 where
  pub conns : List HttpConn
  pub uuid_alloctor : ℕ
  pub conn_handle_generator : ℕ
  pub response_pdu_list : List ResponsePdu
  pub jobs : List Job
  pub requests : List Job
  pub sends : List ResponsePdu

-- `++n` of an uint32_t, and again at 0
abbrev pub next_number : ℕ → ℕ
next_number n = if (n + 1) % 4294967296 == 0 then 1 else (n + 1) % 4294967296

-- Close takes the connection out of both maps.
abbrev pub keep_open : HttpConn → List HttpConn → List HttpConn
keep_open c conns = if is_closed c.state then conns else c ∷ conns

abbrev pub has_handle : ℕ → HttpConn → Bool
has_handle handle c = c.conn_handle == handle

abbrev pub has_uuid : ℕ → HttpConn → Bool
has_uuid uuid c = c.uuid == uuid

-- FindHttpConnByHandle, GetHttpConnByUuid
unfoldable pub find_conn : (HttpConn → Bool) → List HttpConn → Option HttpConn
find_conn p [] = none
find_conn p (c ∷ conns) = let rest = find_conn p conns in if p c then some c else rest

-- A call on the connection that is found
unfoldable pub change_conn :
    (HttpConn → Bool) → (HttpConn → HttpConn) → List HttpConn → List HttpConn
change_conn p f [] = []
change_conn p f (c ∷ conns) =
    let rest = change_conn p f conns in if p c then keep_open (f c) conns else c ∷ rest

-- http_callback (main.cc): CHttpConn::CHttpConn and OnConnect
unfoldable pub on_connect : ℕ → ℕ → Server → Server
unfolding http_conn
on_connect sock_handle tick s =
    let uuid = next_number s.uuid_alloctor in
    let conn_handle = next_number s.conn_handle_generator in
    record s {
      conns = s.conns ++ http_conn uuid conn_handle sock_handle tick ∷ [];
      uuid_alloctor = uuid;
      conn_handle_generator = conn_handle;
    }

-- The arguments of one Send: the time, the new memory and the room of the socket
pub record Sending : Type 0 where
  pub tick : ℕ
  pub junk : ℕ
  pub room : Option ℕ

-- Send to the connection that is found, where there is one
abbrev pub send_to : Option HttpConn → (HttpConn → Bool) → Sending → List ℕ → Server → Server
send_to none p how bytes s = s
send_to (some c) p how bytes s = record s {
  conns = change_conn p (send how.tick how.junk how.room bytes) s.conns;
  sends = s.sends ++ record { conn_uuid = c.uuid; resp_data = bytes } ∷ [];
}

-- What OnRead does with a request that is whole; `reply` is the JSON text of the handler.
unfoldable pub dispatch :
    Route → (Route → Text → Text → Text) → Text → Text → HttpConn → ℕ → Sending → Server → Server
unfolding find_conn change_conn send format_response close
dispatch register reply url content c handle how s = record s {
  jobs =
      s.jobs
      ++ record { handler = register; conn_uuid = c.uuid; url = url; content = content } ∷ [];
}
dispatch login reply url content c handle how s = record s {
  jobs =
      s.jobs ++ record { handler = login; conn_uuid = c.uuid; url = url; content = content } ∷ [];
}
dispatch unknown reply url content c handle how s = record s {
  conns = change_conn (has_handle handle) close s.conns;
}
dispatch handler reply url content c handle how s =
    send_to (find_conn (has_handle handle) s.conns) (has_handle handle) how
      (format_response (reply handler url content)) s

unfoldable pub parsed :
    Option (Text × Text) → (Route → Text → Text → Text) → HttpConn → ℕ → Sending → Server → Server
unfolding route dispatch
parsed none reply c handle how s = s
parsed (some (url, content)) reply c handle how s =
    dispatch (route url) reply url content c handle how (record s {
      requests =
          s.requests
          ++ record { handler = route url; conn_uuid = c.uuid; url = url; content = content } ∷ [];
    })

-- OnRead behind its loop: too much data, or what the HTTP parser makes of it
unfoldable pub read_all :
    (Text → Option (Text × Text))
    → (Route → Text → Text → Text)
    → Option HttpConn
    → ℕ
    → Sending
    → Server
    → Server
unfolding change_conn close contents parsed
read_all parse reply none handle how s = s
read_all parse reply (some c) handle how s =
    if ltb 2048 c.in_buf.write_offset
    then record s { conns = change_conn (has_handle handle) close s.conns }
    else parsed (parse (contents c.in_buf)) reply c handle how s

-- httpconn_callback with NETLIB_MSG_READ
unfoldable pub on_read :
    (Text → Option (Text × Text))
    → (Route → Text → Text → Text)
    → List (List ℕ)
    → ℕ
    → Sending
    → Server
    → Server
unfolding find_conn change_conn receive read_all
on_read parse reply chunks handle how s =
    let conns = change_conn (has_handle handle) (receive how.tick how.junk chunks) s.conns in
    read_all parse reply (find_conn (has_handle handle) conns) handle how
      (record s { conns = conns })

-- AddResponseData
unfoldable pub add_response_data : ℕ → List ℕ → Server → Server
add_response_data conn_uuid resp_data s = record s {
  response_pdu_list =
      s.response_pdu_list ++ record { conn_uuid = conn_uuid; resp_data = resp_data } ∷ [];
}

-- A worker that has the task `i` comes to its end; `reply` is the JSON text of the handler.
unfoldable pub answer_job : Option Job → ℕ → (Route → Text → Text → Text) → Server → Server
unfolding add_response_data format_response
answer_job none i reply s = s
answer_job (some job) i reply s =
    add_response_data job.conn_uuid (format_response (reply job.handler job.url job.content))
      (record s { jobs = without i s.jobs })

-- The loop of SendResponseDataList over the responses that are there
unfoldable pub send_responses : List ResponsePdu → Sending → Server → Server
unfolding find_conn change_conn send
send_responses [] how s = s
send_responses (r ∷ rest) how s =
    send_responses rest how
      (send_to (find_conn (has_uuid r.conn_uuid) s.conns) (has_uuid r.conn_uuid) how r.resp_data s)

-- SendResponseDataList
unfoldable pub send_response_data_list : Sending → Server → Server
unfolding send_responses
send_response_data_list how s =
    send_responses s.response_pdu_list how (record s { response_pdu_list = [] })

-- http_conn_timer_callback
unfoldable pub check_timers : ℕ → List HttpConn → List HttpConn
unfolding on_timer
check_timers curr_tick [] = []
check_timers curr_tick (c ∷ conns) = keep_open (on_timer curr_tick c) (check_timers curr_tick conns)
