-- ===== src/Http/Answered.antt =====
-- What is sent to a connection answers a request that was read from it (http_conn.cc).
use pic_bed.Prelude.{
  ℕ, Bool, true, false, Option, none, some, List, [], ◌∷◌, ◌++◌, Text, ◌≡◌, refl, sym, ap, ◌∙◌,
  subst, nth?, ltb, if◌then◌else◌,
}
use pic_bed.Pdu.Buffer.{contents}
use pic_bed.Http.Conn.{HttpConn, close, receive}
use pic_bed.Http.Route.{
  Route, register, login, myfiles, sharefiles, dealfile, dealsharefile, sharepicture, md5, upload,
  unknown, route,
}
use pic_bed.Http.Server.{
  Server, Job, ResponsePdu, Sending, format_response, has_handle, has_uuid, find_conn, change_conn,
  on_connect, send_to, dispatch, parsed, read_all, on_read, add_response_data, answer_job,
  send_responses, send_response_data_list,
}
use pic_bed.Http.Steps.{
  ServerEvent, connects, readable, writable, hangs_up, answered, loops, timers, serve, serve_all,
}
use pic_bed.Http.Answers.{
  Each, Each-append, Each-map, Each-nth, Each-without, WasRead, WasRead-append, found-passes,
  same_uuid, IsAnswer, AreHandled, AreAnswered, IsAnswering,
}

module _ (Answers : Route → Text → Text → Text → Type 0) where
  answer_later :
      {requests more : List Job} (r : ResponsePdu)
      → ((job : Job) → WasRead requests job → WasRead more job)
      → IsAnswer Answers requests r
      → IsAnswer Answers more r
  answer_later r later (job, str_json, read, uuid, answers, bytes) =
      (job, str_json, later job read, uuid, answers, bytes)

  send_to-AreAnswered :
      (requests : List Job) (o : Option HttpConn) (p : HttpConn → Bool) (how : Sending)
      (bytes : List ℕ) (s : Server)
      → ((c : HttpConn)
          → o ≡ some c
          → IsAnswer Answers requests (record { conn_uuid = c.uuid; resp_data = bytes }))
      → AreAnswered Answers requests s
      → AreAnswered Answers requests (send_to o p how bytes s)
  send_to-AreAnswered requests none p how bytes s answer h = h
  send_to-AreAnswered requests (some c) p how bytes s answer h = record {
    same = h.same;
    sent = Each-append (IsAnswer Answers requests) s.sends _ h.sent (answer c refl);
    waiting = h.waiting;
    given = h.given;
  }

  send_responses-AreAnswered :
      (requests : List Job) (responses : List ResponsePdu) (how : Sending) (s : Server)
      → Each (IsAnswer Answers requests) responses
      → AreAnswered Answers requests s
      → AreAnswered Answers requests (send_responses responses how s)
  unfolding send_responses
  send_responses-AreAnswered requests [] how s each h = h
  send_responses-AreAnswered requests (r ∷ rest) how s (answer, each) h =
      let found = find_conn (has_uuid r.conn_uuid) s.conns in
      send_responses-AreAnswered requests rest how
        (send_to found (has_uuid r.conn_uuid) how r.resp_data s) each
        (send_to-AreAnswered requests found (has_uuid r.conn_uuid) how r.resp_data s
          (λ c e.
            let uuid : c.uuid ≡ r.conn_uuid =
              same_uuid c.uuid r.conn_uuid (found-passes (has_uuid r.conn_uuid) s.conns c e) in
            let (job, str_json, read, own, answers, bytes) = answer in
            (job, str_json, read, own ∙ sym uuid, answers, bytes))
          h)

  module _ (requests : List Job) (reply : Route → Text → Text → Text)
      (good : (r : Route) (url content : Text) → Answers r url content (reply r url content))
      (url content : Text) (c : HttpConn) (handle : ℕ) (how : Sending) (s : Server)
      (found : find_conn (has_handle handle) s.conns ≡ some c) where
    abbrev asked : Route → Job
    asked handler = record { handler = handler; conn_uuid = c.uuid; url = url; content = content }

    replied :
        (handler : Route)
        → WasRead requests (asked handler)
        → AreAnswered Answers requests s
        → AreAnswered Answers requests (
            send_to
              (find_conn (has_handle handle) s.conns)
              (has_handle handle)
              how
              (format_response (reply handler url content))
              s)
    replied handler read h =
        send_to-AreAnswered requests (find_conn (has_handle handle) s.conns) (has_handle handle) how
          _ s
          (λ d e.
            let one : c ≡ d = cc in
            (
              asked handler,
              reply handler url content,
              read,
              ap (λ (x : HttpConn). x.uuid) one,
              good handler url content,
              refl,
            ))
          h

    handed :
        (handler : Route)
        → WasRead requests (asked handler)
        → AreAnswered Answers requests s
        → AreAnswered Answers requests (record s { jobs = s.jobs ++ asked handler ∷ [] })
    handed handler read h = record {
      same = h.same;
      sent = h.sent;
      waiting = h.waiting;
      given = Each-append (WasRead requests) s.jobs _ h.given read;
    }

    dispatch-AreAnswered :
        (handler : Route)
        → WasRead requests (asked handler)
        → AreAnswered Answers requests s
        → AreAnswered Answers requests (dispatch handler reply url content c handle how s)
    unfolding dispatch
    dispatch-AreAnswered register read h = handed register read h
    dispatch-AreAnswered login read h = handed login read h
    dispatch-AreAnswered unknown read h = record {
      same = h.same;
      sent = h.sent;
      waiting = h.waiting;
      given = h.given;
    }
    dispatch-AreAnswered myfiles read h = replied myfiles read h
    dispatch-AreAnswered sharefiles read h = replied sharefiles read h
    dispatch-AreAnswered dealfile read h = replied dealfile read h
    dispatch-AreAnswered dealsharefile read h = replied dealsharefile read h
    dispatch-AreAnswered sharepicture read h = replied sharepicture read h
    dispatch-AreAnswered md5 read h = replied md5 read h
    dispatch-AreAnswered upload read h = replied upload read h

  answering :
      (requests : List Job) (s : Server) → AreAnswered Answers requests s → IsAnswering Answers s
  answering requests s h = subst (λ (r : List Job). AreAnswered Answers r s) (sym h.same) h

  parsed-IsAnswering :
      (o : Option (Text × Text)) (reply : Route → Text → Text → Text)
      → ((r : Route) (url content : Text) → Answers r url content (reply r url content))
      → (c : HttpConn) (handle : ℕ) (how : Sending) (s : Server)
      → find_conn (has_handle handle) s.conns ≡ some c
      → IsAnswering Answers s
      → IsAnswering Answers (parsed o reply c handle how s)
  unfolding parsed
  parsed-IsAnswering none reply good c handle how s found h = h
  parsed-IsAnswering (some (url, content)) reply good c handle how s found h =
      let job : Job = record {
        handler = route url;
        conn_uuid = c.uuid;
        url = url;
        content = content;
      } in
      let later = WasRead-append s.requests job in
      answering (s.requests ++ job ∷ []) _ (
        dispatch-AreAnswered (s.requests ++ job ∷ []) reply good url content c handle how _ found
          (route url) (s.requests, [], refl)
          (record {
            same = refl;
            sent = Each-map _ _ (λ r a. answer_later r later a) s.sends h.sent;
            waiting = Each-map _ _ (λ r a. answer_later r later a) s.response_pdu_list h.waiting;
            given = Each-map _ _ later s.jobs h.given;
          }))

  read_all-IsAnswering :
      (parse : Text → Option (Text × Text)) (reply : Route → Text → Text → Text)
      → ((r : Route) (url content : Text) → Answers r url content (reply r url content))
      → (o : Option HttpConn) (handle : ℕ) (how : Sending) (s : Server)
      → find_conn (has_handle handle) s.conns ≡ o
      → IsAnswering Answers s
      → IsAnswering Answers (read_all parse reply o handle how s)
  unfolding read_all
  read_all-IsAnswering parse reply good none handle how s found h = h
  read_all-IsAnswering parse reply good (some c) handle how s found h =
      elim (ltb 2048 c.in_buf.write_offset)
        as (λ b. IsAnswering Answers (
          if b
          then record s { conns = change_conn (has_handle handle) close s.conns }
          else parsed (parse (contents c.in_buf)) reply c handle how s)) [
            | true ↦ record { same = h.same; sent = h.sent; waiting = h.waiting; given = h.given }
            | false ↦
                parsed-IsAnswering (parse (contents c.in_buf)) reply good c handle how s found h
          ]

  answer_job-IsAnswering :
      (o : Option Job) (i : ℕ) (reply : Route → Text → Text → Text)
      → ((r : Route) (url content : Text) → Answers r url content (reply r url content))
      → (s : Server) → nth? i s.jobs ≡ o
      → IsAnswering Answers s
      → IsAnswering Answers (answer_job o i reply s)
  unfolding answer_job add_response_data
  answer_job-IsAnswering none i reply good s e h = h
  answer_job-IsAnswering (some job) i reply good s e h = record {
    same = refl;
    sent = h.sent;
    waiting = Each-append (IsAnswer Answers s.requests) s.response_pdu_list _ h.waiting (
      job,
      reply job.handler job.url job.content,
      Each-nth (WasRead s.requests) i job s.jobs e h.given,
      refl,
      good job.handler job.url job.content,
      refl,
    );
    given = Each-without (WasRead s.requests) i s.jobs h.given;
  }

  module _ (parse : Text → Option (Text × Text)) where
    serve-IsAnswering :
        (e : ServerEvent) (events : List ServerEvent) (s : Server)
        → AreHandled Answers (e ∷ events)
        → IsAnswering Answers s
        → IsAnswering Answers (serve parse e s) × AreHandled Answers events
    unfolding serve on_connect on_read send_response_data_list
    serve-IsAnswering (connects sock_handle tick) events s good h =
        (record { same = h.same; sent = h.sent; waiting = h.waiting; given = h.given }, good)
    serve-IsAnswering (readable chunks handle how reply) events s (good, more) h = (
      let conns = change_conn (has_handle handle) (receive how.tick how.junk chunks) s.conns in
          read_all-IsAnswering parse reply good (find_conn (has_handle handle) conns) handle how
            (record s { conns = conns }) refl
            (record { same = h.same; sent = h.sent; waiting = h.waiting; given = h.given }),
      more,
    )
    serve-IsAnswering (writable handle room) events s good h =
        (record { same = h.same; sent = h.sent; waiting = h.waiting; given = h.given }, good)
    serve-IsAnswering (hangs_up handle) events s good h =
        (record { same = h.same; sent = h.sent; waiting = h.waiting; given = h.given }, good)
    serve-IsAnswering (answered job reply) events s (good, more) h =
        (answer_job-IsAnswering (nth? job s.jobs) job reply good s refl h, more)
    serve-IsAnswering (loops how) events s good h = (
      answering s.requests _ (
          send_responses-AreAnswered s.requests s.response_pdu_list how
            (record s { response_pdu_list = [] }) h.waiting
            (record { same = refl; sent = h.sent; waiting = tt; given = h.given })),
      good,
    )
    serve-IsAnswering (timers curr_tick) events s good h =
        (record { same = h.same; sent = h.sent; waiting = h.waiting; given = h.given }, good)

    pub serve_all-IsAnswering :
        (events : List ServerEvent) (s : Server)
        → AreHandled Answers events
        → IsAnswering Answers s
        → IsAnswering Answers (serve_all parse events s)
    unfolding serve_all
    serve_all-IsAnswering [] s good h = h
    serve_all-IsAnswering (e ∷ events) s good h =
        let (after, more) = serve-IsAnswering e events s good h in
        serve_all-IsAnswering events (serve parse e s) more after
