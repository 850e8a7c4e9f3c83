-- ===== src/Http/Steps.antt =====
-- What each call does to the laws of the server (http_conn.cc).
use pic_bed.Prelude.{
  ℕ, ◌+◌, ◌≤◌, ◌<◌, Bool, true, false, Option, none, some, List, [], ◌∷◌, ◌++◌, Text, ◌≡◌, refl,
  sym, ap, ◌∙◌, subst, nth?, length, ltb, ◌==◌, arith, if◌then◌else◌,
}
use pic_bed.Http.Conn.{HttpConn, on_write, receive, on_timer, close}
use pic_bed.Http.Sent.{IsSent, on_write-IsSent}
use pic_bed.Http.Route.{Route}
use pic_bed.Http.Own.{
  sent_to, total, IsOwn, AreOwn, Rising, Below, entry, IsHarmless, sent_found, total-append,
  keep_open-Rising, keep_open-AreOwn, on_write-given,
}
use pic_bed.Http.Server.{
  Server, ResponsePdu, Sending, keep_open, has_handle, has_uuid, find_conn, change_conn, on_connect,
  send_to, on_read, answer_job, send_responses, send_response_data_list, check_timers, next_number,
}

-- What happens to the server, with what the outside chooses
pub data ServerEvent : Type 0 where
  connects : (sock_handle tick : ℕ) → ServerEvent
  readable :
      (chunks : List (List ℕ)) (handle : ℕ) (how : Sending) (reply : Route → Text → Text → Text)
      → ServerEvent
  writable : (handle : ℕ) (room : Option ℕ) → ServerEvent
  hangs_up : (handle : ℕ) → ServerEvent
  answered : (job : ℕ) (reply : Route → Text → Text → Text) → ServerEvent
  loops : (how : Sending) → ServerEvent
  timers : (curr_tick : ℕ) → ServerEvent

module _ (parse : Text → Option (Text × Text)) where
  unfoldable pub serve : ServerEvent → Server → Server
  unfolding on_connect on_read on_write close change_conn send_response_data_list check_timers
      answer_job
  serve (connects sock_handle tick) s = on_connect sock_handle tick s
  serve (readable chunks handle how reply) s = on_read parse reply chunks handle how s
  serve (writable handle room) s = record s {
    conns = change_conn (has_handle handle) (on_write room) s.conns;
  }
  serve (hangs_up handle) s = record s { conns = change_conn (has_handle handle) close s.conns }
  serve (answered job reply) s = answer_job (nth? job s.jobs) job reply s
  serve (loops how) s = send_response_data_list how s
  serve (timers curr_tick) s = record s { conns = check_timers curr_tick s.conns }

  unfoldable pub serve_all : List ServerEvent → Server → Server
  unfolding serve
  serve_all [] s = s
  serve_all (e ∷ events) s = serve_all events (serve e s)

-- The laws of the server
pub record IsServer (s : Server) : Type 0 where
  pub rising : Rising 0 s.uuid_alloctor s.conns
  pub own : AreOwn s.sends s.conns
  pub below : Below s.uuid_alloctor s.sends

-- The changes of one connection that are not a Send
receive-same :
    (tick junk : ℕ) (chunks : List (List ℕ)) (c : HttpConn)
    → ((receive tick junk chunks c).uuid ≡ c.uuid)
      × ((receive tick junk chunks c).state ≡ c.state)
      × ((receive tick junk chunks c).given ≡ c.given)
      × (IsSent c → IsSent (receive tick junk chunks c))
unfolding receive
receive-same tick junk [] c = (
  refl,
  refl,
  refl,
  λ h. record {
    buffer = h.buffer;
    in_order = h.in_order;
    nothing_left = h.nothing_left;
    all_sent = h.all_sent;
    deleted = h.deleted;
  },
)
receive-same tick junk (chunk ∷ chunks) c =
    let (a, b, d, k) = receive-same tick junk chunks _ in
    (
      a,
      b,
      d,
      λ h. k (record {
        buffer = h.buffer;
        in_order = h.in_order;
        nothing_left = h.nothing_left;
        all_sent = h.all_sent;
        deleted = h.deleted;
      }),
    )

pub receive-IsHarmless :
    (tick junk : ℕ) (chunks : List (List ℕ)) → IsHarmless (receive tick junk chunks)
receive-IsHarmless tick junk chunks = record {
  same_uuid = λ c. (receive-same tick junk chunks c).0;
  keeps = λ sends c o alive.
      let (uuid, state, given, is_sent) = receive-same tick junk chunks c in
      record {
        is_sent = is_sent o.is_sent;
        alive = alive;
        own = given ∙ o.own ∙ ap (λ (n : ℕ). sent_to n sends) (sym uuid);
      };
}

pub on_write-IsHarmless : (room : Option ℕ) → IsHarmless (on_write room)
on_write-IsHarmless room = record {
  same_uuid = λ c. (on_write-given room c).1;
  keeps = λ sends c o alive.
      let (given, uuid) = on_write-given room c in
      record {
        is_sent = on_write-IsSent room c o.is_sent o.alive;
        alive = alive;
        own = given ∙ o.own ∙ ap (λ (n : ℕ). sent_to n sends) (sym uuid);
      };
}

pub close-IsHarmless : IsHarmless close
unfolding close
close-IsHarmless = record { same_uuid = λ c. refl; keeps = λ sends c o alive. cc }

-- http_conn_timer_callback closes connections and changes no other.
pub check_timers-IsServer :
    (curr_tick low high : ℕ) (sends : List ResponsePdu) (conns : List HttpConn)
    → Rising low high conns
    → AreOwn sends conns
    → Rising low high (check_timers curr_tick conns) × AreOwn sends (check_timers curr_tick conns)
unfolding check_timers on_timer close
check_timers-IsServer curr_tick low high sends [] r o = (r, o)
check_timers-IsServer curr_tick low high sends (c ∷ conns) (k, r) (o, rest) =
    let (r', o') = check_timers-IsServer curr_tick c.uuid high sends conns r rest in
    elim (ltb (c.last_recv_tick + 60000) curr_tick)
      as (λ b.
        let after = keep_open (if b then close c else c) (check_timers curr_tick conns) in
        Rising low high after × AreOwn sends after) [
          | true ↦ (
            keep_open-Rising low high (close c) _ k r',
            keep_open-AreOwn sends (close c) _ (λ e. cc) o',
          )
          | false ↦ (keep_open-Rising low high c _ k r', keep_open-AreOwn sends c _ (λ e. o) o')
        ]

-- A new connection: its uuid is above all others, and nothing was sent to it.
pub next_number-small : (n k : ℕ) → n ≤ k → k < 4294967295 → next_number n ≡ n + 1
next_number-small n k h b = ground arith

pub Rising-append :
    (low high : ℕ) (conns : List HttpConn) (c : HttpConn)
    → Rising low high conns
    → high < c.uuid
    → Rising low c.uuid (conns ++ c ∷ [])
Rising-append low high [] c r h = (omega arith, omega arith)
Rising-append low high (x ∷ conns) c (k, r) h = (k, Rising-append x.uuid high conns c r h)

pub AreOwn-append :
    (sends : List ResponsePdu) (conns : List HttpConn) (c : HttpConn)
    → AreOwn sends conns
    → IsOwn sends c
    → AreOwn sends (conns ++ c ∷ [])
AreOwn-append sends [] c o h = (h, tt)
AreOwn-append sends (x ∷ conns) c (k, o) h = (k, AreOwn-append sends conns c o h)

pub nothing_sent :
    (high uuid : ℕ) (sends : List ResponsePdu)
    → Below high sends
    → high < uuid
    → sent_to uuid sends ≡ []
nothing_sent high uuid [] b h = refl
nothing_sent high uuid (r ∷ sends) (k, b) h =
    let other : (r.conn_uuid == uuid) ≡ false = ground (arith, k, h) in
    rw other (nothing_sent high uuid sends b h)

pub Below-raise :
    (low high : ℕ) (sends : List ResponsePdu) → low ≤ high → Below low sends → Below high sends
Below-raise low high [] h b = tt
Below-raise low high (r ∷ sends) h (k, b) = (omega arith, Below-raise low high sends h b)

Below-append :
    (high uuid : ℕ) (bytes : List ℕ) (sends : List ResponsePdu)
    → uuid ≤ high
    → Below high sends
    → Below high (sends ++ entry uuid bytes)
Below-append high uuid bytes [] h b = (h, tt)
Below-append high uuid bytes (r ∷ sends) h (k, b) = (k, Below-append high uuid bytes sends h b)

found-below :
    (p : HttpConn → Bool) (low high : ℕ) (conns : List HttpConn) (c : HttpConn)
    → find_conn p conns ≡ some c
    → Rising low high conns
    → c.uuid ≤ high
unfolding find_conn
found-below p low high [] c e r = cc
found-below p low high (x ∷ conns) c e (k, r) =
    elim (p x) as (λ b. (if b then some x else find_conn p conns) ≡ some c → c.uuid ≤ high) [
      | true ↦ λ e.
          let same : x ≡ c = cc in subst (λ (y : HttpConn). y.uuid ≤ high) same (top x.uuid conns r)
      | false ↦ λ e. found-below p x.uuid high conns c e r
    ]
      e
  where
    top : (low : ℕ) (xs : List HttpConn) → Rising low high xs → low ≤ high
    top low [] r = r
    top low (x ∷ xs) (k, r) = let h = top x.uuid xs r in omega arith

-- One call of Send
pub send_to-IsServer :
    (o : Option HttpConn) (p : HttpConn → Bool) (how : Sending) (bytes : List ℕ) (s : Server)
    → find_conn p s.conns ≡ o
    → IsServer s
    → total (send_to o p how bytes s).sends < 2147483648
    → IsServer (send_to o p how bytes s)
send_to-IsServer none p how bytes s e h small = h
send_to-IsServer (some c) p how bytes s e h small =
    let room : total (s.sends ++ entry c.uuid bytes) ≡ total s.sends + length bytes =
      total-append s.sends (entry c.uuid bytes) ∙ omega arith in
    let (r, o) =
      sent_found p how bytes c s.sends (omega arith) s.uuid_alloctor 0 s.conns e h.rising h.own in
    record {
      rising = r;
      own = o;
      below =
          Below-append s.uuid_alloctor c.uuid bytes s.sends
            (found-below p 0 s.uuid_alloctor s.conns c e h.rising) h.below;
    }

-- The history only grows, and no uuid is given out.
abbrev pub Grows : Server → Server → Type 0
Grows s t = (total s.sends ≤ total t.sends) × (t.uuid_alloctor ≡ s.uuid_alloctor)

pub send_to-Grows :
    (o : Option HttpConn) (p : HttpConn → Bool) (how : Sending) (bytes : List ℕ) (s : Server)
    → Grows s (send_to o p how bytes s)
send_to-Grows none p how bytes s = omega arith
send_to-Grows (some c) p how bytes s = omega (arith, total-append s.sends (entry c.uuid bytes))

pub send_responses-Grows :
    (responses : List ResponsePdu) (how : Sending) (s : Server)
    → Grows s (send_responses responses how s)
unfolding send_responses
send_responses-Grows [] how s = omega arith
send_responses-Grows (r ∷ rest) how s =
    let found = find_conn (has_uuid r.conn_uuid) s.conns in
    omega (
      arith,
      send_to-Grows found (has_uuid r.conn_uuid) how r.resp_data s,
      send_responses-Grows rest how (send_to found (has_uuid r.conn_uuid) how r.resp_data s),
    )

pub send_responses-IsServer :
    (responses : List ResponsePdu) (how : Sending) (s : Server)
    → IsServer s
    → total (send_responses responses how s).sends < 2147483648
    → IsServer (send_responses responses how s)
unfolding send_responses
send_responses-IsServer [] how s h small = h
send_responses-IsServer (r ∷ rest) how s h small =
    let found = find_conn (has_uuid r.conn_uuid) s.conns in
    let after = send_to found (has_uuid r.conn_uuid) how r.resp_data s in
    send_responses-IsServer rest how after
      (send_to-IsServer found (has_uuid r.conn_uuid) how r.resp_data s refl h
        (omega (arith, send_responses-Grows rest how after)))
      small
