-- ===== src/Http/Conn.antt =====
-- One CHttpConn (http_conn.cc): what it sends, through its buffer where the socket does not take all,
-- and what it reads.
use pic_bed.Prelude.{
  ℕ, ◌+◌, ◌-◌, Bool, true, false, Option, none, some, List, [], ◌∷◌, ◌++◌, ℤ, pos, minus_one,
  length, take, drop, ltb, if◌then◌else◌,
}
use pic_bed.Pdu.Buffer.{SimpleBuffer, simple_buffer, write, read, contents, extend, put}

-- The states of the enum
pub data ConnState : Type 0 where
  idle connected open_ closed : ConnState

abbrev pub is_closed : ConnState → Bool
is_closed closed = true
is_closed other = false

-- The members, and the history of the connection: the bytes that were given to Send, those that the
-- socket took, and whether OnWriteComlete was called.
pub record HttpConn : Type 0 where
  pub uuid : ℕ
  pub conn_handle : ℕ
  pub sock_handle : ℕ
  pub state : ConnState
  pub busy : Bool
  pub in_buf : SimpleBuffer
  pub out_buf : SimpleBuffer
  pub last_send_tick : ℕ
  pub last_recv_tick : ℕ
  pub given : List ℕ
  pub wire : List ℕ
  pub completed : Bool

-- CHttpConn::CHttpConn at the time `tick`, with the numbers that it takes, and OnConnect
unfoldable pub http_conn : ℕ → ℕ → ℕ → ℕ → HttpConn
unfolding simple_buffer
http_conn uuid conn_handle sock_handle tick = record {
  uuid = uuid;
  conn_handle = conn_handle;
  sock_handle = sock_handle;
  state = connected;
  busy = false;
  in_buf = simple_buffer;
  out_buf = simple_buffer;
  last_send_tick = tick;
  last_recv_tick = tick;
  given = [];
  wire = [];
  completed = false;
}

-- netlib_send (base/netlib.cc): the return value and the bytes that go out. The socket takes at most
-- the number of bytes that it has room for; none where `send` fails.
abbrev pub netlib_send : Option ℕ → List ℕ → ℤ × List ℕ
netlib_send none bytes = (minus_one, [])
netlib_send (some room) bytes = (pos (length (take room bytes)), take room bytes)

-- `if (ret < 0) ret = 0;`
abbrev pub at_least_nought : ℤ → ℕ
at_least_nought (pos n) = n
at_least_nought other = 0

-- Close, of the connection itself
unfoldable pub close : HttpConn → HttpConn
close c = record c { state = closed }

-- OnWriteComlete
unfoldable pub on_write_complete : HttpConn → HttpConn
unfolding close
on_write_complete c = record (close c) { completed = true }

-- Send, behind netlib_send, which took `taken` and returned `ret`; `junk` stands in new memory.
unfoldable pub sent : ℕ → List ℕ → ℕ → HttpConn → HttpConn
unfolding on_write_complete write
sent junk bytes ret c =
    if ltb ret (length bytes)
    then record c { out_buf = write junk (drop ret bytes) c.out_buf; busy = true }
    else on_write_complete c

-- Send at the time `tick`
unfoldable pub send : ℕ → ℕ → Option ℕ → List ℕ → HttpConn → HttpConn
unfolding sent
send tick junk room bytes c =
    let asked = record c { last_send_tick = tick; given = c.given ++ bytes } in
    let (ret, taken) = netlib_send room bytes in
    if c.busy
    then record asked { out_buf = write junk bytes c.out_buf }
    else sent junk bytes (at_least_nought ret) (record asked { wire = c.wire ++ taken })

-- OnWrite, behind netlib_send
unfoldable pub written : ℕ → HttpConn → HttpConn
unfolding on_write_complete read
written ret c =
    let out_buf_size = c.out_buf.write_offset in
    let left = record c { out_buf = (read ret c.out_buf).1 } in
    if ltb ret out_buf_size
    then record left { busy = true }
    else record (on_write_complete left) { busy = false }

-- OnWrite
unfoldable pub on_write : Option ℕ → HttpConn → HttpConn
unfolding written contents
on_write room c =
    let (ret, taken) = netlib_send room (contents c.out_buf) in
    if c.busy then written (at_least_nought ret) (record c { wire = c.wire ++ taken }) else c

-- READ_BUF_SIZE + 1 free bytes, before each netlib_recv
unfoldable pub make_room : ℕ → SimpleBuffer → SimpleBuffer
unfolding extend
make_room junk s =
    let free_buf_len = s.alloc_size - s.write_offset in
    if ltb free_buf_len 2049 then extend junk 2049 s else s

-- The loop of OnRead: each chunk is what one netlib_recv delivers, until one returns 0 or less.
unfoldable pub receive : ℕ → ℕ → List (List ℕ) → HttpConn → HttpConn
unfolding make_room put
receive tick junk [] c = record c { in_buf = make_room junk c.in_buf }
receive tick junk (chunk ∷ chunks) c =
    receive tick junk chunks
      (record c { in_buf = put chunk (make_room junk c.in_buf); last_recv_tick = tick })

-- OnTimer, with HTTP_CONN_TIMEOUT
unfoldable pub on_timer : ℕ → HttpConn → HttpConn
unfolding close
on_timer curr_tick c = if ltb (c.last_recv_tick + 60000) curr_tick then close c else c
