-- ===== src/Http/Received.antt =====
-- What OnRead reads stays within its buffer (http_conn.cc).
use pic_bed.Prelude.{
  ℕ, ◌+◌, ◌-◌, ◌≤◌, ◌<◌, Bool, true, false, List, [], ◌∷◌, ◌++◌, append-nil, append_assoc, ◌≡◌,
  refl, sym, ap, ◌∙◌, length, length-append, ltb, arith, if◌then◌else◌,
}
use pic_bed.Pdu.Buffer.{
  SimpleBuffer, extend, put, contents, IsBuffer, extend-IsBuffer, put-IsBuffer,
}
use pic_bed.Http.Conn.{HttpConn, make_room, receive}

abbrev pub concat : List (List ℕ) → List ℕ
concat [] = []
concat (chunk ∷ chunks) = chunk ++ concat chunks

-- netlib_recv is asked for READ_BUF_SIZE bytes.
abbrev pub AreChunks : List (List ℕ) → Type 0
AreChunks [] = Unit {0}
AreChunks (chunk ∷ chunks) = (length chunk ≤ 2048) × AreChunks chunks

make_room-IsBuffer :
    (junk : ℕ) (s : SimpleBuffer)
    → IsBuffer s
    → s.write_offset < 2147483648
    → IsBuffer (make_room junk s)
      × ((make_room junk s).write_offset + 2049 ≤ (make_room junk s).alloc_size)
      × (contents (make_room junk s) ≡ contents s)
      × ((make_room junk s).write_offset ≡ s.write_offset)
unfolding make_room
make_room-IsBuffer junk s h small = by_case (ltb (s.alloc_size - s.write_offset) 2049) refl
  where
    by_case :
        (b : Bool)
        → ltb (s.alloc_size - s.write_offset) 2049 ≡ b
        → let t = if b then extend junk 2049 s else s in
          IsBuffer t
          × (t.write_offset + 2049 ≤ t.alloc_size)
          × (contents t ≡ contents s)
          × (t.write_offset ≡ s.write_offset)
    by_case true e =
        let (buffer, room, same) = extend-IsBuffer junk 2049 s h (omega arith) in
        (buffer, room, same, refl)
    by_case false e = (h, ground (arith, e, h.within), refl, refl)

put-offset :
    (bytes : List ℕ) (s : SimpleBuffer)
    → s.write_offset + length bytes < 4294967296
    → (put bytes s).write_offset ≡ s.write_offset + length bytes
unfolding put
put-offset bytes s h = omega arith

-- OnRead puts the chunks behind what it has, in their order, without writing behind the allocated
-- bytes, and there is one more for the NUL that it writes then.
pub receive-IsBuffer :
    (tick junk : ℕ) (chunks : List (List ℕ)) (c : HttpConn)
    → IsBuffer c.in_buf
    → AreChunks chunks
    → c.in_buf.write_offset + length (concat chunks) < 2147483648
    → let s = (receive tick junk chunks c).in_buf in
      IsBuffer s
      × (contents s ≡ contents c.in_buf ++ concat chunks)
      × (s.write_offset < s.alloc_size)
unfolding receive
receive-IsBuffer tick junk [] c h k small =
    let (buffer, room, same, offset) = make_room-IsBuffer junk c.in_buf h (omega arith) in
    (buffer, same ∙ sym (append-nil (contents c.in_buf)), omega arith)
receive-IsBuffer tick junk (chunk ∷ chunks) c h (k, ks) small =
    let whole : length (chunk ++ concat chunks) ≡ length chunk + length (concat chunks) =
      length-append chunk (concat chunks) in
    let (buffer, room, same, offset) = make_room-IsBuffer junk c.in_buf h (omega arith) in
    let space = make_room junk c.in_buf in
    let (put_buffer, put_same) = put-IsBuffer chunk space buffer (omega arith) (omega arith) in
    let after = put-offset chunk space (omega arith) in
    let (end_buffer, end_same, nul) =
      receive-IsBuffer tick junk chunks
        (record c { in_buf = put chunk space; last_recv_tick = tick }) put_buffer ks
        (omega arith) in
    (
      end_buffer,
      end_same
          ∙ ap (◌++ concat chunks) (put_same ∙ ap (◌++ chunk) same)
          ∙ append_assoc (contents c.in_buf) chunk (concat chunks),
      nul,
    )
