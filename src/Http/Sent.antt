-- ===== src/Http/Sent.antt =====
-- What a client receives is what was given to Send, in its order (CHttpConn::Send and OnWrite,
-- http_conn.cc).
use pic_bed.Prelude.{
  ℕ, zero, suc, ◌+◌, ◌≤◌, ◌<◌, Bool, true, false, Option, none, some, List, [], ◌∷◌, ◌++◌,
  append-nil, append_assoc, ◌≡◌, refl, sym, ap, ◌∙◌, length, length-append, length-take, take, drop,
  ltb, arith, if◌then◌else◌,
}
use pic_bed.Pdu.Buffer.{
  SimpleBuffer, simple_buffer, write, read, contents, IsBuffer, write-IsBuffer, read-IsBuffer,
}
use pic_bed.Http.Conn.{
  HttpConn, is_closed, closed, http_conn, netlib_send, at_least_nought, send, sent, on_write,
  written, on_write_complete, close,
}

-- The laws of a connection
pub record IsSent (c : HttpConn) : Type 0 where
  pub buffer : IsBuffer c.out_buf
  pub in_order : c.wire ++ contents c.out_buf ≡ c.given
  pub nothing_left : c.busy ≡ false → contents c.out_buf ≡ []
  pub all_sent : c.completed ≡ true → c.wire ≡ c.given
  pub deleted : c.completed ≡ true → is_closed c.state ≡ true

length-contents : (s : SimpleBuffer) → IsBuffer s → length (contents s) ≡ s.write_offset
unfolding contents
length-contents s h = omega (arith, length-take s.write_offset s.buf, h.allocated, h.within)

drop-all : {A : Type 0} (n : ℕ) (xs : List A) → length xs ≤ n → drop n xs ≡ []
drop-all zero [] h = refl
drop-all zero (x ∷ xs) h = absurd (omega arith)
drop-all (suc n) [] h = refl
drop-all (suc n) (x ∷ xs) h = drop-all n xs (omega arith)

length-rest : {A : Type 0} (n : ℕ) (xs : List A) → length (drop n xs) ≤ length xs
length-rest zero xs = omega arith
length-rest (suc n) [] = omega arith
length-rest (suc n) (x ∷ xs) = omega (arith, length-rest n xs)

take_whole : {A : Type 0} (n : ℕ) (xs : List A) → take n xs ++ drop (length (take n xs)) xs ≡ xs
take_whole zero xs = refl
take_whole (suc n) [] = refl
take_whole (suc n) (x ∷ xs) = ap (x ∷◌) (take_whole n xs)

-- The bytes that the socket took, and those behind them
took :
    (room : Option ℕ) (bytes : List ℕ)
    → let (ret, taken) = netlib_send room bytes in taken ++ drop (at_least_nought ret) bytes ≡ bytes
took none bytes = refl
took (some room) bytes = take_whole room bytes

-- Fewer bytes than 2 ^ 31 were given.
abbrev pub IsSmall : HttpConn → Type 0
IsSmall c = length c.given < 2147483648

module _ (c : HttpConn) where
  -- What stands in the buffer was given.
  offset-le : IsSent c → c.out_buf.write_offset ≤ length c.given
  offset-le h = omega (
    arith,
    length-contents c.out_buf h.buffer,
    length-append c.wire (contents c.out_buf),
    ap (length {A = ℕ}) h.in_order,
  )

  sent-IsSent :
      (junk : ℕ) (bytes taken : List ℕ) (ret : ℕ)
      → IsSent c
      → is_closed c.state ≡ false
      → c.busy ≡ false
      → taken ++ drop ret bytes ≡ bytes
      → length c.given + length bytes < 2147483648
      → IsSent (sent junk bytes ret (record c { given = c.given ++ bytes; wire = c.wire ++ taken }))
  unfolding sent on_write_complete close
  sent-IsSent junk bytes taken ret h alive free split small = by_case (ltb ret (length bytes)) refl
    where
      before : contents c.out_buf ≡ []
      before = h.nothing_left free

      gone : c.wire ≡ c.given
      gone = sym (append-nil c.wire) ∙ ap (c.wire ++◌) (sym before) ∙ h.in_order

      whole : (rest : List ℕ) → taken ++ rest ≡ bytes → (c.wire ++ taken) ++ rest ≡ c.given ++ bytes
      whole rest e = append_assoc c.wire taken rest ∙ ap (c.wire ++◌) e ∙ ap (◌++ bytes) gone

      by_case :
          (b : Bool)
          → ltb ret (length bytes) ≡ b
          → let asked = record c { given = c.given ++ bytes; wire = c.wire ++ taken } in
            IsSent (
              if b
              then record asked { out_buf = write junk (drop ret bytes) c.out_buf; busy = true }
              else record asked { state = closed; completed = true })
      by_case true e =
          let fits = length-rest ret bytes in
          let (buffer, written) =
            write-IsBuffer junk (drop ret bytes) c.out_buf h.buffer (omega (arith, offset-le h)) in
          record {
            buffer = buffer;
            in_order =
                ap ((c.wire ++ taken) ++◌) (written ∙ ap (◌++ drop ret bytes) before)
                ∙ whole (drop ret bytes) split;
            nothing_left = λ k. cc;
            all_sent = λ k. cc (h.deleted k);
            deleted = λ k. cc (h.deleted k);
          }
      by_case false e =
          let none_left : drop ret bytes ≡ [] = drop-all ret bytes (ground (arith, e)) in
          let all : c.wire ++ taken ≡ c.given ++ bytes =
            sym (append-nil (c.wire ++ taken))
            ∙ whole [] (ap (taken ++◌) (sym none_left) ∙ split) in
          record {
            buffer = h.buffer;
            in_order = ap ((c.wire ++ taken) ++◌) before ∙ append-nil (c.wire ++ taken) ∙ all;
            nothing_left = λ k. before;
            all_sent = λ k. all;
            deleted = λ k. refl;
          }

  buffered-IsSent :
      (junk : ℕ) (bytes : List ℕ)
      → IsSent c
      → is_closed c.state ≡ false
      → c.busy ≡ true
      → length c.given + length bytes < 2147483648
      → IsSent (record c { given = c.given ++ bytes; out_buf = write junk bytes c.out_buf })
  buffered-IsSent junk bytes h alive busy small =
      let (buffer, written) =
        write-IsBuffer junk bytes c.out_buf h.buffer (omega (arith, offset-le h)) in
      record {
        buffer = buffer;
        in_order =
            ap (c.wire ++◌) written
            ∙ sym (append_assoc c.wire (contents c.out_buf) bytes)
            ∙ ap (◌++ bytes) h.in_order;
        nothing_left = λ k. cc;
        all_sent = λ k. cc (h.deleted k);
        deleted = h.deleted;
      }

-- The tick of the last Send is not part of the laws.
at_tick : (tick : ℕ) {c : HttpConn} → IsSent c → IsSent (record c { last_send_tick = tick })
at_tick tick h = record {
  buffer = h.buffer;
  in_order = h.in_order;
  nothing_left = h.nothing_left;
  all_sent = h.all_sent;
  deleted = h.deleted;
}

pub send-IsSent :
    (tick junk : ℕ) (room : Option ℕ) (bytes : List ℕ) (c : HttpConn)
    → IsSent c
    → is_closed c.state ≡ false
    → length c.given + length bytes < 2147483648
    → IsSent (send tick junk room bytes c)
unfolding send
send-IsSent tick junk room bytes c h alive small = by_case c.busy refl
  where
    by_case :
        (b : Bool)
        → c.busy ≡ b
        → let asked = record c { last_send_tick = tick; given = c.given ++ bytes } in
          let (ret, taken) = netlib_send room bytes in
          IsSent (
            if b
            then record asked { out_buf = write junk bytes c.out_buf }
            else sent junk bytes (at_least_nought ret) (record asked { wire = c.wire ++ taken }))
    by_case true busy = at_tick tick (buffered-IsSent c junk bytes h alive busy small)
    by_case false free =
        let (ret, taken) = netlib_send room bytes in
        sent-IsSent (record c { last_send_tick = tick }) junk bytes taken (at_least_nought ret)
          (at_tick tick h) alive free (took room bytes) small

written-IsSent :
    (c : HttpConn) (ret : ℕ) (taken : List ℕ)
    → IsSent c
    → is_closed c.state ≡ false
    → c.busy ≡ true
    → taken ++ drop ret (contents c.out_buf) ≡ contents c.out_buf
    → IsSent (written ret (record c { wire = c.wire ++ taken }))
unfolding written on_write_complete close
written-IsSent c ret taken h alive busy split = by_case (ltb ret c.out_buf.write_offset) refl
  where
    left : SimpleBuffer
    left = (read ret c.out_buf).1

    whole :
        (rest : List ℕ) → rest ≡ drop ret (contents c.out_buf) → (c.wire ++ taken) ++ rest ≡ c.given
    whole rest e =
        append_assoc c.wire taken rest
        ∙ ap (λ (xs : List ℕ). c.wire ++ (taken ++ xs)) e
        ∙ ap (c.wire ++◌) split
        ∙ h.in_order

    by_case :
        (b : Bool)
        → ltb ret c.out_buf.write_offset ≡ b
        → let rest = record c { wire = c.wire ++ taken; out_buf = left } in
          IsSent (
            if b
            then record rest { busy = true }
            else record rest { state = closed; completed = true; busy = false })
    by_case true e =
        let (bytes, buffer, behind) = read-IsBuffer ret c.out_buf h.buffer in
        record {
          buffer = buffer;
          in_order = whole (contents left) behind;
          nothing_left = λ k. cc;
          all_sent = λ k. cc (h.deleted k);
          deleted = λ k. cc (h.deleted k);
        }
    by_case false e =
        let (bytes, buffer, behind) = read-IsBuffer ret c.out_buf h.buffer in
        let none_left : drop ret (contents c.out_buf) ≡ [] =
          drop-all ret (contents c.out_buf)
            (ground (arith, e, length-contents c.out_buf h.buffer)) in
        record {
          buffer = buffer;
          in_order = whole (contents left) behind;
          nothing_left = λ k. behind ∙ none_left;
          all_sent = λ k. sym (append-nil (c.wire ++ taken)) ∙ whole [] (sym none_left);
          deleted = λ k. refl;
        }

pub on_write-IsSent :
    (room : Option ℕ) (c : HttpConn)
    → IsSent c
    → is_closed c.state ≡ false
    → IsSent (on_write room c)
unfolding on_write
on_write-IsSent room c h alive = by_case c.busy refl
  where
    by_case :
        (b : Bool)
        → c.busy ≡ b
        → let (ret, taken) = netlib_send room (contents c.out_buf) in
          IsSent
            (if b then written (at_least_nought ret) (record c { wire = c.wire ++ taken }) else c)
    by_case true busy =
        let (ret, taken) = netlib_send room (contents c.out_buf) in
        written-IsSent c (at_least_nought ret) taken h alive busy (took room (contents c.out_buf))
    by_case false free = h

pub new_conn-IsSent :
    (uuid conn_handle sock_handle tick : ℕ) → IsSent (http_conn uuid conn_handle sock_handle tick)
unfolding http_conn simple_buffer contents
new_conn-IsSent uuid conn_handle sock_handle tick = record {
  buffer = record { allocated = refl; within = omega arith };
  in_order = refl;
  nothing_left = λ e. refl;
  all_sent = λ e. cc;
  deleted = λ e. cc;
}
