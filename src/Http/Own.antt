-- ===== src/Http/Own.antt =====
-- The connections and the calls of Send that went to each of them (http_conn.cc).
use pic_bed.Prelude.{
  ℕ, ◌+◌, ◌≤◌, ◌<◌, Bool, true, false, Option, some, List, [], ◌∷◌, ◌++◌, append-nil, append_assoc,
  ◌≡◌, refl, sym, ap, ◌∙◌, subst, length, length-append, ◌==◌, arith, if◌then◌else◌, Bool-cases,
  inl, inr,
}
use pic_bed.Http.Conn.{HttpConn, is_closed, send, sent, on_write, written}
use pic_bed.Http.Sent.{IsSent, send-IsSent}
use pic_bed.Http.Server.{ResponsePdu, Sending, keep_open, find_conn, change_conn}

-- The bytes of the calls of Send that went to the connection `uuid`
abbrev pub sent_to : ℕ → List ResponsePdu → List ℕ
sent_to uuid [] = []
sent_to uuid (r ∷ sends) =
    if r.conn_uuid == uuid then r.resp_data ++ sent_to uuid sends else sent_to uuid sends

-- The bytes of all calls of Send
abbrev pub total : List ResponsePdu → ℕ
total [] = 0
total (r ∷ sends) = length r.resp_data + total sends

-- A connection in the maps: it is open, what it was given are the calls of Send to its uuid, and
-- what the socket took comes first of these.
pub record IsOwn (sends : List ResponsePdu) (c : HttpConn) : Type 0 where
  pub is_sent : IsSent c
  pub alive : is_closed c.state ≡ false
  pub own : c.given ≡ sent_to c.uuid sends

abbrev pub AreOwn : List ResponsePdu → List HttpConn → Type 0
AreOwn sends [] = Unit {0}
AreOwn sends (c ∷ conns) = IsOwn sends c × AreOwn sends conns

-- The uuids go up, from above `low` to at most `high`.
abbrev pub Rising : ℕ → ℕ → List HttpConn → Type 0
Rising low high [] = low ≤ high
Rising low high (c ∷ conns) = (low < c.uuid) × Rising c.uuid high conns

abbrev pub Below : ℕ → List ResponsePdu → Type 0
Below high [] = Unit {0}
Below high (r ∷ sends) = (r.conn_uuid ≤ high) × Below high sends

pub sent_to-append :
    (uuid : ℕ) (xs ys : List ResponsePdu)
    → sent_to uuid (xs ++ ys) ≡ sent_to uuid xs ++ sent_to uuid ys
sent_to-append uuid [] ys = refl
sent_to-append uuid (r ∷ xs) ys = elim (Bool-cases (r.conn_uuid == uuid)) [
  | inl e ↦
      rw e (ap (r.resp_data ++◌) (sent_to-append uuid xs ys) ∙ sym (append_assoc r.resp_data _ _))
  | inr e ↦ rw e (sent_to-append uuid xs ys)
]

pub length-sent_to : (uuid : ℕ) (xs : List ResponsePdu) → length (sent_to uuid xs) ≤ total xs
length-sent_to uuid [] = omega arith
length-sent_to uuid (r ∷ xs) = elim (Bool-cases (r.conn_uuid == uuid)) [
  | inl e ↦
      rw e (omega (arith, length-append r.resp_data (sent_to uuid xs), length-sent_to uuid xs))
  | inr e ↦ rw e (omega (arith, length-sent_to uuid xs))
]

pub total-append : (xs ys : List ResponsePdu) → total (xs ++ ys) ≡ total xs + total ys
total-append [] ys = omega arith
total-append (r ∷ xs) ys = omega (arith, total-append xs ys)

module _ (uuid : ℕ) (bytes : List ℕ) where
  abbrev pub entry : List ResponsePdu
  entry = record { conn_uuid = uuid; resp_data = bytes } ∷ []

  to_self : (sends : List ResponsePdu) → sent_to uuid (sends ++ entry) ≡ sent_to uuid sends ++ bytes
  to_self sends =
      let same : (uuid == uuid) ≡ true = ground arith in
      sent_to-append uuid sends entry ∙ rw same (ap (sent_to uuid sends ++◌) (append-nil bytes))

  pub to_other :
      (other : ℕ) (sends : List ResponsePdu)
      → (uuid == other) ≡ false
      → sent_to other (sends ++ entry) ≡ sent_to other sends
  to_other other sends e =
      sent_to-append other sends entry ∙ rw e (append-nil (sent_to other sends))

send-given :
    (tick junk : ℕ) (room : Option ℕ) (bytes : List ℕ) (c : HttpConn)
    → ((send tick junk room bytes c).given ≡ c.given ++ bytes)
      × ((send tick junk room bytes c).uuid ≡ c.uuid)
unfolding send sent
send-given tick junk room bytes c = ground arith

pub on_write-given :
    (room : Option ℕ) (c : HttpConn)
    → ((on_write room c).given ≡ c.given) × ((on_write room c).uuid ≡ c.uuid)
unfolding on_write written
on_write-given room c = ground arith

-- A connection that stays after a change has its place among the others.
pub keep_open-Rising :
    (low high : ℕ) (c : HttpConn) (conns : List HttpConn)
    → low < c.uuid
    → Rising c.uuid high conns
    → Rising low high (keep_open c conns)
keep_open-Rising low high c conns h r = by_case (is_closed c.state)
  where
    lower : (xs : List HttpConn) → Rising c.uuid high xs → Rising low high xs
    lower [] r = omega arith
    lower (x ∷ xs) (k, r) = (omega arith, r)

    by_case : (b : Bool) → Rising low high (if b then conns else c ∷ conns)
    by_case true = lower conns r
    by_case false = (h, r)

pub keep_open-AreOwn :
    (sends : List ResponsePdu) (c : HttpConn) (conns : List HttpConn)
    → (is_closed c.state ≡ false → IsOwn sends c)
    → AreOwn sends conns
    → AreOwn sends (keep_open c conns)
keep_open-AreOwn sends c conns h r = by_case (is_closed c.state) refl
  where
    by_case : (b : Bool) → is_closed c.state ≡ b → AreOwn sends (if b then conns else c ∷ conns)
    by_case true e = r
    by_case false e = (h e, r)

-- A call of Send to `uuid` is no concern of the connections above.
others-AreOwn :
    (uuid low high : ℕ) (bytes : List ℕ) (sends : List ResponsePdu) (conns : List HttpConn)
    → uuid ≤ low
    → Rising low high conns
    → AreOwn sends conns
    → AreOwn (sends ++ entry uuid bytes) conns
others-AreOwn uuid low high bytes sends [] h r o = tt
others-AreOwn uuid low high bytes sends (c ∷ conns) h (k, r) (o, rest) = (
  record {
    is_sent = o.is_sent;
    alive = o.alive;
    own = o.own ∙ sym (to_other uuid bytes c.uuid sends (ground (arith, h, k)));
  },
  others-AreOwn uuid c.uuid high bytes sends conns (omega arith) r rest,
)

pub found-above :
    (p : HttpConn → Bool) (low high : ℕ) (conns : List HttpConn) (c : HttpConn)
    → find_conn p conns ≡ some c
    → Rising low high conns
    → low < c.uuid
unfolding find_conn
found-above p low high [] c e r = cc
found-above p low high (x ∷ conns) c e (k, r) =
    elim (p x) as (λ b. (if b then some x else find_conn p conns) ≡ some c → low < c.uuid) [
      | true ↦ λ e. let same : x ≡ c = cc in subst (λ (y : HttpConn). low < y.uuid) same k
      | false ↦ λ e. let h = found-above p x.uuid high conns c e r in omega arith
    ]
      e

-- A change that keeps the uuid and, where the connection stays open, its laws
pub record IsHarmless (f : HttpConn → HttpConn) : Type 0 where
  pub same_uuid : (c : HttpConn) → (f c).uuid ≡ c.uuid
  pub keeps :
      (sends : List ResponsePdu) (c : HttpConn)
      → IsOwn sends c
      → is_closed (f c).state ≡ false
      → IsOwn sends (f c)

module _ (p : HttpConn → Bool) (f : HttpConn → HttpConn) (harmless : IsHarmless f) (high : ℕ)
    (sends : List ResponsePdu) where
  pub changed :
      (low : ℕ) (conns : List HttpConn)
      → Rising low high conns
      → AreOwn sends conns
      → Rising low high (change_conn p f conns) × AreOwn sends (change_conn p f conns)
  unfolding change_conn
  changed low [] r o = (r, o)
  changed low (x ∷ conns) (k, r) (o, rest) =
      elim (p x)
        as (λ b.
          let after = if b then keep_open (f x) conns else x ∷ change_conn p f conns in
          Rising low high after × AreOwn sends after) [
            | true ↦ (
              keep_open-Rising low high (f x) conns
                  (subst (λ (n : ℕ). low < n) (sym (harmless.same_uuid x)) k)
                  (subst (λ (n : ℕ). Rising n high conns) (sym (harmless.same_uuid x)) r),
              keep_open-AreOwn sends (f x) conns (harmless.keeps sends x o) rest,
            )
            | false ↦ let (r', o') = changed x.uuid conns r rest in ((k, r'), (o, o'))
          ]

module _ (p : HttpConn → Bool) (how : Sending) (bytes : List ℕ) (c : HttpConn)
    (sends : List ResponsePdu) (small : total sends + length bytes < 2147483648) (high : ℕ) where
  abbrev pub sending : HttpConn → HttpConn
  sending = send how.tick how.junk how.room bytes

  sending-IsOwn :
      (x : HttpConn)
      → IsOwn sends x
      → is_closed (sending x).state ≡ false
      → IsOwn (sends ++ entry x.uuid bytes) (sending x)
  sending-IsOwn x o alive =
      let (given, uuid) = send-given how.tick how.junk how.room bytes x in
      record {
        is_sent =
            send-IsSent how.tick how.junk how.room bytes x o.is_sent o.alive
              (omega (arith, ap (length {A = ℕ}) o.own, length-sent_to x.uuid sends));
        alive = alive;
        own =
            given
            ∙ ap (◌++ bytes) o.own
            ∙ sym (to_self x.uuid bytes sends)
            ∙ ap (λ (n : ℕ). sent_to n (sends ++ entry x.uuid bytes)) (sym uuid);
      }

  pub sent_found :
      (low : ℕ) (conns : List HttpConn)
      → find_conn p conns ≡ some c
      → Rising low high conns
      → AreOwn sends conns
      → Rising low high (change_conn p sending conns)
        × AreOwn (sends ++ entry c.uuid bytes) (change_conn p sending conns)
  unfolding change_conn find_conn
  sent_found low [] e r o = cc
  sent_found low (x ∷ conns) e (k, r) (o, rest) =
      elim (p x)
          as (λ b.
            (if b then some x else find_conn p conns) ≡ some c
            → let after =
                if b then keep_open (sending x) conns else x ∷ change_conn p sending conns in
              Rising low high after × AreOwn (sends ++ entry c.uuid bytes) after) [
                | true ↦ λ e.
                    let same : x ≡ c = cc in
                    let (_, uuid) = send-given how.tick how.junk how.room bytes x in
                    (
                      keep_open-Rising low high (sending x) conns
                          (subst (λ (n : ℕ). low < n) (sym uuid) k)
                          (subst (λ (n : ℕ). Rising n high conns) (sym uuid) r),
                      subst
                          (λ (n : ℕ). AreOwn (sends ++ entry n bytes) (keep_open (sending x) conns))
                          (ap (λ (y : HttpConn). y.uuid) same)
                          (keep_open-AreOwn (sends ++ entry x.uuid bytes) (sending x) conns
                            (sending-IsOwn x o)
                            (others-AreOwn x.uuid x.uuid high bytes sends conns (omega arith) r
                              rest)),
                    )
                | false ↦ λ e.
                    let (r', o') = sent_found x.uuid conns e r rest in
                    let above = found-above p x.uuid high conns c e r in
                    (
                      (k, r'),
                      (
                        record {
                          is_sent = o.is_sent;
                          alive = o.alive;
                          own =
                              o.own
                              ∙ sym (to_other c.uuid bytes x.uuid sends (ground (arith, above)));
                        },
                        o',
                      ),
                    )
              ]
        e
