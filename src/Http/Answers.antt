-- ===== src/Http/Answers.antt =====
-- The requests that a server has read, and what answers them (http_conn.cc).
use pic_bed.Prelude.{
  ℕ, zero, suc, Bool, true, false, some, List, [], ◌∷◌, ◌++◌, append_assoc, Text, ◌≡◌, refl, ap,
  ◌∙◌, subst, nth?, without, ◌==◌, if◌then◌else◌, arith,
}
use pic_bed.Http.Conn.{HttpConn}
use pic_bed.Http.Route.{Route}
use pic_bed.Http.Server.{Server, Job, ResponsePdu, format_response, find_conn}
use pic_bed.Http.Steps.{
  ServerEvent, connects, readable, writable, hangs_up, answered, loops, timers,
}

-- Each entry of a list
abbrev pub Each : {A : Type 0} → (A → Type 0) → List A → Type 0
Each P [] = Unit
Each P (x ∷ xs) = P x × Each P xs

module _ {A : Type 0} where
  pub Each-append : (P : A → Type 0) (xs : List A) (y : A) → Each P xs → P y → Each P (xs ++ y ∷ [])
  Each-append P [] y h k = (k, tt)
  Each-append P (x ∷ xs) y (h, hs) k = (h, Each-append P xs y hs k)

  pub Each-map : (P Q : A → Type 0) → ((x : A) → P x → Q x) → (xs : List A) → Each P xs → Each Q xs
  Each-map P Q f [] h = tt
  Each-map P Q f (x ∷ xs) (h, hs) = (f x h, Each-map P Q f xs hs)

  pub Each-nth :
      (P : A → Type 0) (i : ℕ) (x : A) (xs : List A) → nth? i xs ≡ some x → Each P xs → P x
  Each-nth P i x [] e h = cc
  Each-nth P zero x (y ∷ xs) e (h, hs) = let same : y ≡ x = cc in subst P same h
  Each-nth P (suc i) x (y ∷ xs) e (h, hs) = Each-nth P i x xs e hs

  pub Each-without : (P : A → Type 0) (i : ℕ) (xs : List A) → Each P xs → Each P (without i xs)
  Each-without P i [] h = tt
  Each-without P zero (x ∷ xs) (h, hs) = hs
  Each-without P (suc i) (x ∷ xs) (h, hs) = (h, Each-without P i xs hs)

-- The request was read.
abbrev pub WasRead : List Job → Job → Type 0
WasRead requests job = (front : List Job) × (back : List Job) × (requests ≡ front ++ job ∷ back)

pub WasRead-append :
    (requests : List Job) (next job : Job)
    → WasRead requests job
    → WasRead (requests ++ next ∷ []) job
WasRead-append requests next job (front, back, e) =
    (front, back ++ next ∷ [], ap (◌++ next ∷ []) e ∙ append_assoc front (job ∷ back) (next ∷ []))

pub found-passes :
    (p : HttpConn → Bool) (conns : List HttpConn) (c : HttpConn)
    → find_conn p conns ≡ some c
    → p c ≡ true
unfolding find_conn
found-passes p [] c e = cc
found-passes p (x ∷ conns) c e =
    elim (p x) as (λ b. p x ≡ b → (if b then some x else find_conn p conns) ≡ some c → p c ≡ true) [
      | true ↦ λ passes e. let same : x ≡ c = cc in subst (λ (y : HttpConn). p y ≡ true) same passes
      | false ↦ λ fails e. found-passes p conns c e
    ]
      refl e

pub same_uuid : (m n : ℕ) → (m == n) ≡ true → m ≡ n
same_uuid m n e = ground (arith, e)

-- `Answers` says which JSON texts answer a request: the route, the url and the content.
module _ (Answers : Route → Text → Text → Text → Type 0) where
  -- The bytes are the response with such a text to a request that was read from this connection.
  abbrev pub IsAnswer : List Job → ResponsePdu → Type 0
  IsAnswer requests r =
      (job : Job) × (str_json : Text) × WasRead requests job
      × (job.conn_uuid ≡ r.conn_uuid)
      × Answers job.handler job.url job.content str_json
      × (r.resp_data ≡ format_response str_json)

  -- The handlers answer as they should.
  abbrev pub AreHandled : List ServerEvent → Type 0
  AreHandled [] = Unit
  AreHandled (readable chunks handle how reply ∷ events) =
      ((r : Route) (url content : Text) → Answers r url content (reply r url content))
      × AreHandled events
  AreHandled (answered job reply ∷ events) =
      ((r : Route) (url content : Text) → Answers r url content (reply r url content))
      × AreHandled events
  AreHandled (connects sock_handle tick ∷ events) = AreHandled events
  AreHandled (writable handle room ∷ events) = AreHandled events
  AreHandled (hangs_up handle ∷ events) = AreHandled events
  AreHandled (loops how ∷ events) = AreHandled events
  AreHandled (timers curr_tick ∷ events) = AreHandled events

  -- Where the requests that were read are `requests`: what was sent and what waits for the main thread
  -- answers one of them, and each task of the workers is one.
  pub record AreAnswered (requests : List Job) (s : Server) : Type 0 where
    pub same : s.requests ≡ requests
    pub sent : Each (IsAnswer requests) s.sends
    pub waiting : Each (IsAnswer requests) s.response_pdu_list
    pub given : Each (WasRead requests) s.jobs

  -- The same with the requests that the server has read
  abbrev pub IsAnswering : Server → Type 0
  IsAnswering s = AreAnswered s.requests s
