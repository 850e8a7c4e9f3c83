-- ===== src/Http/Route.antt =====
-- Which handler a url goes to (CHttpConn::OnRead, http_conn.cc).
use pic_bed.Prelude.{
  nth?, ℕ, zero, suc, ◌+◌, ◌↔◌, Bool, true, false, not, ◌&&◌, ◌||◌, some, List, [], ◌∷◌, Text,
  codes, starts_with, take, ◌==◌, ◌≡◌, refl, sym, ap, ◌∙◌, arith, if◌then◌else◌,
}

pub data Route : Type 0 where
  register login myfiles sharefiles dealfile dealsharefile sharepicture md5 upload : Route
  unknown : Route

-- One `strncmp(url.c_str(), name, size) == 0`, and where it leads
pub record Rule : Type 0 where
  pub name : Text
  pub size : ℕ
  pub handler : Route

abbrev pub rule : Text → ℕ → Route → Rule
rule name size handler = record { name = name; size = size; handler = handler }

-- The tests in their order
abbrev pub rules : List Rule
rules =
    rule (codes "/api/reg") 8 register
    ∷ rule (codes "/api/login") 10 login
    ∷ rule (codes "/api/myfiles") 10 myfiles
    ∷ rule (codes "/api/sharefiles") 15 sharefiles
    ∷ rule (codes "/api/dealfile") 13 dealfile
    ∷ rule (codes "/api/dealsharefile") 18 dealsharefile
    ∷ rule (codes "/api/sharepic") 13 sharepicture
    ∷ rule (codes "/api/md5") 8 md5
    ∷ rule (codes "/api/upload") 11 upload
    ∷ []

-- strncmp looks at `size` characters, as far as the name has them.
abbrev pub matches : Rule → Text → Bool
matches r url = starts_with (take r.size r.name) url

unfoldable pub first_route : List Rule → Text → Route
first_route [] url = unknown
first_route (r ∷ rs) url =
    let rest = first_route rs url in if matches r url then r.handler else rest

unfoldable pub route : Text → Route
unfolding first_route
route url = first_route rules url

-- Two texts that differ where both have a character: no url begins with both.
abbrev differ : Text → Text → Bool
differ [] ys = false
differ (x ∷ xs) [] = false
differ (x ∷ xs) (y ∷ ys) = not (x == y) || differ xs ys

differ-starts_with :
    (p q url : Text) → differ p q ≡ true → starts_with p url ≡ true → starts_with q url ≡ false
differ-starts_with [] q url d h = cc
differ-starts_with (x ∷ p) [] url d h = cc
differ-starts_with (x ∷ p) (y ∷ q) [] d h = refl
differ-starts_with (x ∷ p) (y ∷ q) (c ∷ url) d h = ground (arith, differ-starts_with p q url)

abbrev all_differ : Rule → List Rule → Bool
all_differ r [] = true
all_differ r (s ∷ rs) = differ (take s.size s.name) (take r.size r.name) && all_differ r rs

abbrev are_apart : List Rule → Bool
are_apart [] = true
are_apart (r ∷ rs) = all_differ r rs && are_apart rs

first_fails :
    (i : ℕ) (r s : Rule) (rs : List Rule) (url : Text)
    → all_differ r rs ≡ true
    → nth? i rs ≡ some s
    → matches s url ≡ true
    → matches r url ≡ false
first_fails i r s [] url d e h = cc
first_fails zero r s (x ∷ rs) url d e h =
    let same : s ≡ x = cc in
    differ-starts_with (take x.size x.name) (take r.size r.name) url (ground arith)
      (ap (λ (y : Rule). matches y url) (sym same) ∙ h)
first_fails (suc i) r s (x ∷ rs) url d e h = first_fails i r s rs url (ground arith) e h

-- Where no two rules can match the same url, the rule that matches is the one that is taken.
first_route-matches :
    (i : ℕ) (r : Rule) (rs : List Rule) (url : Text)
    → are_apart rs ≡ true
    → nth? i rs ≡ some r
    → matches r url ≡ true
    → first_route rs url ≡ r.handler
unfolding first_route
first_route-matches i r [] url a e h = cc
first_route-matches zero r (x ∷ rs) url a e h =
    let same : x ≡ r = cc in
    let m : matches x url ≡ true = ap (λ (y : Rule). matches y url) same ∙ h in
    rw m (ap (λ (y : Rule). y.handler) same)
first_route-matches (suc i) r (x ∷ rs) url a e h =
    let m : matches x url ≡ false = first_fails i x r rs url (ground arith) e h in
    rw m (first_route-matches i r rs url (ground arith) e h)

-- The rule that is taken matches.
record Taken (rs : List Rule) (url : Text) (handler : Route) : Type 0 where
  index : ℕ
  taken : Rule
  found : nth? index rs ≡ some taken
  fits : matches taken url ≡ true
  leads : taken.handler ≡ handler

is_unknown : Route → Bool
is_unknown unknown = true
is_unknown other = false

first_route-Taken :
    (rs : List Rule) (url : Text)
    → is_unknown (first_route rs url) ≡ false
    → Taken rs url (first_route rs url)
unfolding first_route is_unknown
first_route-Taken [] url h = cc
first_route-Taken (x ∷ rs) url h =
    elim (matches x url)
        as (λ b.
          matches x url ≡ b
          → is_unknown (if b then x.handler else first_route rs url) ≡ false
          → Taken (x ∷ rs) url (if b then x.handler else first_route rs url)) [
            | true ↦ λ m h. record { index = 0; taken = x; found = refl; fits = m; leads = refl }
            | false ↦ λ m h.
                let t = first_route-Taken rs url h in
                record {
                  index = suc t.index;
                  taken = t.taken;
                  found = t.found;
                  fits = t.fits;
                  leads = t.leads;
                }
          ]
      refl h

-- The place of each handler's rule
number : Route → ℕ
number register = 0
number login = 1
number myfiles = 2
number sharefiles = 3
number dealfile = 4
number dealsharefile = 5
number sharepicture = 6
number md5 = 7
number upload = 8
number unknown = 9

are_numbered : ℕ → List Rule → Bool
are_numbered k [] = true
are_numbered k (r ∷ rs) =
    number r.handler == k && not (is_unknown r.handler) && are_numbered (suc k) rs

nth-number :
    (k i : ℕ) (r : Rule) (rs : List Rule)
    → are_numbered k rs ≡ true
    → nth? i rs ≡ some r
    → (number r.handler ≡ k + i) × (is_unknown r.handler ≡ false)
unfolding are_numbered
nth-number k i r [] n e = cc
nth-number k zero r (x ∷ rs) n e =
    let same : x ≡ r = cc in
    ground (
      arith,
      same,
      ap (λ (y : Rule). number y.handler) same,
      ap (λ (y : Rule). is_unknown y.handler) same,
    )
nth-number k (suc i) r (x ∷ rs) n e =
    let h = nth-number (suc k) i r rs (ground arith) e in (omega (arith, h.0), h.1)

apart : are_apart rules ≡ true
apart = refl

numbered : are_numbered 0 rules ≡ true
unfolding are_numbered number is_unknown
numbered = refl

-- A url goes to the handler of a rule exactly where the rule matches it: no rule hides another one
-- that stands behind it.
pub route_iff :
    (i : ℕ) (r : Rule) (url : Text)
    → nth? i rules ≡ some r
    → (matches r url ≡ true) ↔ (route url ≡ r.handler)
unfolding route
route_iff i r url e = (λ m. first_route-matches i r rules url apart e m, back)
  where
    back : first_route rules url ≡ r.handler → matches r url ≡ true
    back h =
        let (place, known) = nth-number 0 i r rules numbered e in
        let t = first_route-Taken rules url (ap is_unknown h ∙ known) in
        let (there, _) = nth-number 0 t.index t.taken rules numbered t.found in
        let at : t.index ≡ i = omega (arith, place, there, ap number (t.leads ∙ h)) in
        let same : some t.taken ≡ some r = sym t.found ∙ ap (λ (k : ℕ). nth? k rules) at ∙ e in
        let one : t.taken ≡ r = cc in ap (λ (x : Rule). matches x url) (sym one) ∙ t.fits
