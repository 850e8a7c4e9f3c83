-- ===== src/Api/Upload/Body.antt =====
-- Where the fields of an upload stand in its body, and what a suffix is (ApiUpload, api/api_upload.cc,
-- and GetFileSuffix, base/common.cc).
use pic_bed.Prelude.{
  ℕ, ◌-◌, true, false, Option, none, some, [], ◌∷◌, ◌++◌, Text, codes, strstr, starts_with, take,
  drop, length, length-append, atoi, ◌≡◌, ◌≢◌, ◌⊎◌, inl, inr, refl, sym, ap, ◌==◌, arith,
  if◌then◌else◌, subst, Bool-cases,
}
use pic_bed.Act.{some_or_crash}
use pic_bed.Triple.{Triple, bind, pure_rule, leave_rule, need_rule, ignore_rule, given, after}
use pic_bed.Api.Codes.{resp_fail}
use pic_bed.Api.Suffix.{after_last_dot, or_dot, or_null, get_file_suffix, dotless}
use pic_bed.Api.Upload.{UploadRequest, found, value_below, read_field, read_request}

-- `s` is `pre` and then `rest`, which starts with the first `p` of `s`.
abbrev pub FirstAt : Text → Text → Text → Text → Type 0
FirstAt p s pre rest = (s ≡ pre ++ rest) × (strstr p pre ≡ none) × (starts_with p rest ≡ true)

-- `value` stands two lines below the start of `from`, up to the end of its line; `rest` follows it.
abbrev pub HasValue : Text → Text → Text → Type 0
HasValue from value rest =
    (head : Text) × (line : Text) × FirstAt (13 ∷ 10 ∷ []) from head line
    × FirstAt (13 ∷ 10 ∷ []) (drop 4 line) value rest

-- `value` is that of the first field with this name behind the end of a line; `rest` follows it.
abbrev pub HasField : Text → Text → Text → Text → Type 0
HasField name from value rest =
    (pre : Text) × (field : Text) × FirstAt (codes "name=\"" ++ name ++ codes "\"") (drop 2 from)
      pre field
    × HasValue field value rest

-- The body says this: the name of the file two lines below the first line, then the other fields, each
-- behind the one before.
pub record Says (body : Text) (r : UploadRequest) : Type 0 where
  pub boundary : Text
  pub lines : Text
  pub kind : Text
  pub size : Text
  pub after_name : Text
  pub after_kind : Text
  pub after_path : Text
  pub after_md5 : Text
  pub after_size : Text
  pub after_user : Text
  pub first_line : FirstAt (13 ∷ 10 ∷ []) body boundary lines
  pub says_name : HasValue (drop 2 lines) r.file_name after_name
  pub says_kind : HasField (codes "file_content_type") after_name kind after_kind
  pub says_path : HasField (codes "file_path") after_kind r.file_path after_path
  pub says_md5 : HasField (codes "file_md5") after_path r.file_md5 after_md5
  pub says_size : HasField (codes "file_size") after_md5 size after_size
  pub says_user : HasField (codes "user") after_size r.user after_user
  pub size_read : r.file_size ≡ atoi size

-- `suffix` is what follows the last dot of the name, or "null" where nothing does.
abbrev pub HasSuffix : Text → Text → Type 0
HasSuffix name suffix =
    ((front : Text) × (name ≡ front ++ b'.' ∷ suffix) × (dotless suffix ≡ true) × (suffix ≢ []))
    ⊎ ((suffix ≡ codes "null")
        × ((dotless name ≡ true) ⊎ ((front : Text) × (name ≡ front ++ b'.' ∷ []))))

abbrev LastDot : Option Text → Text → Type 0
LastDot none s = dotless s ≡ true
LastDot (some t) s = (front : Text) × (s ≡ front ++ b'.' ∷ t) × (dotless t ≡ true)

or_dot-LastDot : (c : ℕ) (s : Text) (o : Option Text) → LastDot o s → LastDot (or_dot c s o) (c ∷ s)
unfolding dotless
or_dot-LastDot c s (some t) (front, e, h) = (c ∷ front, ap (◌∷◌ c) e, h)
or_dot-LastDot c s none h = elim (Bool-cases (c == b'.')) [
  | inl dot ↦ let same : c ≡ b'.' = ground (arith, dot) in rw (dot, same) ([], refl, h)
  | inr other ↦ rw (other, other) h
]

after_last_dot-LastDot : (s : Text) → LastDot (after_last_dot s) s
unfolding after_last_dot dotless
after_last_dot-LastDot [] = refl
after_last_dot-LastDot (c ∷ s) = or_dot-LastDot c s (after_last_dot s) (after_last_dot-LastDot s)

or_null-HasSuffix : (name : Text) (o : Option Text) → LastDot o name → HasSuffix name (or_null o)
or_null-HasSuffix name none h = inr (refl, inl h)
or_null-HasSuffix name (some []) (front, e, h) = inr (refl, inr (front, e))
or_null-HasSuffix name (some (c ∷ t)) (front, e, h) = inl (front, e, h, λ e. cc)

pub get_file_suffix-HasSuffix : (name : Text) → HasSuffix name (get_file_suffix name)
unfolding get_file_suffix
get_file_suffix-HasSuffix name =
    or_null-HasSuffix name (after_last_dot name) (after_last_dot-LastDot name)

starts_with-append : (p s t : Text) → starts_with p s ≡ true → starts_with p (s ++ t) ≡ true
starts_with-append [] s t h = refl
starts_with-append (x ∷ p) [] t h = cc
starts_with-append (x ∷ p) (y ∷ s) t h = ground (arith, starts_with-append p s t)

none_earlier :
    (c : ℕ) (p : Text) (x : ℕ) (s pre rest : Text)
    → starts_with (c ∷ p) (x ∷ s) ≡ false
    → s ≡ pre ++ rest
    → strstr (c ∷ p) pre ≡ none
    → strstr (c ∷ p) (x ∷ pre) ≡ none
none_earlier c p x s pre rest later split before =
    elim (Bool-cases (starts_with (c ∷ p) (x ∷ pre))) [
      | inl here ↦
          let whole : starts_with (c ∷ p) (x ∷ s) ≡ true =
            subst (λ (t : Text). starts_with (c ∷ p) (x ∷ t) ≡ true) (sym split)
              (starts_with-append (c ∷ p) (x ∷ pre) rest here) in
          cc
      | inr other ↦ rw (other, before) refl
    ]

strstr-FirstAt :
    (c : ℕ) (p s rest : Text)
    → strstr (c ∷ p) s ≡ some rest
    → (pre : Text) × FirstAt (c ∷ p) s pre rest
strstr-FirstAt c p [] rest e = cc
strstr-FirstAt c p (x ∷ s) rest e =
    elim (starts_with (c ∷ p) (x ∷ s))
        as (λ b.
          starts_with (c ∷ p) (x ∷ s) ≡ b
          → (if b then some (x ∷ s) else strstr (c ∷ p) s) ≡ some rest
          → (pre : Text) × FirstAt (c ∷ p) (x ∷ s) pre rest) [
            | true ↦ λ here e.
                let same : x ∷ s ≡ rest = cc in
                ([], (same, refl, subst (λ (t : Text). starts_with (c ∷ p) t ≡ true) same here))
            | false ↦ λ later e.
                let (pre, (split, before, starts)) = strstr-FirstAt c p s rest e in
                (
                  x ∷ pre,
                  (ap (◌∷◌ x) split, none_earlier c p x s pre rest later split before, starts),
                )
          ]
      refl e

take-front : (a b : Text) → take (length (a ++ b) - length b) (a ++ b) ≡ a
take-front a b = let e = length-append a b in taken a b (length (a ++ b) - length b) (omega arith)
  where
    taken : (a b : Text) (n : ℕ) → n ≡ length a → take n (a ++ b) ≡ a
    taken [] b n e = rw e refl
    taken (x ∷ a) b n e = rw (e, taken a b (length a) refl) refl

-- The text up to what strstr finds
up_to :
    (c : ℕ) (p s rest : Text)
    → strstr (c ∷ p) s ≡ some rest
    → FirstAt (c ∷ p) s (take (length s - length rest) s) rest
up_to c p s rest e =
    let (pre, h) = strstr-FirstAt c p s rest e in
    let cut : take (length s - length rest) s ≡ pre =
      subst (λ (t : Text). take (length t - length rest) t ≡ pre) (sym h.0) (take-front pre rest) in
    subst (λ (t : Text). FirstAt (c ∷ p) s t rest) (sym cut) h

module _ {W S : Type 0} {view : W → S} {E : Option ℕ → S → Type 0} (crashes : (t : S) → E none t)
    (fails : (t : S) → E (some resp_fail) t) where
  module _ {P : S → Type 0} where
    some_rule : (o : Option Text) → Triple view P (some_or_crash o) (λ s t. (o ≡ some s) × P t) E
    unfolding some_or_crash
    some_rule none = record { run = λ w p. crashes (view w) }
    some_rule (some s) = record { run = λ w p. (refl, p) }

    found_rule : (o : Option Text) → Triple view P (found o) (λ s t. (o ≡ some s) × P t) E
    unfolding found
    found_rule none = leave_rule resp_fail λ t p. fails t
    found_rule (some s) = pure_rule s λ t p. (refl, p)

    value_below_rule :
        (from : Text) (size : ℕ)
        → Triple view P (value_below from size) (λ v t. HasValue from v.0 v.1 × P t) E
    unfolding value_below
    value_below_rule from size = bind (some_rule (strstr (13 ∷ 10 ∷ []) from)) λ line. given λ e.
        bind (need_rule _ λ t p. crashes t) λ _.
          bind (some_rule (strstr (13 ∷ 10 ∷ []) (drop 4 line))) λ rest. given λ f.
            bind (need_rule _ λ t p. crashes t) λ _. pure_rule _ λ t p. (
              (_, line, up_to 13 (10 ∷ []) from line e, up_to 13 (10 ∷ []) (drop 4 line) rest f),
              p,
            )

  read_field_rule :
      {P : S → Type 0} (name from : Text) (size : ℕ)
      → Triple view P (read_field name from size) (λ v t. HasField name from v.0 v.1 × P t) E
  unfolding read_field
  read_field_rule name from size =
      bind (found_rule (strstr (codes "name=\"" ++ name ++ codes "\"") (drop 2 from))) λ field.
        given λ e. after (value_below_rule field size) λ v t p. (
          (_, field, up_to 110 (codes "ame=\"" ++ name ++ codes "\"") (drop 2 from) field e, p.0),
          p.1,
        )

  pub read_request_rule :
      {P : S → Type 0} (body : Text)
      → Triple view P (read_request body) (λ r t. Says body r × P t) E
  unfolding read_request
  read_request_rule body = bind (found_rule (strstr (13 ∷ 10 ∷ []) body)) λ lines.
      given λ first_line. bind (need_rule _ λ t p. crashes t) λ _.
        bind (ignore_rule (after (found_rule _) λ s t p. p.1)) λ _.
          bind (value_below_rule (drop 2 lines) 128) λ name. given λ n.
            bind (read_field_rule (codes "file_content_type") name.1 128) λ kind. given λ k.
              bind (read_field_rule (codes "file_path") kind.1 128) λ path. given λ p.
                bind (read_field_rule (codes "file_md5") path.1 128) λ md5. given λ m.
                  bind (read_field_rule (codes "file_size") md5.1 32) λ size. given λ s.
                    bind (read_field_rule (codes "user") size.1 32) λ user. given λ u.
                      pure_rule _ λ t known. (
                        record {
                          boundary = _;
                          lines = lines;
                          kind = kind.0;
                          size = size.0;
                          after_name = name.1;
                          after_kind = kind.1;
                          after_path = path.1;
                          after_md5 = md5.1;
                          after_size = size.1;
                          after_user = user.1;
                          first_line = up_to 13 (10 ∷ []) body lines first_line;
                          says_name = n;
                          says_kind = k;
                          says_path = p;
                          says_md5 = m;
                          says_size = s;
                          says_user = u;
                          size_read = refl;
                        },
                        known,
                      )
