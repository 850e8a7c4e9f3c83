-- ===== src/Pdu/Buffer.antt =====
-- CSimpleBuffer (base/util_pdu.cc): bytes that are written at the end and read from the front.
use pic_bed.Prelude.{
  ℕ, zero, suc, ◌+◌, ◌-◌, ◌/◌, ◌%◌, ◌≤◌, ◌<◌, min, Bool, true, false, List, [], ◌∷◌, ◌++◌, ◌≡◌,
  refl, sym, ap, ◌∙◌, subst, take, drop, length, length-append, length-take, ltb, arith,
  if◌then◌else◌,
}

-- A sum of uint32_t.
abbrev wrap : ℕ → ℕ
wrap n = n % 4294967296

abbrev replicate : ℕ → ℕ → List ℕ
replicate zero c = []
replicate (suc n) c = c ∷ replicate n c

-- buf_ with the bytes that are allocated, alloc_size_ and write_offset_
pub record SimpleBuffer : Type 0 where
  pub buf : List ℕ
  pub alloc_size : ℕ
  pub write_offset : ℕ

-- The buffer that the constructor makes.
unfoldable pub simple_buffer : SimpleBuffer
simple_buffer = record { buf = []; alloc_size = 0; write_offset = 0 }

-- memcpy to `offset`
abbrev copy_to : ℕ → List ℕ → List ℕ → List ℕ
copy_to offset bytes buf = take offset buf ++ bytes ++ drop (offset + length bytes) buf

-- A size of 5/4.
abbrev grown : ℕ → ℕ
grown n = wrap (n + n / 4)

-- Extend; `junk` stands in the bytes that realloc adds. An allocation succeeds.
unfoldable pub extend : ℕ → ℕ → SimpleBuffer → SimpleBuffer
extend junk len s =
    let size = grown (wrap (s.write_offset + len)) in
    record {
      buf = take size (s.buf ++ replicate size junk);
      alloc_size = size;
      write_offset = s.write_offset;
    }

-- Write, behind the test of the space
unfoldable pub put : List ℕ → SimpleBuffer → SimpleBuffer
put bytes s = record {
  buf = copy_to s.write_offset bytes s.buf;
  alloc_size = s.alloc_size;
  write_offset = wrap (s.write_offset + length bytes);
}

-- Write of bytes (a NULL `buf`, which only moves the offset, is not modelled)
unfoldable pub write : ℕ → List ℕ → SimpleBuffer → SimpleBuffer
unfolding extend put
write junk bytes s = put bytes (
    if ltb s.alloc_size (wrap (s.write_offset + length bytes))
    then extend junk (length bytes) s
    else s)

-- Read: the bytes that are read, and the buffer
unfoldable pub read : ℕ → SimpleBuffer → List ℕ × SimpleBuffer
read len s =
    let n = min len s.write_offset in
    (
      take n s.buf,
      record {
        buf = take (s.write_offset - n) (drop n s.buf) ++ drop (s.write_offset - n) s.buf;
        alloc_size = s.alloc_size;
        write_offset = s.write_offset - n;
      },
    )

-- What is written and not yet read.
unfoldable pub contents : SimpleBuffer → List ℕ
contents s = take s.write_offset s.buf

-- The written bytes are within the allocated ones.
pub record IsBuffer (s : SimpleBuffer) : Type 0 where
  pub allocated : length s.buf ≡ s.alloc_size
  pub within : s.write_offset ≤ s.alloc_size

nought : (n : ℕ) → 0 ≡ 0 - suc n
nought n = omega arith

less_zero : (m : ℕ) → m - 0 ≡ m
less_zero m = omega arith

less_suc : (m n : ℕ) → suc m - suc n ≡ m - n
less_suc m n = omega arith

min_zero : (m : ℕ) → min 0 m ≡ 0
min_zero m = omega arith

zero_min : (n : ℕ) → min (suc n) 0 ≡ 0
zero_min n = omega arith

min-suc : (n m : ℕ) → min (suc n) (suc m) ≡ suc (min n m)
min-suc n m = omega arith

module _ {A : Type 0} where
  pub take-length : (xs ys : List A) (n : ℕ) → n ≡ length xs → take n (xs ++ ys) ≡ xs
  take-length [] ys n e = rw (e)
  take-length (x ∷ xs) ys n e = rw (e, take-length xs ys (length xs) refl)

  take_append : (n : ℕ) (xs ys : List A) → n ≤ length xs → take n (xs ++ ys) ≡ take n xs
  take_append zero xs ys h = refl
  take_append (suc n) [] ys h = absurd (omega arith)
  take_append (suc n) (x ∷ xs) ys h = ap (◌∷◌ x) (take_append n xs ys (omega arith))

  take-take : (n m : ℕ) (xs : List A) → n ≤ m → take n (take m xs) ≡ take n xs
  take-take zero m xs h = refl
  take-take (suc n) zero xs h = absurd (omega arith)
  take-take (suc n) (suc m) [] h = refl
  take-take (suc n) (suc m) (x ∷ xs) h = ap (◌∷◌ x) (take-take n m xs (omega arith))

  pub length-drop : (n : ℕ) (xs : List A) → length (drop n xs) ≡ length xs - n
  length-drop zero xs = omega arith
  length-drop (suc n) [] = omega arith
  length-drop (suc n) (x ∷ xs) = omega (arith, length-drop n xs)

  take_nil : (n : ℕ) (xs : List A) → xs ≡ [] → take n xs ≡ []
  take_nil zero xs e = refl
  take_nil (suc n) [] e = refl
  take_nil (suc n) (x ∷ xs) e = absurd (let q : length (x ∷ xs) ≡ 0 = ap length e in omega arith)

  take-drop : (m n : ℕ) (xs : List A) → take (m - n) (drop n xs) ≡ drop n (take m xs)
  take-drop m zero xs = ap (λ (k : ℕ). take k xs) (less_zero m)
  take-drop zero (suc n) xs = subst (λ (k : ℕ). take k (drop (suc n) xs) ≡ []) (nought n) refl
  take-drop (suc m) (suc n) [] = take_nil (suc m - suc n) [] refl
  take-drop (suc m) (suc n) (x ∷ xs) =
      ap (λ (k : ℕ). take k (drop n xs)) (less_suc m n) ∙ take-drop m n xs

  take-min : (n m : ℕ) (xs : List A) → take (min n m) xs ≡ take n (take m xs)
  take-min zero m xs = ap (λ (k : ℕ). take k xs) (min_zero m)
  take-min (suc n) zero xs = ap (λ (k : ℕ). take k xs) (zero_min n)
  take-min (suc n) (suc m) [] = take_nil (min (suc n) (suc m)) [] refl
  take-min (suc n) (suc m) (x ∷ xs) =
      ap (λ (k : ℕ). take k (x ∷ xs)) (min-suc n m) ∙ ap (◌∷◌ x) (take-min n m xs)

  drop_nil : (n : ℕ) (xs : List A) → xs ≡ [] → drop n xs ≡ []
  drop_nil zero xs e = e
  drop_nil (suc n) [] e = refl
  drop_nil (suc n) (x ∷ xs) e = absurd (let q : length (x ∷ xs) ≡ 0 = ap length e in omega arith)

  drop-min : (n m : ℕ) (xs : List A) → length xs ≡ m → drop (min n m) xs ≡ drop n xs
  drop-min zero m xs e = ap (λ (k : ℕ). drop k xs) (min_zero m)
  drop-min (suc n) m [] e = drop_nil (min (suc n) m) [] refl
  drop-min (suc n) zero (x ∷ xs) e = absurd (omega arith)
  drop-min (suc n) (suc m) (x ∷ xs) e =
      ap (λ (k : ℕ). drop k (x ∷ xs)) (min-suc n m) ∙ drop-min n m xs (omega arith)

length-replicate : (n c : ℕ) → length (replicate n c) ≡ n
length-replicate zero c = refl
length-replicate (suc n) c = ap suc (length-replicate n c)

-- The sizes that a write of `n` bytes needs are below 2 ^ 32.
abbrev pub Fits : ℕ → SimpleBuffer → Type 0
Fits n s = (s.write_offset + n) + (s.write_offset + n) / 4 < 4294967296

wrap_small : (n : ℕ) → n + n / 4 < 4294967296 → (wrap n ≡ n) × (grown (wrap n) ≡ n + n / 4)
wrap_small n h = (omega arith, omega arith)

pub extend-IsBuffer :
    (junk n : ℕ) (s : SimpleBuffer)
    → IsBuffer s
    → Fits n s
    → IsBuffer (extend junk n s)
      × (s.write_offset + n ≤ (extend junk n s).alloc_size)
      × (contents (extend junk n s) ≡ contents s)
unfolding extend contents
extend-IsBuffer junk n s h fits =
    let size : grown (wrap (s.write_offset + n)) ≡ (s.write_offset + n) + (s.write_offset + n) / 4 =
      (wrap_small (s.write_offset + n) fits).1 in
    (
      record {
        allocated = omega (
          arith,
          length-take (grown (wrap (s.write_offset + n)))
              (s.buf ++ replicate (grown (wrap (s.write_offset + n))) junk),
          length-append s.buf (replicate (grown (wrap (s.write_offset + n))) junk),
          length-replicate (grown (wrap (s.write_offset + n))) junk,
        );
        within = omega (arith, size);
      },
      omega (arith, size),
      take-take s.write_offset (grown (wrap (s.write_offset + n))) _ (omega (arith, size))
          ∙ take_append s.write_offset s.buf _ (omega (arith, h.allocated, h.within)),
    )

pub put-IsBuffer :
    (bytes : List ℕ) (s : SimpleBuffer)
    → IsBuffer s
    → s.write_offset + length bytes ≤ s.alloc_size
    → s.write_offset + length bytes < 4294967296
    → IsBuffer (put bytes s) × (contents (put bytes s) ≡ contents s ++ bytes)
unfolding put contents
put-IsBuffer bytes s h room small =
    let front : length (take s.write_offset s.buf) ≡ s.write_offset =
      omega (arith, length-take s.write_offset s.buf, h.allocated, h.within) in
    let rest = drop (s.write_offset + length bytes) s.buf in
    let plain : wrap (s.write_offset + length bytes) ≡ s.write_offset + length bytes =
      omega arith in
    (
      record {
        allocated = omega (
          arith,
          length-append (take s.write_offset s.buf ++ bytes) rest,
          length-append (take s.write_offset s.buf) bytes,
          length-drop (s.write_offset + length bytes) s.buf,
          front,
          h.allocated,
        );
        within = omega (arith, plain);
      },
      ap (λ (n : ℕ). take n (copy_to s.write_offset bytes s.buf)) plain
          ∙ take-length (take s.write_offset s.buf ++ bytes) rest (s.write_offset + length bytes)
              (omega (arith, length-append (take s.write_offset s.buf) bytes, front)),
    )

-- A write whose sizes are below 2 ^ 32 adds its bytes behind what was written, and stays within the
-- allocated bytes.
pub write-IsBuffer :
    (junk : ℕ) (bytes : List ℕ) (s : SimpleBuffer)
    → IsBuffer s
    → Fits (length bytes) s
    → IsBuffer (write junk bytes s) × (contents (write junk bytes s) ≡ contents s ++ bytes)
unfolding write
write-IsBuffer junk bytes s h fits =
    written (ltb s.alloc_size (wrap (s.write_offset + length bytes))) refl
  where
    written :
        (b : Bool)
        → ltb s.alloc_size (wrap (s.write_offset + length bytes)) ≡ b
        → IsBuffer (put bytes (if b then extend junk (length bytes) s else s))
          × (contents (put bytes (if b then extend junk (length bytes) s else s))
              ≡ contents s ++ bytes)
    written true e =
        let x = extend-IsBuffer junk (length bytes) s h fits in
        let p = put-IsBuffer bytes (extend junk (length bytes) s) x.0 x.1 (omega (arith, fits)) in
        (p.0, p.1 ∙ ap (λ (xs : List ℕ). xs ++ bytes) x.2)
    written false e =
        put-IsBuffer bytes s h (ground (arith, (wrap_small _ fits).0, e)) (omega (arith, fits))

-- A read takes the first bytes that were written, as many as there are, and leaves the others.
pub read-IsBuffer :
    (len : ℕ) (s : SimpleBuffer)
    → IsBuffer s
    → ((read len s).0 ≡ take len (contents s))
      × IsBuffer (read len s).1
      × (contents (read len s).1 ≡ drop len (contents s))
unfolding read contents
read-IsBuffer len s h =
    let n : ℕ = min len s.write_offset in
    let front = take (s.write_offset - n) (drop n s.buf) in
    let back = drop (s.write_offset - n) s.buf in
    let left : length front ≡ s.write_offset - n = omega (
      arith,
      length-take (s.write_offset - n) (drop n s.buf),
      length-drop n s.buf,
      h.allocated,
      h.within,
    ) in
    let whole : length (take s.write_offset s.buf) ≡ s.write_offset =
      omega (arith, length-take s.write_offset s.buf, h.allocated, h.within) in
    (
      take-min len s.write_offset s.buf,
      record {
        allocated = omega (
          arith,
          length-append front back,
          length-drop (s.write_offset - n) s.buf,
          left,
          h.allocated,
          h.within,
        );
        within = omega (arith, h.within);
      },
      take-length front back (s.write_offset - n) (sym left)
          ∙ take-drop s.write_offset n s.buf
          ∙ drop-min len s.write_offset (take s.write_offset s.buf) whole,
    )
