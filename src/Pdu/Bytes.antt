-- ===== src/Pdu/Bytes.antt =====
-- CByteStream over an array of bytes (base/util_pdu.cc): numbers in network order and strings with
-- their length in front.
use pic_bed.Prelude.{
  ℕ, ◌+◌, ◌*◌, ◌/◌, ◌%◌, ◌≤◌, ◌<◌, false, Option, none, some, List, [], ◌∷◌, ◌++◌, ◌≡◌, refl, sym,
  ap, ◌∙◌, append_assoc, subst, take, drop, length, length-append, length-take, ltb, arith,
  if◌then◌else◌,
}
use pic_bed.Pdu.Buffer.{take-length, length-drop}

-- buf_, whose length is len_, and pos_
pub record ByteStream : Type 0 where
  pub buf : List ℕ
  pub pos : ℕ

-- WriteUint32, and `<<` of an uint32_t: the four bytes
unfoldable pub uint32_bytes : ℕ → List ℕ
uint32_bytes v = (v / 16777216) % 256 ∷ (v / 65536) % 256 ∷ (v / 256) % 256 ∷ v % 256 ∷ []

-- ReadUint32
unfoldable pub read_uint32 : List ℕ → ℕ
read_uint32 (a ∷ b ∷ c ∷ d ∷ bytes) = (a * 16777216 + b * 65536 + c * 256 + d) % 4294967296
read_uint32 bytes = 0

-- WriteUint16, and `<<` of an uint16_t: the two bytes
unfoldable pub uint16_bytes : ℕ → List ℕ
uint16_bytes v = (v / 256) % 256 ∷ v % 256 ∷ []

-- ReadUint16
unfoldable pub read_uint16 : List ℕ → ℕ
read_uint16 (a ∷ b ∷ bytes) = (a * 256 + b) % 65536
read_uint16 bytes = 0

-- _WriteByte: bytes for which there is no room are dropped.
unfoldable pub write_byte : List ℕ → ByteStream → ByteStream
write_byte bytes s = if ltb (length s.buf) (s.pos + length bytes) then s else record {
  buf = take s.pos s.buf ++ bytes ++ drop (s.pos + length bytes) s.buf;
  pos = s.pos + length bytes;
}

-- _ReadByte; none for the CPduException
unfoldable pub read_byte : ℕ → ByteStream → Option (List ℕ × ByteStream)
read_byte len s =
    if ltb (length s.buf) (s.pos + len)
    then none
    else some (take len (drop s.pos s.buf), record { buf = s.buf; pos = s.pos + len })

abbrev as_uint32 : Option (List ℕ × ByteStream) → Option (ℕ × ByteStream)
unfolding read_uint32
as_uint32 none = none
as_uint32 (some (bytes, s)) = some (read_uint32 bytes, s)

-- `>>` of an uint32_t
unfoldable pub next_uint32 : ByteStream → Option (ℕ × ByteStream)
unfolding read_byte as_uint32
next_uint32 s = as_uint32 (read_byte 4 s)

-- WriteString and WriteData with a length
unfoldable pub write_string : List ℕ → ByteStream → ByteStream
unfolding write_byte uint32_bytes
write_string str s = write_byte str (write_byte (uint32_bytes (length str)) s)

-- A 32-bit number is read as it was written.
pub read_uint32-uint32_bytes : (v : ℕ) → v < 4294967296 → read_uint32 (uint32_bytes v) ≡ v
unfolding read_uint32 uint32_bytes
read_uint32-uint32_bytes v h = omega arith

pub read_uint16-uint16_bytes : (v : ℕ) → v < 65536 → read_uint16 (uint16_bytes v) ≡ v
unfolding read_uint16 uint16_bytes
read_uint16-uint16_bytes v h = omega arith

drop-length : {A : Type 0} (xs ys : List A) (n : ℕ) → n ≡ length xs → drop n (xs ++ ys) ≡ ys
drop-length [] ys n e = rw (e)
drop-length (x ∷ xs) ys n e = rw (e, drop-length xs ys (length xs) refl)

-- Back at an earlier position.
abbrev at : ℕ → ByteStream → ByteStream
at n s = record s { pos = n }

no_less : (a b : ℕ) → b ≤ a → ltb a b ≡ false
no_less a b h = ground arith

-- What a write with room leaves.
abbrev placed : List ℕ → ByteStream → ByteStream
placed bytes s = record {
  buf = take s.pos s.buf ++ bytes ++ drop (s.pos + length bytes) s.buf;
  pos = s.pos + length bytes;
}

write_byte-placed :
    (bytes : List ℕ) (s : ByteStream)
    → s.pos + length bytes ≤ length s.buf
    → write_byte bytes s ≡ placed bytes s
unfolding write_byte
write_byte-placed bytes s room = rw (no_less (length s.buf) (s.pos + length bytes) room)

front :
    (bytes : List ℕ) (s : ByteStream)
    → s.pos + length bytes ≤ length s.buf
    → length (take s.pos s.buf) ≡ s.pos
front bytes s room = omega (arith, length-take s.pos s.buf)

length-placed :
    (bytes : List ℕ) (s : ByteStream)
    → s.pos + length bytes ≤ length s.buf
    → length (placed bytes s).buf ≡ length s.buf
length-placed bytes s room = omega (
  arith,
  length-append (take s.pos s.buf ++ bytes) (drop (s.pos + length bytes) s.buf),
  length-append (take s.pos s.buf) bytes,
  length-drop (s.pos + length bytes) s.buf,
  front bytes s room,
)

found_again :
    (bytes : List ℕ) (s : ByteStream)
    → s.pos + length bytes ≤ length s.buf
    → take (length bytes) (drop s.pos (placed bytes s).buf) ≡ bytes
found_again bytes s room =
    let rest = drop (s.pos + length bytes) s.buf in
    ap (λ (xs : List ℕ). take (length bytes) (drop s.pos xs))
      (append_assoc (take s.pos s.buf) bytes rest)
    ∙ ap (take (length bytes))
        (drop-length (take s.pos s.buf) (bytes ++ rest) s.pos (sym (front bytes s room)))
    ∙ take-length bytes rest (length bytes) refl

-- Bytes that are written where there is room are read from where they were written.
pub read_byte-write_byte :
    (bytes : List ℕ) (s : ByteStream)
    → s.pos + length bytes ≤ length s.buf
    → read_byte (length bytes) (at s.pos (write_byte bytes s)) ≡ some (bytes, write_byte bytes s)
unfolding read_byte
read_byte-write_byte bytes s room = rw (
  write_byte-placed bytes s room,
  no_less (length (placed bytes s).buf) (s.pos + length bytes)
      (subst (λ (n : ℕ). s.pos + length bytes ≤ n) (sym (length-placed bytes s room)) room),
  found_again bytes s room,
)

-- A 32-bit number that is written where there is room is read as it was written.
pub next_uint32-write_byte :
    (v : ℕ) (s : ByteStream)
    → v < 4294967296
    → s.pos + 4 ≤ length s.buf
    → next_uint32 (at s.pos (write_byte (uint32_bytes v) s))
      ≡ some (v, write_byte (uint32_bytes v) s)
unfolding next_uint32 uint32_bytes as_uint32
next_uint32-write_byte v s small room =
    ap as_uint32 (read_byte-write_byte (uint32_bytes v) s room)
    ∙ ap (λ (n : ℕ). some (n, write_byte (uint32_bytes v) s)) (read_uint32-uint32_bytes v small)
