-- ===== src/Tests/Packets.antt =====
-- Buffers, streams and ids at concrete sizes.
use pic_bed.Prelude.{some, [], ◌∷◌, ◌++◌, take, drop, ◌≡◌, refl, arith}
use pic_bed.Pdu.Buffer.{
  SimpleBuffer, IsBuffer, contents, write, read, simple_buffer, write-IsBuffer, read-IsBuffer,
}
use pic_bed.Pdu.Bytes.{
  ByteStream, write_byte, read_byte, uint32_bytes, next_uint32, read_byte-write_byte,
  next_uint32-write_byte,
}
use pic_bed.Pdu.Url.{idtourl, urltoid, urltoid-idtourl}

simple_buffer-IsBuffer : IsBuffer simple_buffer
unfolding simple_buffer
simple_buffer-IsBuffer = record { allocated = refl; within = omega arith }

write-IsBuffer_example :
    IsBuffer (write 0 (7 ∷ 8 ∷ 9 ∷ []) simple_buffer)
    × (contents (write 0 (7 ∷ 8 ∷ 9 ∷ []) simple_buffer) ≡ contents simple_buffer ++ 7 ∷ 8 ∷ 9 ∷ [])
unfolding simple_buffer
write-IsBuffer_example =
    write-IsBuffer 0 (7 ∷ 8 ∷ 9 ∷ []) simple_buffer simple_buffer-IsBuffer (omega arith)

abbrev three : SimpleBuffer
three = record { buf = 7 ∷ 8 ∷ 9 ∷ 0 ∷ []; alloc_size = 4; write_offset = 3 }

read-IsBuffer_example :
    ((read 2 three).0 ≡ take 2 (contents three))
    × IsBuffer (read 2 three).1
    × (contents (read 2 three).1 ≡ drop 2 (contents three))
read-IsBuffer_example = read-IsBuffer 2 three (record { allocated = refl; within = omega arith })

abbrev stream : ByteStream
stream = record { buf = 0 ∷ 0 ∷ 0 ∷ 0 ∷ 0 ∷ 0 ∷ []; pos = 1 }

read_byte-write_byte_example :
    read_byte 2 (record (write_byte (5 ∷ 6 ∷ []) stream) { pos = 1 })
    ≡ some (5 ∷ 6 ∷ [], write_byte (5 ∷ 6 ∷ []) stream)
read_byte-write_byte_example = read_byte-write_byte (5 ∷ 6 ∷ []) stream (omega arith)

next_uint32-write_byte_example :
    next_uint32 (record (write_byte (uint32_bytes 70000) stream) { pos = 1 })
    ≡ some (70000, write_byte (uint32_bytes 70000) stream)
next_uint32-write_byte_example = next_uint32-write_byte 70000 stream (omega arith) (omega arith)

urltoid-idtourl_example : urltoid (idtourl 1234) ≡ 1234
urltoid-idtourl_example = urltoid-idtourl 1234 (omega arith)
