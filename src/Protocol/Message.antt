-- ===== src/Protocol/Message.antt =====
-- `Message` of pkg/protocol/messages.go with its frame: one byte of type, four of length, and the
-- payload. A reader is the bytes that are still to come before the end of the stream.
use gunnel.Prelude.{
  ℕ, ◌+◌, ◌-◌, ◌^◌, [], ◌∷◌, ◌++◌, Bytes, ltb, leb, if◌then◌else◌, length, take, drop,
}
use gunnel.Go.Slices.{Outcome, done, panicked, ◌>>=◌, at, slice_from, be_uint32, be_bytes, byte}

pub record Message : Type 0 where
  pub type : ℕ
  pub len : ℕ
  pub payload : Bytes

abbrev pub header_size : ℕ
header_size = 5

-- `lenUint32`
unfoldable pub len_uint32 : Bytes → Outcome ℕ
len_uint32 b = if ltb (2 ^ 32 - 1) (length b) then panicked else done (length b)

-- What `Message.Write` hands to the writer.
unfoldable pub write : Message → Bytes
write m = byte m.type ∷ be_bytes m.len ++ m.payload

-- The errors of `io.ReadFull` at the end of the stream.
pub data ReadError : Type 0 where
  eof unexpected_eof : ReadError

-- What a read gives: the number of bytes read, the result, and what the reader still holds.
pub data Reading {ℓ} (A : Type ℓ) : Type ℓ where
  got : ℕ → A → Bytes → Reading A
  failed : ℕ → ReadError → Reading A

-- `io.ReadFull(r, buf)` for a buffer of `n` bytes.
unfoldable pub read_full : ℕ → Bytes → Reading Bytes
read_full n r =
    if leb n (length r)
    then got n (take n r) (drop n r)
    else if ltb 0 (length r)
    then failed (length r) unexpected_eof
    else failed 0 eof

-- The payload, if any, once the header is read; `n` bytes were read before it.
unfoldable pub read_payload : ℕ → ℕ → ℕ → Bytes → Reading Message
read_payload n t len r =
    if ltb 0 len
    then elim (read_full len r) [
      | got k payload rest ↦ got (n + k) (record { type = t; len = len; payload = payload }) rest
      | failed k e ↦ failed (n + k) e
    ]
    else got n (record { type = t; len = len; payload = [] }) r

-- `ReadMessage`
unfoldable pub read_message : Bytes → Outcome (Reading Message)
read_message r = elim (read_full header_size r) [
  | got n header rest ↦ do
    t ← at header 0
    tail ← slice_from header 1
    len ← be_uint32 tail
    done (read_payload n t len rest)
  | failed n e ↦ done (failed n e)
]
