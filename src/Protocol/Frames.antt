-- ===== src/Protocol/Frames.antt =====
-- Frames: what `Message.Write` writes, `ReadMessage` reads back, and what it does with any input.
use gunnel.Prelude.{
  ℕ, zero, suc, ◌+◌, ◌*◌, ◌^◌, ◌<◌, ◌≡◌, refl, ap, subst, arith, [], ◌∷◌, ◌++◌, Bytes, IsByte, All,
  length, take, drop, length-append, append_assoc, if◌then◌else◌, ◌==◌, ◌||◌, take-append-drop, ◌⊎◌,
  inl, inr, length-take,
}
use native.Mathlib.Decide.{dec_le}
use gunnel.Go.Slices.{Outcome, done, at, slice_from, be_uint32, be_bytes, byte}
use gunnel.Go.Cursor.{take-append, drop-append}
use gunnel.Protocol.Message.{
  Message, Reading, got, failed, eof, unexpected_eof, write, read_full, read_payload, read_message,
}

-- A message as the program builds it: the type is a byte, the length is the payload's.
pub record IsFramed (m : Message) : Type 0 where
  pub type_byte : IsByte m.type
  pub counted : m.len ≡ length m.payload
  pub fits : m.len < 2 ^ 32

read_full-append : (xs r : Bytes) (n : ℕ) → n ≡ length xs → read_full n (xs ++ r) ≡ got n xs r
unfolding read_full
read_full-append xs r n e =
    rw e (ground (arith, length-append xs r, take-append xs r, drop-append xs r))

-- The three reads of `ReadMessage` in a header.
at_header : (t : ℕ) (r : Bytes) → at (t ∷ r) 0 ≡ done t
unfolding at
at_header t r = refl

slice_from_header : (t : ℕ) (r : Bytes) → slice_from (t ∷ r) 1 ≡ done r
unfolding slice_from
slice_from_header t r = ground arith

be_uint32-be_bytes_self : (n : ℕ) → n < 2 ^ 32 → be_uint32 (be_bytes n) ≡ done n
unfolding be_uint32 be_bytes
be_uint32-be_bytes_self n h = ap done (omega arith)

-- With a header in front, only the payload is left to read.
read_message_header :
    (t n : ℕ) (r : Bytes)
    → n < 2 ^ 32
    → read_message (t ∷ be_bytes n ++ r) ≡ done (read_payload 5 t n r)
unfolding read_message
read_message_header t n r h =
    rw (read_full-append (t ∷ be_bytes n) r 5 (unfold be_bytes in refl), read_message)
      (rw (at_header t (be_bytes n), slice_from_header t (be_bytes n))
        (rw (be_uint32-be_bytes_self n h)))

read_payload-append :
    (k t n : ℕ) (p r : Bytes)
    → n ≡ length p
    → read_payload k t n (p ++ r) ≡ got (k + n) (record { type = t; len = n; payload = p }) r
unfolding read_payload
read_payload-append k t zero [] r e = ground arith
read_payload-append k t zero (x ∷ p) r e = absurd (omega arith)
read_payload-append k t (suc n) p r e = ground (arith, read_full-append p r (suc n) e)

-- `ReadMessage` reads back the message that `Message.Write` wrote, counts its bytes, and leaves
-- whatever follows the frame.
pub read_message-write :
    (m : Message) (rest : Bytes)
    → IsFramed m
    → read_message (write m ++ rest) ≡ done (got (5 + m.len) m rest)
unfolding write
read_message-write m rest f =
    let t : byte m.type ≡ m.type = omega arith in
    rw (t, append_assoc (be_bytes m.len) m.payload rest)
      (rw (read_message_header m.type m.len (m.payload ++ rest) f.fits)
        (ap done (read_payload-append 5 m.type m.len m.payload rest f.counted)))

-- The other way round: four bytes are the big-endian form of the number that they stand for.
be_value : ℕ → ℕ → ℕ → ℕ → ℕ
be_value a b c d = a * 2 ^ 24 + b * 2 ^ 16 + c * 2 ^ 8 + d

be_bytes-be_value :
    (a b c d : ℕ)
    → IsByte a
    → IsByte b
    → IsByte c
    → IsByte d
    → (be_bytes (be_value a b c d) ≡ a ∷ b ∷ c ∷ d ∷ []) × (be_value a b c d < 2 ^ 32)
unfolding be_bytes be_value
be_bytes-be_value a b c d ha hb hc hd = (ground arith, omega arith)

-- What `ReadMessage` may do with `r`: take one frame off its front, or find the stream at its end.
-- The end is a clean one for the caller exactly if it stands before a header or right behind one.
abbrev pub Reads : Bytes → Outcome (Reading Message) → Type 0
Reads r o =
    ((m : Message) × (rest : Bytes) × IsFramed m
      × (r ≡ write m ++ rest)
      × (o ≡ done (got (5 + m.len) m rest)))
    ⊎ (o
        ≡ done (failed (length r) (if length r == 0 || length r == 5 then eof else unexpected_eof)))

Reads-whole :
    (t v : ℕ) (p rest : Bytes)
    → IsByte t
    → v < 2 ^ 32
    → v ≡ length p
    → Reads (t ∷ be_bytes v ++ (p ++ rest)) (done (read_payload 5 t v (p ++ rest)))
unfolding write
Reads-whole t v p rest ht hv e = inl (
  record { type = t; len = v; payload = p },
  rest,
  record { type_byte = ht; counted = e; fits = hv },
  (let b : byte t ≡ t = omega arith in rw (b, append_assoc (be_bytes v) p rest)),
  ap done (read_payload-append 5 t v p rest e),
)

read_full_short :
    (n : ℕ) (r : Bytes)
    → length r < n
    → read_full n r ≡ failed (length r) (if length r == 0 then eof else unexpected_eof)
unfolding read_full
read_full_short n r h = ground arith

read_payload_short :
    (t v : ℕ) (r : Bytes)
    → length r < v
    → read_payload 5 t v r ≡ failed (5 + length r) (if length r == 0 then eof else unexpected_eof)
unfolding read_payload
read_payload_short t v r h = ground (arith, read_full_short v r h)

length-be_bytes : (v : ℕ) (r : Bytes) → length (be_bytes v ++ r) ≡ 4 + length r
unfolding be_bytes
length-be_bytes v r = omega arith

read_payload_cases :
    (t v : ℕ) (r : Bytes)
    → IsByte t
    → v < 2 ^ 32
    → Reads (t ∷ be_bytes v ++ r) (done (read_payload 5 t v r))
read_payload_cases t v r ht hv = elim (dec_le v (length r)) [
  | yes h ↦
      subst (λ x. Reads (t ∷ be_bytes v ++ x) (done (read_payload 5 t v x))) (take-append-drop v r)
        (Reads-whole t v (take v r) (drop v r) ht hv (omega (arith, length-take v r)))
  | no h ↦
      inr (ap done (ground (arith, read_payload_short t v r (omega arith), length-be_bytes v r)))
]

read_message_short :
    (r : Bytes)
    → length r < 5
    → read_message r ≡ done (failed (length r) (if length r == 0 then eof else unexpected_eof))
unfolding read_message
read_message_short r h = rw (read_full_short 5 r h, read_message) refl

Reads-short : (r : Bytes) → length r < 5 → Reads r (read_message r)
Reads-short r h = inr (rw (read_message_short r h) (ground arith))

Reads-header :
    (t a b c d : ℕ) (r : Bytes)
    → IsByte t
    → (be_bytes (be_value a b c d) ≡ a ∷ b ∷ c ∷ d ∷ []) × (be_value a b c d < 2 ^ 32)
    → Reads (t ∷ a ∷ b ∷ c ∷ d ∷ r) (read_message (t ∷ a ∷ b ∷ c ∷ d ∷ r))
Reads-header t a b c d r ht (e, lt) =
    let v = be_value a b c d in
    subst (λ x. Reads (t ∷ x ++ r) (read_message (t ∷ x ++ r))) e
      (rw (read_message_header t v r lt) (read_payload_cases t v r ht lt))

-- On any bytes `ReadMessage` returns, and never panics: it takes exactly one frame, the one that
-- `Message.Write` writes for the message it returns, or it reports the end of the stream.
pub read_message_cases : (r : Bytes) → All IsByte r → Reads r (read_message r)
read_message_cases (t ∷ a ∷ b ∷ c ∷ d ∷ r) (ht, (ha, (hb, (hc, (hd, h))))) =
    Reads-header t a b c d r ht (be_bytes-be_value a b c d ha hb hc hd)
read_message_cases [] h = Reads-short [] (omega arith)
read_message_cases (t ∷ []) h = Reads-short _ (omega arith)
read_message_cases (t ∷ a ∷ []) h = Reads-short _ (omega arith)
read_message_cases (t ∷ a ∷ b ∷ []) h = Reads-short _ (omega arith)
read_message_cases (t ∷ a ∷ b ∷ c ∷ []) h = Reads-short _ (omega arith)
