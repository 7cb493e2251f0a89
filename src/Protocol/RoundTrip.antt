-- ===== src/Protocol/RoundTrip.antt =====
-- What arrives of a message that is sent.
use gunnel.Prelude.{
  ℕ, suc, ◌+◌, ◌%◌, ◌^◌, ◌<◌, ◌≤◌, ◌≡◌, refl, arith, [], ◌∷◌, ◌++◌, Bytes, IsByte, length, take,
  drop, length-take, take-append-drop, subst, append-nil,
}
use gunnel.Go.Slices.{done, ◌>>=◌, slice, be_bytes, byte}
use gunnel.Go.Cursor.{
  slice_from-Rest, be_uint32-be_bytes, Rest, Rest-zero, Rest-suc, Rest-add_four, at-Rest,
  slice-Rest,
}
use gunnel.Protocol.Message.{Message, got, len_uint32}
use gunnel.Protocol.Frames.{IsFramed, read_message-write}
use gunnel.Protocol.Text.{short_text, long_text, message_of, read_short, read_long}
use gunnel.Protocol.Enum.{
  message_disconnect, message_heartbeat, message_error, message_begin_stream, message_end_stream,
  message_connection_ready,
}
use gunnel.Protocol.Text.{
  close_marshal, close_unmarshal, heartbeat_marshal, heartbeat_unmarshal, error_marshal,
  error_unmarshal, begin_marshal, begin_unmarshal, end_marshal, end_unmarshal, ready_marshal,
  ready_unmarshal,
}
use gunnel.Protocol.Text.{
  CloseConnection, Heartbeat, ErrorMessage, BeginConnection, EndConnection, ConnectionReady,
}
use gunnel.Protocol.Parsable.{
  close_parsable, heartbeat_parsable, error_parsable, begin_parsable, end_parsable, ready_parsable,
  Parsable, unmarshal, send, receive, exchange,
}

pub len_uint32-length : (s : Bytes) → length s < 2 ^ 32 → len_uint32 s ≡ done (length s)
unfolding len_uint32
len_uint32-length s h = ground arith

pub message_of-done :
    (t : ℕ) (s : Bytes)
    → length s < 2 ^ 32
    → message_of t s ≡ done (record { type = t; len = length s; payload = s })
unfolding message_of
message_of-done t s h = rw (len_uint32-length s h)

-- A message whose payload is read back as `n` arrives as `n`.
pub exchange_framed :
    {M : Type 0} ⦃p : Parsable M⦄ (m dst n : M) (w : Message) (rest : Bytes)
    → p.marshal m ≡ done w
    → IsFramed w
    → p.unmarshal dst w.payload ≡ done n
    → exchange m dst rest ≡ done (got (5 + w.len) n rest)
unfolding exchange send receive unmarshal
exchange_framed m dst n w rest e f u = rw e (rw (read_message-write w rest f) (rw u))

slice_behind_byte :
    (b n : ℕ) (s : Bytes) → n ≤ length s → slice (b ∷ s) (0 + 1) (0 + 1 + n) ≡ done (take n s)
slice_behind_byte b n s h =
    let e : length (take n s) ≡ n = omega (arith, length-take n s) in
    subst (λ k. slice (b ∷ s) (0 + 1) (0 + 1 + k) ≡ done (take n s)) e
      (slice-Rest (take n s) (drop n s) (rw (take-append-drop n s) (Rest-suc (Rest-zero (b ∷ s)))))

pub read_short-short_text :
    (s : Bytes) → read_short (short_text s) ≡ done (take (byte (length s)) s)
unfolding read_short short_text
read_short-short_text s =
    rw (at-Rest (Rest-zero (byte (length s) ∷ s)))
      (slice_behind_byte (byte (length s)) (byte (length s)) s (omega arith))

long_text-done : (s : Bytes) → length s < 2 ^ 32 → long_text s ≡ done (be_bytes (length s) ++ s)
unfolding long_text
long_text-done s h = rw (len_uint32-length s h)

read_long-be_bytes : (s : Bytes) → length s < 2 ^ 32 → read_long (be_bytes (length s) ++ s) ≡ done s
unfolding read_long
read_long-be_bytes s h =
    let p = be_bytes (length s) ++ s in
    let start = Rest-zero p in
    let behind : Rest p (0 + 4) (s ++ []) = rw append-nil (Rest-add_four (length s) start) in
    rw (slice_from-Rest start) (rw (be_uint32-be_bytes (length s) s h) (slice-Rest s [] behind))

-- Short texts: the length byte keeps the length modulo 256, so what arrives is the text cut there.
short-IsFramed :
    (t : ℕ) (s : Bytes)
    → IsByte t
    → length s + 1 < 2 ^ 32
    → (w : Message) × (message_of t (short_text s) ≡ done w)
      × IsFramed w
      × (w.payload ≡ short_text s)
      × (w.len ≡ length s + 1)
unfolding short_text
short-IsFramed t s ht h = (
  record { type = t; len = suc (length s); payload = short_text s },
  message_of-done t (short_text s) (omega arith),
  record { type_byte = ht; counted = refl; fits = omega arith },
  refl,
  omega arith,
)

long-IsFramed :
    (t : ℕ) (s : Bytes)
    → IsByte t
    → length s + 4 < 2 ^ 32
    → (w : Message) × ((long_text s >>= message_of t) ≡ done w)
      × IsFramed w
      × (w.payload ≡ be_bytes (length s) ++ s)
      × (w.len ≡ length s + 4)
long-IsFramed t s ht h =
    let n : length (be_bytes (length s) ++ s) ≡ length s + 4 = unfold be_bytes in omega arith in
    (
      record {
        type = t;
        len = length (be_bytes (length s) ++ s);
        payload = be_bytes (length s) ++ s;
      },
      rw (long_text-done s (omega arith)) (message_of-done t _ (omega arith)),
      record { type_byte = ht; counted = refl; fits = omega arith },
      refl,
      n,
    )

-- The text that arrives for a short text `s`.
abbrev pub cut : Bytes → Bytes
cut s = take (length s % 256) s

module _ (s rest : Bytes) (h : length s + 1 < 2 ^ 32) where
  exchange-close :
      (dst : CloseConnection)
      → exchange (record { reason = s }) dst rest
        ≡ done (got (length s + 6) (record { reason = cut s }) rest)
  exchange-close dst =
      let (w, e, f, p, n) = short-IsFramed message_disconnect s (omega arith) h in
      let count : length s + 6 ≡ 5 + w.len = omega arith in
      rw count (
        exchange_framed (record { reason = s }) dst (record { reason = cut s }) w rest
          (unfold close_marshal in e) f (unfold close_unmarshal in rw (p, read_short-short_text s)))

  exchange-heartbeat :
      (dst : Heartbeat)
      → exchange (record { message = s }) dst rest
        ≡ done (got (length s + 6) (record { message = cut s }) rest)
  exchange-heartbeat dst =
      let (w, e, f, p, n) = short-IsFramed message_heartbeat s (omega arith) h in
      let count : length s + 6 ≡ 5 + w.len = omega arith in
      rw count (
        exchange_framed (record { message = s }) dst (record { message = cut s }) w rest
          (unfold heartbeat_marshal in e) f
          (unfold heartbeat_unmarshal in rw (p, read_short-short_text s)))

  exchange-error :
      (dst : ErrorMessage)
      → exchange (record { message = s }) dst rest
        ≡ done (got (length s + 6) (record { message = cut s }) rest)
  exchange-error dst =
      let (w, e, f, p, n) = short-IsFramed message_error s (omega arith) h in
      let count : length s + 6 ≡ 5 + w.len = omega arith in
      rw count (
        exchange_framed (record { message = s }) dst (record { message = cut s }) w rest
          (unfold error_marshal in e) f (unfold error_unmarshal in rw (p, read_short-short_text s)))

-- A `CloseConnection`, `Heartbeat` or `ErrorMessage` with a text `s` of fewer than 2 ^ 32 - 1 bytes
-- is sent without a panic, and is received, into any receiver, from a stream that goes on with
-- `rest`: as its first (length of s mod 256) bytes, so whole exactly below 256, with `rest` left.
pub exchange_short :
    (s rest : Bytes) (c : CloseConnection) (b : Heartbeat) (e : ErrorMessage)
    → length s + 1 < 2 ^ 32
    → (exchange (record { reason = s }) c rest
        ≡ done (got (length s + 6) (record { reason = cut s }) rest))
      × (exchange (record { message = s }) b rest
          ≡ done (got (length s + 6) (record { message = cut s }) rest))
      × (exchange (record { message = s }) e rest
          ≡ done (got (length s + 6) (record { message = cut s }) rest))
exchange_short s rest c b e h =
    (exchange-close s rest h c, exchange-heartbeat s rest h b, exchange-error s rest h e)

module _ (s rest : Bytes) (h : length s + 4 < 2 ^ 32) where
  exchange-begin :
      (dst : BeginConnection)
      → exchange (record { subdomain = s }) dst rest
        ≡ done (got (length s + 9) (record { subdomain = s }) rest)
  exchange-begin dst =
      let (w, e, f, p, n) = long-IsFramed message_begin_stream s (omega arith) h in
      let count : length s + 9 ≡ 5 + w.len = omega arith in
      rw count (
        exchange_framed (record { subdomain = s }) dst (record { subdomain = s }) w rest
          (unfold begin_marshal in e) f
          (unfold begin_unmarshal in rw (p, read_long-be_bytes s (omega arith))))

  exchange-end :
      (dst : EndConnection)
      → exchange (record { subdomain = s }) dst rest
        ≡ done (got (length s + 9) (record { subdomain = s }) rest)
  exchange-end dst =
      let (w, e, f, p, n) = long-IsFramed message_end_stream s (omega arith) h in
      let count : length s + 9 ≡ 5 + w.len = omega arith in
      rw count (
        exchange_framed (record { subdomain = s }) dst (record { subdomain = s }) w rest
          (unfold end_marshal in e) f
          (unfold end_unmarshal in rw (p, read_long-be_bytes s (omega arith))))

  exchange-ready :
      (dst : ConnectionReady)
      → exchange (record { subdomain = s }) dst rest
        ≡ done (got (length s + 9) (record { subdomain = s }) rest)
  exchange-ready dst =
      let (w, e, f, p, n) = long-IsFramed message_connection_ready s (omega arith) h in
      let count : length s + 9 ≡ 5 + w.len = omega arith in
      rw count (
        exchange_framed (record { subdomain = s }) dst (record { subdomain = s }) w rest
          (unfold ready_marshal in e) f
          (unfold ready_unmarshal in rw (p, read_long-be_bytes s (omega arith))))

-- A `BeginConnection`, `EndConnection` or `ConnectionReady` with a subdomain `s` of fewer than
-- 2 ^ 32 - 4 bytes is sent without a panic, and is received whole, into any receiver, from a stream
-- that goes on with `rest`, with `rest` left.
pub exchange_long :
    (s rest : Bytes) (b : BeginConnection) (e : EndConnection) (r : ConnectionReady)
    → length s + 4 < 2 ^ 32
    → (exchange (record { subdomain = s }) b rest
        ≡ done (got (length s + 9) (record { subdomain = s }) rest))
      × (exchange (record { subdomain = s }) e rest
          ≡ done (got (length s + 9) (record { subdomain = s }) rest))
      × (exchange (record { subdomain = s }) r rest
          ≡ done (got (length s + 9) (record { subdomain = s }) rest))
exchange_long s rest b e r h =
    (exchange-begin s rest h b, exchange-end s rest h e, exchange-ready s rest h r)
