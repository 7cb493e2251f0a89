-- ===== src/Transport/Stream/Traffic.antt =====
-- What a stream counts of the messages that it sends and receives.
use gunnel.Prelude.{ℕ, ◌+◌, ◌*◌, ◌≡◌, refl, arith, ◌++◌, true, false, Bytes, length}
use gunnel.Go.Slices.{done, be_bytes}
use gunnel.Protocol.Message.{Message, write}
use gunnel.Protocol.Frames.{IsFramed, read_message-write}
use gunnel.Transport.Stream.{
  StreamClient, Shared, Moved, moved, count_in, count_out, write_bytes, send, receive, received,
}

-- A QUIC stream that takes all that it is given.
abbrev pub takes_all : Bytes → Moved
takes_all frame = moved (length frame) true

frame_length : (m : Message) → IsFramed m → length (write m) ≡ 5 + m.len
unfolding write be_bytes
frame_length m f = omega (arith, f.counted)

-- A message that is sent over one stream and received over another arrives whole, and the receiver
-- counts the bytes of its frame; the sender counts them twice, in the stream's own count and in the
-- total, since `Write`, through which the frame goes, counts them before `Send` does.
pub send-receive :
    (now later : ℕ) (s r : StreamClient) (w v : Shared) (m : Message) (rest : Bytes)
    → s.is_open ≡ true
    → r.is_open ≡ true
    → IsFramed m
    → ((send takes_all now s w m).1 ≡ true)
      × ((send takes_all now s w m).0.0.metrics_info.bytes_sent
          ≡ s.metrics_info.bytes_sent + 2 * (5 + m.len))
      × ((send takes_all now s w m).0.1.total_out ≡ w.total_out + 2 * (5 + m.len))
      × (receive false later r v (write m ++ rest)
          ≡ done (count_in later (5 + m.len) r v, received m rest))
unfolding send receive write_bytes count_out
send-receive now later s r w v m rest o p f =
    let n = frame_length m f in
    (
      rw o refl,
      rw (o, n) (omega arith),
      rw (o, n) (omega arith),
      simp (p, read_message-write m rest f),
    )
