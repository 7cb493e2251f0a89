-- ===== src/Protocol/Text.antt =====
-- The messages of pkg/protocol/messages.go that carry one text: three with a length of one byte
-- (`CloseConnection`, `Heartbeat`, `ErrorMessage`), three with one of four bytes
-- (`BeginConnection`, `EndConnection`, `ConnectionReady`). `Unmarshal` overwrites its receiver.
use gunnel.Prelude.{ℕ, ◌+◌, ◌∷◌, ◌++◌, Bytes, length}
use gunnel.Go.Slices.{Outcome, done, ◌>>=◌, at, slice, slice_from, be_uint32, be_bytes, byte}
use gunnel.Protocol.Enum.{
  message_disconnect, message_heartbeat, message_error, message_begin_stream, message_end_stream,
  message_connection_ready,
}
use gunnel.Protocol.Message.{Message, len_uint32}

pub record CloseConnection : Type 0 where
  pub reason : Bytes

pub record Heartbeat : Type 0 where
  pub message : Bytes

pub record ErrorMessage : Type 0 where
  pub message : Bytes

pub record BeginConnection : Type 0 where
  pub subdomain : Bytes

pub record EndConnection : Type 0 where
  pub subdomain : Bytes

pub record ConnectionReady : Type 0 where
  pub subdomain : Bytes

-- `payload = append(payload, byte(len(s))); payload = append(payload, []byte(s)...)`
unfoldable pub short_text : Bytes → Bytes
short_text s = byte (length s) ∷ s

-- The same with `binary.BigEndian.AppendUint32(payload, lenUint32(s))`.
unfoldable pub long_text : Bytes → Outcome Bytes
long_text s = do n ← len_uint32 s; done (be_bytes n ++ s)

-- `&Message{Type: t, Length: lenUint32(payload), Payload: payload}`
unfoldable pub message_of : ℕ → Bytes → Outcome Message
message_of t payload = do
  n ← len_uint32 payload
  done (record { type = t; len = n; payload = payload })

-- The text behind a length of one byte, and behind one of four.
unfoldable pub read_short : Bytes → Outcome Bytes
read_short payload = do n ← at payload 0; slice payload (0 + 1) (0 + 1 + n)

unfoldable pub read_long : Bytes → Outcome Bytes
read_long payload = do
  header ← slice_from payload 0
  n ← be_uint32 header
  slice payload (0 + 4) (0 + 4 + n)

unfoldable pub close_marshal : CloseConnection → Outcome Message
close_marshal c = message_of message_disconnect (short_text c.reason)

unfoldable pub close_unmarshal : CloseConnection → Bytes → Outcome CloseConnection
close_unmarshal c payload = do s ← read_short payload; done (record c { reason = s })

unfoldable pub heartbeat_marshal : Heartbeat → Outcome Message
heartbeat_marshal h = message_of message_heartbeat (short_text h.message)

unfoldable pub heartbeat_unmarshal : Heartbeat → Bytes → Outcome Heartbeat
heartbeat_unmarshal h payload = do s ← read_short payload; done (record h { message = s })

unfoldable pub error_marshal : ErrorMessage → Outcome Message
error_marshal e = message_of message_error (short_text e.message)

unfoldable pub error_unmarshal : ErrorMessage → Bytes → Outcome ErrorMessage
error_unmarshal e payload = do s ← read_short payload; done (record e { message = s })

-- `NewErrorMessage`
unfoldable pub new_error_message : Bytes → ErrorMessage
new_error_message s = record { message = s }

unfoldable pub begin_marshal : BeginConnection → Outcome Message
begin_marshal b = do payload ← long_text b.subdomain; message_of message_begin_stream payload

unfoldable pub begin_unmarshal : BeginConnection → Bytes → Outcome BeginConnection
begin_unmarshal b payload = do s ← read_long payload; done (record b { subdomain = s })

unfoldable pub end_marshal : EndConnection → Outcome Message
end_marshal e = do payload ← long_text e.subdomain; message_of message_end_stream payload

unfoldable pub end_unmarshal : EndConnection → Bytes → Outcome EndConnection
end_unmarshal e payload = do s ← read_long payload; done (record e { subdomain = s })

unfoldable pub ready_marshal : ConnectionReady → Outcome Message
ready_marshal c = do payload ← long_text c.subdomain; message_of message_connection_ready payload

unfoldable pub ready_unmarshal : ConnectionReady → Bytes → Outcome ConnectionReady
ready_unmarshal c payload = do s ← read_long payload; done (record c { subdomain = s })
