-- ===== src/Protocol/Enum.antt =====
-- pkg/protocol/enum.go. `MessageType` is an int, so a number; `Protocol` is a string.
use gunnel.Prelude.{ℕ, Bool, true, false, Bytes, codes, str_eq, ◌==◌, if◌then◌else◌}

abbrev pub Protocol : Type 0
Protocol = Bytes

abbrev pub http : Protocol
http = codes "http"

abbrev pub tcp : Protocol
tcp = codes "tcp"

abbrev pub message_connection_register : ℕ
message_connection_register = 1

abbrev pub message_connection_register_resp : ℕ
message_connection_register_resp = 2

abbrev pub message_disconnect : ℕ
message_disconnect = 3

abbrev pub message_heartbeat : ℕ
message_heartbeat = 4

abbrev pub message_error : ℕ
message_error = 5

abbrev pub message_begin_stream : ℕ
message_begin_stream = 6

abbrev pub message_end_stream : ℕ
message_end_stream = 7

abbrev pub message_connection_ready : ℕ
message_connection_ready = 8

-- `MessageType.String`
unfoldable pub message_type_string : ℕ → Bytes
message_type_string t =
    if t == message_connection_register
    then codes "ConnectionRegister"
    else if t == message_connection_register_resp
    then codes "ConnectionRegisterResp"
    else if t == message_disconnect
    then codes "Disconnect"
    else if t == message_heartbeat
    then codes "Heartbeat"
    else if t == message_error
    then codes "Error"
    else if t == message_begin_stream
    then codes "BeginStream"
    else if t == message_end_stream
    then codes "EndStream"
    else if t == message_connection_ready
    then codes "ConnectionReady"
    else codes "Unknown"

-- `Protocol.Valid`
unfoldable pub valid : Protocol → Bool
unfolding str_eq
valid p = if str_eq p http then true else if str_eq p tcp then true else false

-- `Protocol.Byte`
unfoldable pub protocol_byte : Protocol → ℕ
unfolding str_eq
protocol_byte p = if str_eq p http then 0 else if str_eq p tcp then 1 else 255

-- `ProtocolFromByte`
unfoldable pub protocol_from_byte : ℕ → Protocol
protocol_from_byte b = if b == 0 then http else if b == 1 then tcp else codes ""
