-- ===== src/Protocol/Examples.antt =====
-- The protocol at concrete messages.
use gunnel.Prelude.{◌+◌, ◌≡◌, refl, arith, true, [], ◌∷◌, ◌++◌, Bytes, codes}
use gunnel.Go.Slices.{done, at, slice_from, be_uint32}
use gunnel.Protocol.Enum.{tcp, protocol_byte}
use gunnel.Protocol.Message.{
  Message, got, failed, eof, write, len_uint32, read_full, read_payload, read_message,
}
use gunnel.Protocol.Text.{
  CloseConnection, Heartbeat, ErrorMessage, BeginConnection, EndConnection, ConnectionReady,
  short_text, message_of, heartbeat_marshal,
}
use gunnel.Protocol.Register.{ConnectionRegister, ConnectionRegisterResp, string_of_byte}
use gunnel.Protocol.Parsable.{
  close_parsable, heartbeat_parsable, error_parsable, begin_parsable, end_parsable, ready_parsable,
  register_parsable, resp_parsable, exchange,
}
use gunnel.Protocol.Frames.{Reads, read_message-write, read_message_cases}
use gunnel.Protocol.Registration.{arrived, exchange-register}

abbrev ping : Message
ping = record { type = 4; len = 5; payload = 4 ∷ codes "Ping" }

ping_framed : heartbeat_marshal (record { message = codes "Ping" }) ≡ done ping
unfolding heartbeat_marshal short_text message_of len_uint32
ping_framed = refl

read_message-write_example : read_message (write ping ++ 9 ∷ []) ≡ done (got (5 + 5) ping (9 ∷ []))
read_message-write_example = read_message-write ping (9 ∷ []) (omega arith)

-- A stream that ends behind a header looks like one that has ended between two messages.
header_only : read_message (4 ∷ 0 ∷ 0 ∷ 0 ∷ 5 ∷ []) ≡ done (failed 5 eof)
unfolding read_message read_full read_payload at slice_from be_uint32
header_only = refl

read_message_cases_example : Reads (4 ∷ 0 ∷ []) (read_message (4 ∷ 0 ∷ []))
read_message_cases_example = read_message_cases (4 ∷ 0 ∷ []) (omega arith)

abbrev text : Bytes
text = codes "test"

abbrev bye : CloseConnection
bye = record { reason = text }

abbrev beat : Heartbeat
beat = record { message = text }

abbrev failure : ErrorMessage
failure = record { message = text }

abbrev begin : BeginConnection
begin = record { subdomain = text }

abbrev end : EndConnection
end = record { subdomain = text }

abbrev ready : ConnectionReady
ready = record { subdomain = text }

abbrev web : ConnectionRegister
web = record { subdomain = text; host = codes "localhost"; port = 8080; protocol = tcp; token = [] }

exchange-register_example : exchange web web [] ≡ done (got 26 (arrived web) [])
exchange-register_example = exchange-register web web [] (omega arith)

-- The registration that arrives has the one-byte text 0x01 for its protocol.
tcp_arrives : (arrived web).protocol ≡ 1 ∷ []
unfolding string_of_byte protocol_byte
tcp_arrives = refl

abbrev accepted : ConnectionRegisterResp
accepted = record { success = true; subdomain = text; message = codes "success" }
