-- ===== src/Protocol/Parsable.antt =====
-- The interface `Parsable` of pkg/protocol/messages.go, the generic `Unmarshal`, and one message's
-- way from `Stream.Send` to the `Stream.Receive` at the other end (pkg/transport/stream.go).
use gunnel.Prelude.{Bytes, ◌++◌}
use gunnel.Go.Slices.{Outcome, done, ◌>>=◌}
use gunnel.Protocol.Message.{Message, Reading, got, failed, write, read_message}
use gunnel.Protocol.Text.{
  CloseConnection, Heartbeat, ErrorMessage, BeginConnection, EndConnection, ConnectionReady,
  close_marshal, close_unmarshal, heartbeat_marshal, heartbeat_unmarshal, error_marshal,
  error_unmarshal, begin_marshal, begin_unmarshal, end_marshal, end_unmarshal, ready_marshal,
  ready_unmarshal,
}
use gunnel.Protocol.Register.{
  ConnectionRegister, ConnectionRegisterResp, register_marshal, register_unmarshal, resp_marshal,
  resp_unmarshal,
}

pub record Parsable (M : Type 0) : Type 0 where
  pub marshal : M → Outcome Message
  pub unmarshal : M → Bytes → Outcome M

instance abbrev pub close_parsable : Parsable CloseConnection
close_parsable = record { marshal = close_marshal; unmarshal = close_unmarshal }

instance abbrev pub heartbeat_parsable : Parsable Heartbeat
heartbeat_parsable = record { marshal = heartbeat_marshal; unmarshal = heartbeat_unmarshal }

instance abbrev pub error_parsable : Parsable ErrorMessage
error_parsable = record { marshal = error_marshal; unmarshal = error_unmarshal }

instance abbrev pub begin_parsable : Parsable BeginConnection
begin_parsable = record { marshal = begin_marshal; unmarshal = begin_unmarshal }

instance abbrev pub end_parsable : Parsable EndConnection
end_parsable = record { marshal = end_marshal; unmarshal = end_unmarshal }

instance abbrev pub ready_parsable : Parsable ConnectionReady
ready_parsable = record { marshal = ready_marshal; unmarshal = ready_unmarshal }

instance abbrev pub register_parsable : Parsable ConnectionRegister
register_parsable = record { marshal = register_marshal; unmarshal = register_unmarshal }

instance abbrev pub resp_parsable : Parsable ConnectionRegisterResp
resp_parsable = record { marshal = resp_marshal; unmarshal = resp_unmarshal }

module _ {M : Type 0} ⦃p : Parsable M⦄ where
  -- `Unmarshal`
  unfoldable pub unmarshal : M → Message → Outcome M
  unmarshal dst w = p.unmarshal dst w.payload

  -- The bytes that `Send` gives to the stream.
  unfoldable pub send : M → Outcome Bytes
  send m = do w ← p.marshal m; done (write w)

  -- `Receive`, and `Unmarshal` into `dst` of what it returns.
  unfoldable pub receive : M → Bytes → Outcome (Reading M)
  receive dst r = do
    reading ← read_message r
    elim reading [
      | got n w rest ↦ do m ← unmarshal dst w; done (got n m rest)
      | failed n e ↦ done (failed n e)
    ]

  -- `m` is sent on a stream that goes on with `rest`, and received there into `dst`.
  unfoldable pub exchange : M → M → Bytes → Outcome (Reading M)
  exchange m dst rest = do b ← send m; receive dst (b ++ rest)
