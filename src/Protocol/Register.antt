-- ===== src/Protocol/Register.antt =====
-- pkg/protocol/registry.go: the registration of a client and the answer to it.
use gunnel.Prelude.{
  ℕ, ◌+◌, ◌/◌, ◌%◌, [], ◌∷◌, ◌++◌, Bool, Bytes, ltb, leb, ◌==◌, length, not, if◌then◌else◌,
}
use gunnel.Go.Slices.{Outcome, done, ◌>>=◌, at, slice, slice_from, be_uint32, be_bytes, byte}
use gunnel.Protocol.Enum.{
  Protocol, protocol_byte, message_connection_register, message_connection_register_resp,
}
use gunnel.Protocol.Message.{Message, len_uint32}
use gunnel.Protocol.Text.{message_of}

pub record ConnectionRegister : Type 0 where
  pub subdomain : Bytes
  pub host : Bytes
  pub port : ℕ  -- uint32
  pub protocol : Protocol
  pub token : Bytes

pub record ConnectionRegisterResp : Type 0 where
  pub success : Bool
  pub subdomain : Bytes
  pub message : Bytes

-- `boolToByte`, `byteToBool`
unfoldable pub bool_to_byte : Bool → ℕ
bool_to_byte b = if b then 1 else 0

unfoldable pub byte_to_bool : ℕ → Bool
byte_to_bool b = not (b == 0)

-- `string(rune)` for one byte, as in `Protocol(payload[offset])`: the UTF-8 form of the code point.
unfoldable pub string_of_byte : ℕ → Bytes
string_of_byte b = if ltb b 0x80 then b ∷ [] else (0xc0 + b / 0x40) ∷ (0x80 + b % 0x40) ∷ []

-- The optional token at the end of a registration, from offset `i` on.
unfoldable pub read_token : ConnectionRegister → Bytes → ℕ → Outcome ConnectionRegister
read_token c payload i =
    if ltb i (length payload)
    then (do
      n ← at payload i
      if leb (i + 1 + n) (length payload)
          then (do s ← slice payload (i + 1) (i + 1 + n); done (record c { token = s }))
          else done c)
    else done c

unfoldable pub register_unmarshal : ConnectionRegister → Bytes → Outcome ConnectionRegister
register_unmarshal c payload = do
  n ← at payload 0
  subdomain ← slice payload (0 + 1) (0 + 1 + n)
  let i = 0 + 1 + n
  m ← at payload i
  host ← slice payload (i + 1) (i + 1 + m)
  let j = i + 1 + m
  rest ← slice_from payload j
  port ← be_uint32 rest
  p ← at payload (j + 4)
  read_token
      (record c { subdomain = subdomain; host = host; port = port; protocol = string_of_byte p })
      payload (j + 4 + 1)

unfoldable pub register_payload : ConnectionRegister → Bytes
register_payload c =
    byte (length c.subdomain) ∷ c.subdomain
    ++ (byte (length c.host) ∷ c.host
        ++ (be_bytes c.port ++ (protocol_byte c.protocol ∷ byte (length c.token) ∷ c.token)))

unfoldable pub register_marshal : ConnectionRegister → Outcome Message
register_marshal c = message_of message_connection_register (register_payload c)

unfoldable pub resp_unmarshal : ConnectionRegisterResp → Bytes → Outcome ConnectionRegisterResp
resp_unmarshal c payload = do
  success ← at payload 0
  n ← at payload (0 + 1)
  subdomain ← slice payload (0 + 1 + 1) (0 + 1 + 1 + n)
  let i = 0 + 1 + 1 + n
  rest ← slice_from payload i
  m ← be_uint32 rest
  message ← slice payload (i + 4) (i + 4 + m)
  done (record c { success = byte_to_bool success; subdomain = subdomain; message = message })

-- The buffer is as long as its parts, so that each `copy` is whole.
unfoldable pub resp_marshal : ConnectionRegisterResp → Outcome Message
resp_marshal c = do
  m ← len_uint32 c.message
  message_of message_connection_register_resp (
      bool_to_byte c.success ∷ byte (length c.subdomain) ∷ c.subdomain ++ (be_bytes m ++ c.message))
