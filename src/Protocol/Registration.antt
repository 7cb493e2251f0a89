-- ===== src/Protocol/Registration.antt =====
-- What arrives of a registration and of its answer.
use gunnel.Prelude.{
  ℕ, ◌+◌, ◌^◌, ◌<◌, ◌≡◌, refl, arith, false, Bool, [], ◌∷◌, ◌++◌, Bytes, length, length-append,
  append-nil, str_eq,
}
use gunnel.Go.Slices.{done, be_bytes, byte}
use gunnel.Go.Cursor.{
  Rest, Rest-zero, Rest-suc, Rest-add, Rest-add_four, length-Rest, at-Rest, slice-Rest,
  slice_from-Rest, be_uint32-be_bytes,
}
use gunnel.Protocol.Enum.{
  message_connection_register, message_connection_register_resp, protocol_byte, valid,
}
use gunnel.Protocol.Message.{Message, got}
use gunnel.Protocol.Register.{
  ConnectionRegister, ConnectionRegisterResp, string_of_byte, byte_to_bool, bool_to_byte,
  read_token, register_payload, register_marshal, register_unmarshal, resp_marshal, resp_unmarshal,
}
use gunnel.Protocol.Parsable.{register_parsable, resp_parsable, exchange}
use gunnel.Protocol.RoundTrip.{exchange_framed, message_of-done, len_uint32-length}

-- Each text fits its length byte, and the port is a uint32.
pub record IsShort (c : ConnectionRegister) : Type 0 where
  pub subdomain : length c.subdomain < 256
  pub host : length c.host < 256
  pub port : c.port < 2 ^ 32
  pub token : length c.token < 256

-- The registration that arrives: `Protocol(payload[offset])` makes a text of the byte's code point.
abbrev pub arrived : ConnectionRegister → ConnectionRegister
arrived c = record c { protocol = string_of_byte (protocol_byte c.protocol) }

byte_small : (n : ℕ) → n < 256 → byte n ≡ n
byte_small n h = omega arith

read_token-Rest :
    (c : ConnectionRegister) (p : Bytes) (i : ℕ) (s : Bytes)
    → length s < 256
    → Rest p i (byte (length s) ∷ s)
    → read_token c p i ≡ done (record c { token = s })
unfolding read_token
read_token-Rest c p i s h r =
    let e = length-Rest r in
    let r' : Rest p (i + 1) (s ++ []) = rw append-nil (Rest-suc r) in
    let small = byte_small (length s) h in ground (arith, e, at-Rest r, small, slice-Rest s [] r')

register_unmarshal-Rest :
    (c dst : ConnectionRegister) (p : Bytes)
    → IsShort c
    → Rest p 0 (register_payload c)
    → register_unmarshal dst p ≡ done (arrived c)
unfolding register_unmarshal register_payload
register_unmarshal-Rest c dst p h r₀ =
    let r₁ = Rest-suc r₀ in
    let r₂ = Rest-add c.subdomain r₁ in
    let r₃ = Rest-suc r₂ in
    let r₄ = Rest-add c.host r₃ in
    let r₅ = Rest-add_four c.port r₄ in
    let r₆ = Rest-suc r₅ in
    rw (at-Rest r₀) (
      rw (byte_small (length c.subdomain) h.subdomain) (
        rw (slice-Rest c.subdomain _ r₁, at-Rest r₂)
          (rw (byte_small (length c.host) h.host) (
            rw (slice-Rest c.host _ r₃, slice_from-Rest r₄)
              (rw (be_uint32-be_bytes c.port _ h.port, at-Rest r₅)
                (read_token-Rest _ p _ c.token h.token r₆))))))

length-payload :
    (c : ConnectionRegister)
    → length (register_payload c) ≡ length c.subdomain + length c.host + length c.token + 8
unfolding register_payload be_bytes
length-payload c = ground (
  arith,
  length-append c.subdomain (
      byte (length c.host) ∷ c.host
      ++ (be_bytes c.port ++ (protocol_byte c.protocol ∷ byte (length c.token) ∷ c.token))),
  length-append c.host
      (be_bytes c.port ++ (protocol_byte c.protocol ∷ byte (length c.token) ∷ c.token)),
)

-- A registration whose texts are shorter than 256 bytes is sent without a panic and received with
-- each field but the protocol as it was sent, into any receiver; the protocol arrives as the text
-- of the code point that its byte is.
pub exchange-register :
    (c dst : ConnectionRegister) (rest : Bytes)
    → IsShort c
    → exchange c dst rest
      ≡ done (got (length c.subdomain + length c.host + length c.token + 13) (arrived c) rest)
exchange-register c dst rest h =
    let n = length-payload c in
    let w : Message = record {
      type = message_connection_register;
      len = length (register_payload c);
      payload = register_payload c;
    } in
    let count : length c.subdomain + length c.host + length c.token + 13
        ≡ 5 + length (register_payload c) =
      omega (arith, h.subdomain, h.host, h.token) in
    let small : length (register_payload c) < 2 ^ 32 =
      omega (arith, h.subdomain, h.host, h.token) in
    rw count (
      exchange_framed c dst (arrived c) w rest
        (unfold register_marshal in message_of-done _ _ small)
        (record { type_byte = omega arith; counted = refl; fits = small })
        (register_unmarshal-Rest c dst _ h (Rest-zero _)))

-- The protocol that the server receives is none that it knows, whatever the client sent.
pub arrived-not-valid : (c : ConnectionRegister) → valid (arrived c).protocol ≡ false
unfolding valid string_of_byte protocol_byte str_eq
arrived-not-valid c = ground arith

unfoldable pub resp_payload : ConnectionRegisterResp → Bytes
resp_payload c =
    bool_to_byte c.success ∷ byte (length c.subdomain) ∷ c.subdomain
    ++ (be_bytes (length c.message) ++ c.message)

success_arrives : (b : Bool) → byte_to_bool (bool_to_byte b) ≡ b
unfolding byte_to_bool bool_to_byte
success_arrives b = ground arith

resp_unmarshal-Rest :
    (c dst : ConnectionRegisterResp) (p : Bytes)
    → length c.subdomain < 256
    → length c.message < 2 ^ 32
    → Rest p 0 (resp_payload c)
    → resp_unmarshal dst p ≡ done c
unfolding resp_unmarshal resp_payload
resp_unmarshal-Rest c dst p hs hm r₀ =
    let r₁ = Rest-suc r₀ in
    let r₂ = Rest-suc r₁ in
    let r₃ = Rest-add c.subdomain r₂ in
    let r₄ = Rest-add_four (length c.message) r₃ in
    let r₄' : Rest p (0 + 1 + 1 + length c.subdomain + 4) (c.message ++ []) = rw append-nil r₄ in
    rw (at-Rest r₀, at-Rest r₁)
      (rw (byte_small (length c.subdomain) hs) (
        rw (slice-Rest c.subdomain _ r₂, slice_from-Rest r₃)
          (rw (be_uint32-be_bytes (length c.message) _ hm, slice-Rest c.message [] r₄')
            (rw (success_arrives c.success)))))

length-resp_payload :
    (c : ConnectionRegisterResp)
    → length (resp_payload c) ≡ length c.subdomain + length c.message + 6
unfolding resp_payload be_bytes
length-resp_payload c =
    ground (arith, length-append c.subdomain (be_bytes (length c.message) ++ c.message))

-- The message that an answer is marshalled to.
abbrev pub resp_message : ConnectionRegisterResp → Message
resp_message c = record {
  type = message_connection_register_resp;
  len = length (resp_payload c);
  payload = resp_payload c;
}

pub resp_marshal-resp_message :
    (c : ConnectionRegisterResp)
    → length c.subdomain < 256
    → length c.message + 300 < 2 ^ 32
    → resp_marshal c ≡ done (resp_message c)
unfolding resp_marshal resp_payload
resp_marshal-resp_message c hs hm =
    let n = length-resp_payload c in
    let small : length (resp_payload c) < 2 ^ 32 = omega arith in
    rw (len_uint32-length c.message (omega arith)) (message_of-done _ _ small)

pub resp_unmarshal-resp_message :
    (c dst : ConnectionRegisterResp)
    → length c.subdomain < 256
    → length c.message + 300 < 2 ^ 32
    → resp_unmarshal dst (resp_message c).payload ≡ done c
resp_unmarshal-resp_message c dst hs hm = resp_unmarshal-Rest c dst _ hs (omega arith) (Rest-zero _)

-- The answer to a registration is sent without a panic and received whole, into any receiver, if
-- its subdomain is shorter than 256 bytes and its message leaves room in a uint32 length.
pub exchange-resp :
    (c dst : ConnectionRegisterResp) (rest : Bytes)
    → length c.subdomain < 256
    → length c.message + 300 < 2 ^ 32
    → exchange c dst rest ≡ done (got (length c.subdomain + length c.message + 11) c rest)
exchange-resp c dst rest hs hm =
    let n = length-resp_payload c in
    let count : length c.subdomain + length c.message + 11 ≡ 5 + length (resp_payload c) =
      omega arith in
    let small : length (resp_payload c) < 2 ^ 32 = omega arith in
    rw count (
      exchange_framed c dst c (resp_message c) rest (resp_marshal-resp_message c hs hm)
        (record { type_byte = omega arith; counted = refl; fits = small })
        (resp_unmarshal-resp_message c dst hs hm))
