-- ===== src/Protocol/Enums.antt =====
-- The two protocols and their bytes.
use gunnel.Prelude.{◌<◌, ◌≡◌, ◌↔◌, ◌⊎◌, true, arith, str_eq_iff}
use gunnel.Protocol.Enum.{Protocol, http, tcp, valid, protocol_byte, protocol_from_byte}

-- `Valid` accepts exactly the two protocols, and they are exactly the texts that come back from
-- their byte and have one below 2.
pub valid_iff :
    (p : Protocol)
    → ((valid p ≡ true) ↔ ((p ≡ http) ⊎ (p ≡ tcp)))
      × ((valid p ≡ true) ↔ ((protocol_byte p < 2) × (protocol_from_byte (protocol_byte p) ≡ p)))
unfolding valid protocol_byte protocol_from_byte
valid_iff p = ground (arith, str_eq_iff p http, str_eq_iff p tcp)
