-- ===== src/Honeypot/Client.antt =====
-- `extractIP` of pkg/honeypot/honeypot.go.
use gunnel.Prelude.{[], ◌∷◌, Bytes, Option, none, some, codes, length, ◌==◌, if◌then◌else◌}
use gunnel.Http.{Request, Net}
use gunnel.Honeypot.Text.{trim_space, split_csv}

module _ (net : Net) where
  -- The host of the peer, or its whole address where that has no port.
  unfoldable pub remote_host : Request → Bytes
  remote_host req = elim (net.split_host_port req.remote_addr) [
    | none ↦ req.remote_addr
    | some host ↦ host
  ]

  -- The first of the addresses that a proxy lists, if it is one.
  unfoldable pub forwarded_ip : Bytes → Option Bytes
  forwarded_ip xff = if length xff == 0 then none else elim (split_csv xff) [
    | [] ↦ none
    | part ∷ _ ↦ let ip = trim_space part in if net.parse_ip ip then some ip else none
  ]

  unfoldable pub real_ip : Bytes → Option Bytes
  real_ip xri =
      if length xri == 0
      then none
      else (let ip = trim_space xri in if net.parse_ip ip then some ip else none)

  unfoldable pub extract_ip : Request → Bytes
  extract_ip req = elim (forwarded_ip (req.header (codes "X-Forwarded-For"))) [
    | some ip ↦ ip
    | none ↦ elim (real_ip (req.header (codes "X-Real-IP"))) [
      | some ip ↦ ip
      | none ↦ remote_host req
    ]
  ]
