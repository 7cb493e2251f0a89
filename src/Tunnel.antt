-- ===== src/Tunnel.antt =====
-- pkg/tunnel/tunnel.go: copying between a local connection and a stream, and closing both. The ends
-- are parameters: what each call of `Read` gives, and whether each call of `Write` works. The logs
-- of the progress are left out.
pub mod Copy
pub mod Directions
mod Examples
use gunnel.Prelude.{
  ℕ, zero, suc, ◌+◌, [], ◌++◌, List, ◌∷◌, Bool, true, false, Option, none, some, Bytes, ltb, length,
  if◌then◌else◌,
}

-- What a call of `Read` says besides the bytes: no error, `io.EOF` or `net.ErrClosed`, another error.
pub data ReadStatus : Type 0 where
  fine ended broken : ReadStatus

pub record ReadResult : Type 0 where
  pub data_read : Bytes
  pub status : ReadStatus

-- What `copy` returns.
pub data Copied : Type 0 where
  finished read_failed write_failed : Copied

abbrev pub CopyEnd : Type 0
CopyEnd = Bytes × Copied

-- More bytes in front of what is written later.
unfoldable pub after_bytes : Bytes → Option CopyEnd → Option CopyEnd
after_bytes b none = none
after_bytes b (some (later, result)) = some (b ++ later, result)

-- One round of the loop of `copy`, with what the rounds after it give.
unfoldable pub round : ReadResult → Bool → Option CopyEnd → Option CopyEnd
round r written later = elim r.status [
  | ended ↦ some ([], finished)
  | broken ↦ some ([], read_failed)
  | fine ↦
      if ltb 0 (length r.data_read)
      then (if written then after_bytes r.data_read later else some ([], write_failed))
      else later
]

module _ (reads : ℕ → ReadResult) (writes : ℕ → Bool) where
  -- The loop of `copy` from its call `i` of `Read` on, with the bytes that it writes; none while it
  -- has not returned after `fuel` rounds.
  unfoldable pub copy_loop : ℕ → ℕ → Option CopyEnd
  copy_loop zero i = none
  copy_loop (suc fuel) i = round (reads i) (writes i) (copy_loop fuel (i + 1))

  -- `copy`, where the source may be nil.
  unfoldable pub copy : Bool → ℕ → Option CopyEnd
  copy src_is_nil fuel = if src_is_nil then some ([], finished) else copy_loop fuel 0

-- How closing an end goes: without an error, with `net.ErrClosed`, or with another one.
pub data CloseStatus : Type 0 where
  closes already_closed fails : CloseStatus

-- Which ends are not nil, and how often each was closed.
pub record Tunnel : Type 0 where
  pub local : Bool
  pub remote : Bool
  pub local_closes : ℕ
  pub remote_closes : ℕ

-- `NewTunnelWithLocal`
unfoldable pub new_tunnel_with_local : Tunnel
new_tunnel_with_local = record { local = true; remote = true; local_closes = 0; remote_closes = 0 }

unfoldable pub close_remote : CloseStatus → Tunnel → Tunnel × Bool
close_remote r t =
    let t' = record t { remote_closes = t.remote_closes + 1 } in
    if t.remote
    then elim r [ closes ↦ (record t' { remote = false }, true) | _ ↦ (t', false) ]
    else (t, true)

-- `Close`, and whether it returned no error.
unfoldable pub close : CloseStatus → CloseStatus → Tunnel → Tunnel × Bool
close l r t =
    let t' = record t { local_closes = t.local_closes + 1 } in
    if t.local
    then elim l [ fails ↦ (t', false) | _ ↦ close_remote r (record t' { local = false }) ]
    else close_remote r t
