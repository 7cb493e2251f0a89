-- ===== src/Server/Limiter.antt =====
-- pkg/server/connlimiter.go. A limit of 0 is none, and so is a negative one in the source. Times are
-- nanoseconds and arguments of the calls; a call is one step, and Races has what can come between its
-- parts; `split` is `net.SplitHostPort`, cut down to the host it
-- returns, or none on an error.
pub mod Ledger
pub mod Admission
pub mod Window
pub mod Rate
pub mod Races
mod Examples
use gunnel.Prelude.{
  ℕ, ◌+◌, ◌*◌, ◌^◌, List, [], ◌∷◌, ◌++◌, Bool, true, false, ◌&&◌, Option, none, some, Bytes, ltb,
  leb, ◌==◌, if◌then◌else◌, length,
}
use gunnel.Prelude.Int.{ℤ, pos, negsuc, ◌+ℤ◌, leb_ℤ}
use gunnel.Prelude.Maps.{Map, empty, put, remove}

pub record Limiter : Type 0 where
  pub max_conns : ℕ
  pub max_per_ip : ℕ
  pub rate_limit : ℕ
  pub active_conns : ℤ
  pub ip_conns : Map ℤ
  pub rate_tracker : Map (List ℕ)

abbrev pub minute : ℕ
minute = 60 * 10 ^ 9

-- `NewConnectionLimiter`
unfoldable pub new : ℕ → ℕ → ℕ → Limiter
new max_conns max_per_ip rate_limit = record {
  max_conns = max_conns;
  max_per_ip = max_per_ip;
  rate_limit = rate_limit;
  active_conns = pos 0;
  ip_conns = empty;
  rate_tracker = empty;
}

-- The times that are after `now.Add(-span)`.
unfoldable pub within : ℕ → ℕ → List ℕ → List ℕ
within now span [] = []
within now span (t ∷ ts) =
    let rest = within now span ts in if ltb now (t + span) then t ∷ rest else rest

-- The timestamps of an entry; `LoadOrStore` makes an empty one.
unfoldable pub timestamps : Option (List ℕ) → List ℕ
timestamps none = []
timestamps (some ts) = ts

-- `checkRateLimit` once it has locked an entry: its timestamps then, and whether there is room.
abbrev pub check_entry : ℕ → ℕ → List ℕ → List ℕ × Bool
check_entry rate_limit now ts =
    let valid = within now minute ts in
    if leb rate_limit (length valid) then (valid, false) else (valid ++ now ∷ [], true)

-- `checkRateLimit`, if its entry is not deleted before it is locked.
unfoldable pub check_rate_limit : Limiter → ℕ → Bytes → Limiter × Bool
check_rate_limit cl now ip =
    let (ts, ok) = check_entry cl.rate_limit now (timestamps (cl.rate_tracker ip)) in
    (record cl { rate_tracker = put cl.rate_tracker ip ts }, ok)

-- `getIPCount`
unfoldable pub get_ip_count : Limiter → Bytes → ℤ
get_ip_count cl ip = elim (cl.ip_conns ip) [ none ↦ pos 0 | some n ↦ n ]

-- `incrementIPCount`: `LoadOrStore` makes a count of 0 for a new address.
unfoldable pub increment_ip_count : Limiter → Bytes → Limiter
increment_ip_count cl ip = record cl { ip_conns = put cl.ip_conns ip (get_ip_count cl ip +ℤ pos 1) }

-- What `Acquire` changes once `Allow` has let the connection in.
unfoldable pub admit : Limiter → Bytes → Limiter
admit cl ip = increment_ip_count (record cl { active_conns = cl.active_conns +ℤ pos 1 }) ip

-- `decrementIPCount` up to its `Add`, and whether it goes on to delete the count.
unfoldable pub lower_ip_count : Limiter → Bytes → Limiter × Bool
lower_ip_count cl ip = elim (cl.ip_conns ip) [
  | none ↦ (cl, false)
  | some n ↦
      let new_count = n +ℤ negsuc 0 in
      (record cl { ip_conns = put cl.ip_conns ip new_count }, leb_ℤ new_count (pos 0))
]

unfoldable pub delete_if : Bool → Limiter → Bytes → Limiter
delete_if last cl ip = if last then record cl { ip_conns = remove cl.ip_conns ip } else cl

-- `decrementIPCount`, if nothing comes between.
unfoldable pub decrement_ip_count : Limiter → Bytes → Limiter
decrement_ip_count cl ip = let (cl', last) = lower_ip_count cl ip in delete_if last cl' ip

-- What `Release` changes.
unfoldable pub discharge : Limiter → Bytes → Limiter
discharge cl ip = decrement_ip_count (record cl { active_conns = cl.active_conns +ℤ negsuc 0 }) ip

-- `cleanupOldRateEntries`
unfoldable pub clean_entry : ℕ → Option (List ℕ) → Option (List ℕ)
clean_entry now none = none
clean_entry now (some ts) =
    let valid = within now (2 * minute) ts in if length valid == 0 then none else some valid

unfoldable pub cleanup_old_rate_entries : Limiter → ℕ → Limiter
cleanup_old_rate_entries cl now = record cl {
  rate_tracker = λ ip. clean_entry now (cl.rate_tracker ip);
}

module _ (split : Bytes → Option Bytes) where
  -- The host of an address, or the whole of it where it has no port.
  unfoldable pub ip_of : Bytes → Bytes
  ip_of addr = elim (split addr) [ none ↦ addr | some host ↦ host ]

  unfoldable pub allow : Limiter → ℕ → Bytes → Limiter × Bool
  allow cl now remote_addr =
      let ip = ip_of remote_addr in
      if ltb 0 cl.max_conns && leb_ℤ (pos cl.max_conns) cl.active_conns
      then (cl, false)
      else if ltb 0 cl.max_per_ip && leb_ℤ (pos cl.max_per_ip) (get_ip_count cl ip)
      then (cl, false)
      else if ltb 0 cl.rate_limit
      then check_rate_limit cl now ip
      else (cl, true)

  unfoldable pub acquire : Limiter → ℕ → Bytes → Limiter × Bool
  acquire cl now remote_addr =
      let (cl', allowed) = allow cl now remote_addr in
      if allowed then (admit cl' (ip_of remote_addr), true) else (cl', false)

  unfoldable pub release : Limiter → Bytes → Limiter
  release cl remote_addr = discharge cl (ip_of remote_addr)
