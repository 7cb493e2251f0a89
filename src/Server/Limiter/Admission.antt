-- ===== src/Server/Limiter/Admission.antt =====
-- Which connections are admitted, and how many there can be.
use gunnel.Prelude.{
  ℕ, ◌<◌, ◌⊎◌, ◌≡◌, ◌↔◌, refl, ap, ◌∙◌, arith, List, [], ◌∷◌, true, if◌then◌else◌, Bool-cases, inl,
  inr, ◌-◌, Option, Bytes, length,
}
use gunnel.Prelude.Int.{pos}
use gunnel.Server.Limiter.{
  Limiter, new, check_rate_limit, increment_ip_count, lower_ip_count, delete_if, decrement_ip_count,
  cleanup_old_rate_entries, ip_of, allow, admit, discharge, acquire, release,
}
use gunnel.Server.Limiter.Ledger.{
  Within, Below, count, erase, Tracks, entry, new-Tracks, admit-Tracks, discharge-Tracks,
  get_ip_count-Tracks,
}

module _ (split : Bytes → Option Bytes) where
  -- `Allow` changes the rate tracker only.
  allow_keeps :
      (cl : Limiter) (now : ℕ) (addr : Bytes)
      → ((allow split cl now addr).0.active_conns ≡ cl.active_conns)
        × ((allow split cl now addr).0.ip_conns ≡ cl.ip_conns)
        × ((allow split cl now addr).0.max_conns ≡ cl.max_conns)
        × ((allow split cl now addr).0.max_per_ip ≡ cl.max_per_ip)
  unfolding allow check_rate_limit
  allow_keeps cl now addr = ground arith

  -- With a faithful ledger, `Allow` lets an address in exactly if no limit is reached: fewer than
  -- `maxConns` connections are open, fewer than `maxPerIP` of them from its host, and the rate
  -- check passes, each where the limit is set.
  pub allow_iff :
      (cl : Limiter) (now : ℕ) (addr : Bytes) (held : List Bytes)
      → Tracks cl held
      → ((allow split cl now addr).1 ≡ true) ↔ (
          Below cl.max_conns (length held)
          × Below cl.max_per_ip (count (ip_of split addr) held)
          × ((cl.rate_limit ≡ 0) ⊎ ((check_rate_limit cl now (ip_of split addr)).1 ≡ true)))
  unfolding allow
  allow_iff cl now addr held t =
      let n = get_ip_count-Tracks cl (ip_of split addr) _ (t.per_ip (ip_of split addr)) in
      (
        (λ h. (ground (arith, t.active), ground (arith, t.active, n), ground (arith, t.active, n))),
        (λ (a, b, c). ground (arith, t.active, n, a, b, c)),
      )

  allow-Tracks :
      (cl : Limiter) (now : ℕ) (addr : Bytes) (held : List Bytes)
      → Tracks cl held
      → Tracks (allow split cl now addr).0 held
  allow-Tracks cl now addr held t =
      let (a, i, m, p) = allow_keeps cl now addr in
      record {
        active = a ∙ t.active;
        per_ip = λ ip. ap (λ f. f ip) i ∙ t.per_ip ip;
        bounded = rw m t.bounded;
        ip_bounded = λ ip. rw p (t.ip_bounded ip);
      }

  acquire_admitted :
      (cl : Limiter) (now : ℕ) (addr : Bytes) (held : List Bytes)
      → Tracks cl held
      → (allow split cl now addr).1 ≡ true
      → Tracks (admit (allow split cl now addr).0 (ip_of split addr)) (ip_of split addr ∷ held)
  acquire_admitted cl now addr held t h =
      let (a, i, m, p) = allow_keeps cl now addr in
      let (room, ip_room, _) = (allow_iff cl now addr held t).0 h in
      admit-Tracks (allow split cl now addr).0 (ip_of split addr) held
        (allow-Tracks cl now addr held t) (rw m room) (rw p ip_room)

  acquire-Tracks :
      (cl : Limiter) (now : ℕ) (addr : Bytes) (held : List Bytes)
      → Tracks cl held
      → Tracks
          (acquire split cl now addr).0
          (if (acquire split cl now addr).1 then ip_of split addr ∷ held else held)
  unfolding acquire
  acquire-Tracks cl now addr held t = elim (Bool-cases (allow split cl now addr).1) [
    | inl h ↦ rw h (acquire_admitted cl now addr held t h)
    | inr h ↦ rw h (allow-Tracks cl now addr held t)
  ]

  -- What can happen to a limiter, one call after the other. `held` lists the hosts of the connections that were admitted and
  -- have not been released; `handleQUICConn` releases a connection once, and only if admitted.
  pub data Runs (m p r : ℕ) : Limiter → List Bytes → Type 0 where
    start : Runs m p r (new m p r) []
    arrives :
        {cl : Limiter} {held : List Bytes} (now : ℕ) (addr : Bytes)
        → Runs m p r cl held
        → Runs m p r
            (acquire split cl now addr).0
            (if (acquire split cl now addr).1 then ip_of split addr ∷ held else held)
    leaves :
        {cl : Limiter} {held : List Bytes} (addr : Bytes)
        → Runs m p r cl held
        → 0 < count (ip_of split addr) held
        → Runs m p r (release split cl addr) (erase (ip_of split addr) held)
    cleans :
        {cl : Limiter} {held : List Bytes} (now : ℕ)
        → Runs m p r cl held
        → Runs m p r (cleanup_old_rate_entries cl now) held

  cleanup-Tracks :
      (cl : Limiter) (now : ℕ) (held : List Bytes)
      → Tracks cl held
      → Tracks (cleanup_old_rate_entries cl now) held
  unfolding cleanup_old_rate_entries
  cleanup-Tracks cl now held t = record {
    active = t.active;
    per_ip = t.per_ip;
    bounded = t.bounded;
    ip_bounded = t.ip_bounded;
  }

  release-Tracks :
      (cl : Limiter) (addr : Bytes) (held : List Bytes)
      → Tracks cl held
      → 0 < count (ip_of split addr) held
      → Tracks (release split cl addr) (erase (ip_of split addr) held)
  unfolding release
  release-Tracks cl addr held t h =
      discharge-Tracks cl (ip_of split addr) held (count (ip_of split addr) held - 1) t
        (omega arith)

  pub Runs-Tracks :
      {m p r : ℕ} {cl : Limiter} {held : List Bytes} → Runs m p r cl held → Tracks cl held
  Runs-Tracks start = new-Tracks _ _ _
  Runs-Tracks (arrives {cl} {held} now addr run) = acquire-Tracks cl now addr held (Runs-Tracks run)
  Runs-Tracks (leaves {cl} {held} addr run h) = release-Tracks cl addr held (Runs-Tracks run) h
  Runs-Tracks (cleans {cl} {held} now run) = cleanup-Tracks cl now held (Runs-Tracks run)

  -- The three limits never change.
  acquire_config :
      (cl : Limiter) (now : ℕ) (addr : Bytes)
      → ((acquire split cl now addr).0.max_conns ≡ cl.max_conns)
        × ((acquire split cl now addr).0.max_per_ip ≡ cl.max_per_ip)
  unfolding acquire allow check_rate_limit admit increment_ip_count
  acquire_config cl now addr = ground arith

  release_config :
      (cl : Limiter) (addr : Bytes)
      → ((release split cl addr).max_conns ≡ cl.max_conns)
        × ((release split cl addr).max_per_ip ≡ cl.max_per_ip)
  unfolding release discharge decrement_ip_count lower_ip_count delete_if
  release_config cl addr = ground arith

  Runs-config :
      {m p r : ℕ} {cl : Limiter} {held : List Bytes}
      → Runs m p r cl held
      → (cl.max_conns ≡ m) × (cl.max_per_ip ≡ p)
  unfolding new cleanup_old_rate_entries
  Runs-config start = (refl, refl)
  Runs-config (arrives {cl} now addr run) =
      let (a, b) = Runs-config run in let (c, d) = acquire_config cl now addr in (c ∙ a, d ∙ b)
  Runs-config (leaves {cl} addr run h) =
      let (a, b) = Runs-config run in let (c, d) = release_config cl addr in (c ∙ a, d ∙ b)
  Runs-config (cleans now run) = Runs-config run

  -- Where the calls of `Acquire` and `Release` come one after the other, so that no `Acquire` comes
  -- between the steps of a `Release`: whatever connections arrive and leave and whenever the cleanup
  -- runs, the counter of active connections is the number of open ones, an address has a count
  -- exactly while it has open connections and it is their number, and neither limit that is set is
  -- ever exceeded.
  pub Runs-bounded :
      {m p r : ℕ} {cl : Limiter} {held : List Bytes}
      → Runs m p r cl held
      → (ip : Bytes)
      → (cl.active_conns ≡ pos (length held))
        × (cl.ip_conns ip ≡ entry (count ip held))
        × Within m (length held)
        × Within p (count ip held)
  Runs-bounded run ip =
      let t = Runs-Tracks run in
      let (a, b) = Runs-config run in
      (t.active, t.per_ip ip, rw (← a) t.bounded, rw (← b) (t.ip_bounded ip))
