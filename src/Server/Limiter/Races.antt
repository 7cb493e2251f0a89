-- ===== src/Server/Limiter/Races.antt =====
-- What is lost when another goroutine comes between the steps of `Release`, or between the two of
-- `checkRateLimit`, of pkg/server/connlimiter.go.
use gunnel.Prelude.{
  ℕ, ◌*◌, ◌<◌, ◌≤◌, ◌≡◌, refl, sym, ◌∙◌, ap, arith, List, [], ◌∷◌, Bool, true, false, Option, none,
  some, Bytes, leb, length, str_eq_refl,
}
use gunnel.Prelude.Int.{ℤ, pos, negsuc, ◌+ℤ◌, int_laws}
use gunnel.Prelude.Maps.{put}
use gunnel.Server.Limiter.{
  Limiter, minute, within, timestamps, check_entry, check_rate_limit, clean_entry,
  cleanup_old_rate_entries, increment_ip_count, admit, lower_ip_count, delete_if, ip_of, allow,
  acquire,
}
use gunnel.Server.Limiter.Ledger.{count, erase, count_again, Tracks, entry}
use gunnel.Server.Limiter.Window.{within-within}

-- A `Release` up to the `Add` of `decrementIPCount`.
abbrev pub begun_release : Limiter → Bytes → Limiter × Bool
begun_release cl ip = lower_ip_count (record cl { active_conns = cl.active_conns +ℤ negsuc 0 }) ip

begun_release_last :
    (cl : Limiter) (ip : Bytes) → cl.ip_conns ip ≡ some (pos 1) → (begun_release cl ip).1 ≡ true
unfolding lower_ip_count ◌+ℤ◌
begun_release_last cl ip e = rw (e, lower_ip_count) refl

begun_release_active :
    (cl : Limiter) (ip : Bytes) → (begun_release cl ip).0.active_conns ≡ cl.active_conns +ℤ negsuc 0
unfolding lower_ip_count
begun_release_active cl ip = ground arith

down_up : (a : ℤ) → (a +ℤ negsuc 0) +ℤ pos 1 ≡ a
down_up a = grind int_laws

module _ (split : Bytes → Option Bytes) where
  acquire_active :
      (cl : Limiter) (now : ℕ) (addr : Bytes)
      → (acquire split cl now addr).1 ≡ true
      → (acquire split cl now addr).0.active_conns ≡ cl.active_conns +ℤ pos 1
  unfolding acquire allow check_rate_limit admit increment_ip_count
  acquire_active cl now addr e = ground (arith, e)

  -- While the counts are right, a `Release` of the only connection of an address has lowered its
  -- count to 0, another connection of the address is then let in, and the `Release` goes on to
  -- delete the count: one connection of the address is open, the counter of all connections has it,
  -- and the address has no count.
  pub delete_if-forgets :
      (cl : Limiter) (now : ℕ) (old new : Bytes) (held : List Bytes)
      → Tracks cl held
      → count (ip_of split old) held ≡ 1
      → ip_of split new ≡ ip_of split old
      → (acquire split (begun_release cl (ip_of split old)).0 now new).1 ≡ true
      → let ip = ip_of split old in
        let (begun, last) = begun_release cl ip in
        let cl' = delete_if last (acquire split begun now new).0 ip in
        (cl'.ip_conns ip ≡ none)
        × (cl'.active_conns ≡ pos (length held))
        × (count ip (ip_of split new ∷ erase ip held) ≡ 1)
  unfolding delete_if
  delete_if-forgets cl now old new held t one same ok =
      let ip = ip_of split old in
      let last = begun_release_last cl ip (t.per_ip ip ∙ ap entry one) in
      rw (last, same)
        (
          rw (str_eq_refl ip) refl,
          acquire_active (begun_release cl ip).0 now new ok
              ∙ ap (λ a. a +ℤ pos 1) (begun_release_active cl ip)
              ∙ down_up cl.active_conns
              ∙ t.active,
          count_again ip held one,
        )

-- `checkRateLimit` that has loaded an entry, then a cleanup at `cleaned`, then the rest of the check,
-- on an entry that is not in the map any more.
abbrev pub orphaned_check : Limiter → ℕ → ℕ → Bytes → Limiter × Bool
orphaned_check cl cleaned now ip =
    let ts = timestamps (cl.rate_tracker ip) in
    let loaded = record cl { rate_tracker = put cl.rate_tracker ip ts } in
    (cleanup_old_rate_entries loaded cleaned, (check_entry cl.rate_limit now ts).1)

-- A check loads an entry whose timestamps are all older than two minutes, or a new one, the cleanup
-- deletes it, and the check goes on: the connection is let in, and the next check of the address,
-- however soon, lets another in and counts that alone.
pub orphaned_check-forgets :
    (cl : Limiter) (cleaned now later : ℕ) (ip : Bytes)
    → 0 < cl.rate_limit
    → within cleaned (2 * minute) (timestamps (cl.rate_tracker ip)) ≡ []
    → cleaned ≤ now
    → let (cl', ok) = orphaned_check cl cleaned now ip in
      let (cl'', next) = check_rate_limit cl' later ip in
      (ok ≡ true) × (next ≡ true) × (cl''.rate_tracker ip ≡ some (later ∷ []))
unfolding cleanup_old_rate_entries check_rate_limit
orphaned_check-forgets cl cleaned now later ip room old le =
    let ts = timestamps (cl.rate_tracker ip) in
    let gone : within now minute ts ≡ [] =
      sym (within-within cleaned now minute (2 * minute) ts le (omega arith))
      ∙ ap (within now minute) old
      ∙ (unfold within in refl) in
    let deleted : clean_entry cleaned (some ts) ≡ none = unfold clean_entry in rw old refl in
    let some_room : leb cl.rate_limit 0 ≡ false = ground (arith, room) in
    rw (gone, str_eq_refl ip)
      (rw deleted (unfold timestamps within in rw some_room (refl, refl, refl)))
