-- ===== src/Tunnel/Copy.antt =====
-- When `copy` returns, and what it has written by then; closing a tunnel.
use gunnel.Prelude.{
  ℕ, zero, suc, ◌+◌, subst, ◌≡◌, ◌≢◌, ◌⊎◌, refl, arith, [], ◌++◌, ◌∷◌, Bool, true, false, Option,
  none, some, Bytes, ltb, length, if◌then◌else◌,
}
use gunnel.Tunnel.{
  ReadStatus, fine, ended, broken, ReadResult, Copied, finished, read_failed, write_failed, CopyEnd,
  after_bytes, round, copy_loop, copy, CloseStatus, closes, already_closed, fails, Tunnel,
  close_remote, close,
}

unfoldable pub stop_of : ReadResult → Bool → Option Copied
stop_of r written = elim r.status [
  | ended ↦ some finished
  | broken ↦ some read_failed
  | fine ↦
      if ltb 0 (length r.data_read) then (if written then none else some write_failed) else none
]

round_goes :
    (b : Bytes) (s : ReadStatus) (w : Bool) (later : Option CopyEnd)
    → stop_of (record { data_read = b; status = s }) w ≡ none
    → round (record { data_read = b; status = s }) w later ≡ after_bytes b later
unfolding stop_of round after_bytes
round_goes b ended w later h = absurd (ground (arith, h))
round_goes b broken w later h = absurd (ground (arith, h))
round_goes [] fine w none h = ground arith
round_goes [] fine w (some (later, r)) h = ground arith
round_goes (x ∷ b) fine w later h = ground (arith, h)

round_stops :
    (r : ReadResult) (w : Bool) (later : Option CopyEnd) (c : Copied)
    → stop_of r w ≡ some c
    → round r w later ≡ some ([], c)
unfolding stop_of round
round_stops r w later c h = ground (arith, h)

module _ (reads : ℕ → ReadResult) (writes : ℕ → Bool) where
  -- How round `i` of the loop ends the copy, none if the copy goes on.
  abbrev pub stop : ℕ → Option Copied
  stop i = stop_of (reads i) (writes i)

  -- The bytes of `n` calls of `Read` from the call `i` on.
  unfoldable pub chunks : ℕ → ℕ → Bytes
  chunks i zero = []
  chunks i (suc n) = (reads i).data_read ++ chunks (i + 1) n

  -- No round of the `n` from `i` on ends the copy.
  pub data GoesOn : ℕ → ℕ → Type 0 where
    at_once : {i : ℕ} → GoesOn i 0
    next : {i n : ℕ} → stop i ≡ none → GoesOn (i + 1) n → GoesOn i (suc n)

  round_on :
      (fuel i : ℕ)
      → stop i ≡ none
      → copy_loop reads writes (suc fuel) i
        ≡ after_bytes (reads i).data_read (copy_loop reads writes fuel (i + 1))
  unfolding copy_loop
  round_on fuel i h =
      round_goes (reads i).data_read (reads i).status (writes i)
        (copy_loop reads writes fuel (i + 1)) h

  round_off :
      (fuel i : ℕ) (r : Copied)
      → stop i ≡ some r
      → copy_loop reads writes (suc fuel) i ≡ some ([], r)
  unfolding copy_loop
  round_off fuel i r h = round_stops (reads i) (writes i) (copy_loop reads writes fuel (i + 1)) r h

  loop_returns :
      (i n j : ℕ) (r : Copied)
      → GoesOn i n
      → j ≡ i + n
      → stop j ≡ some r
      → copy_loop reads writes (suc n) i ≡ some (chunks i n, r)
  unfolding chunks
  loop_returns i zero j r at_once e h =
      round_off 0 i r (subst (λ k. stop k ≡ some r) (omega (arith, e)) h)
  loop_returns i (suc n) j r (next s g) e h =
      rw (round_on (suc n) i s, loop_returns (i + 1) n j r g (omega (arith, e)) h)
        (unfold after_bytes in refl)

  loop_runs : (i n : ℕ) → GoesOn i n → copy_loop reads writes n i ≡ none
  loop_runs i zero at_once = unfold copy_loop in refl
  loop_runs i (suc n) (next s g) =
      rw (round_on n i s, loop_runs (i + 1) n g) (unfold after_bytes in refl)

  -- `copy` returns at the first call of `Read` that says an error or whose bytes cannot be written,
  -- not earlier, with no error exactly for the end of the source or a closed connection, and has
  -- then written the bytes of all calls before it, in their order; bytes that come together with an
  -- error are not written.
  pub copy-returns :
      (n : ℕ) (r : Copied)
      → GoesOn 0 n
      → stop n ≡ some r
      → (copy reads writes false (suc n) ≡ some (chunks 0 n, r))
        × (copy reads writes false n ≡ none)
  unfolding copy
  copy-returns n r g h = (loop_returns 0 n n r g (omega arith) h, loop_runs 0 n g)

-- After `Close` has returned no error both ends are gone, closing again closes nothing and returns
-- no error; if the local end cannot be closed the remote end is not touched; and if only the remote
-- one cannot, closing again closes just that one.
pub close_cases :
    (l r l' r' : CloseStatus) (t : Tunnel)
    → t.local ≡ true
    → t.remote ≡ true
    → (((close l r t).1 ≡ true)
        × (close l' r' (close l r t).0 ≡ ((close l r t).0, true))
        × ((close l r t).0.local ≡ false)
        × ((close l r t).0.remote ≡ false))
      ⊎ ((l ≡ fails)
          × ((close l r t).1 ≡ false)
          × ((close l r t).0.remote_closes ≡ t.remote_closes)
          × ((close l r t).0.local ≡ true))
      ⊎ ((l ≢ fails)
          × ((close l r t).1 ≡ false)
          × ((close l r t).0.local ≡ false)
          × ((close closes closes (close l r t).0).1 ≡ true)
          × ((close closes closes (close l r t).0).0.local_closes ≡ (close l r t).0.local_closes))
unfolding close close_remote
close_cases fails r l' r' t a b = ground (arith, a, b)
close_cases closes closes l' r' t a b = ground (arith, a, b)
close_cases closes fails l' r' t a b = ground (arith, a, b)
close_cases closes already_closed l' r' t a b = ground (arith, a, b)
close_cases already_closed closes l' r' t a b = ground (arith, a, b)
close_cases already_closed fails l' r' t a b = ground (arith, a, b)
close_cases already_closed already_closed l' r' t a b = ground (arith, a, b)
