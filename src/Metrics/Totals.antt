-- ===== src/Metrics/Totals.antt =====
-- The totals of the collector against the traffic of the streams, and what the cleanup takes away.
use gunnel.Prelude.{
  ℕ, zero, suc, ◌+◌, ◌<◌, ◌≡◌, ◌≢◌, refl, ap, arith, List, [], ◌∷◌, true, false, ◌||◌, Bytes, ltb,
  ◌==◌, length, if◌then◌else◌, Bool-cases, inl, inr,
}
use gunnel.Metrics.{
  StreamInfo, Collector, set_info, new_info, fresh_info, set_subdomain, update_in, update_out,
  inactive, is_kept, sweep, cleanup_old_streams,
}

-- The sum of `f` below `n`.
pub sum_below : ℕ → (ℕ → ℕ) → ℕ
sum_below zero f = 0
sum_below (suc n) f = sum_below n f + f n

sum_below-same :
    (n : ℕ) (f g : ℕ → ℕ) → ((p : ℕ) → p < n → f p ≡ g p) → sum_below n f ≡ sum_below n g
unfolding sum_below
sum_below-same zero f g h = refl
sum_below-same (suc n) f g h =
    omega (arith, sum_below-same n f g (λ p l. h p (omega arith)), h n (omega arith))

-- One value goes up by `k`.
sum_below-add :
    (n : ℕ) (f g : ℕ → ℕ) (p k : ℕ)
    → p < n
    → g p ≡ f p + k
    → ((q : ℕ) → q ≢ p → g q ≡ f q)
    → sum_below n g ≡ sum_below n f + k
unfolding sum_below
sum_below-add zero f g p k l e h = absurd (omega arith)
sum_below-add (suc n) f g p k l e h = elim (Bool-cases (p == n)) [
  | inl y ↦
      (let same : p ≡ n = ground arith in
        let below = sum_below-same n g f (λ q m. h q (λ z. absurd (omega (arith, z, same)))) in
        omega (arith, below, ap g same, ap f same))
  | inr off ↦
      (let apart : p ≢ n = λ z. absurd (ground (arith, z)) in
        omega
          (arith, sum_below-add n f g p k (omega arith) e h, h n (λ z. apart (omega (arith, z)))))
]

-- What the program does with its streams, and the cleanups.
pub data Runs : Collector → Type 0 where
  start :
      (infos : ℕ → StreamInfo)
      → Runs (record { infos = infos; next = 0; streams = []; total_in = 0; total_out = 0 })
  opens : {c : Collector} (now : ℕ) (id : Bytes) → Runs c → Runs (new_info c now id).0
  names : {c : Collector} (p : ℕ) (s : Bytes) → Runs c → p < c.next → Runs (set_subdomain c p s)
  receives : {c : Collector} (p n now : ℕ) → Runs c → p < c.next → Runs (update_in c p n now)
  transmits : {c : Collector} (p n now : ℕ) → Runs c → p < c.next → Runs (update_out c p n now)
  stops : {c : Collector} (p now : ℕ) → Runs c → p < c.next → Runs (inactive c p now)
  cleans : {c : Collector} (now age : ℕ) → Runs c → Runs (cleanup_old_streams c now age).0

abbrev Balanced : Collector → Type 0
Balanced c =
    (c.total_in ≡ sum_below c.next (λ p. (c.infos p).bytes_received))
    × (c.total_out ≡ sum_below c.next (λ p. (c.infos p).bytes_sent))

-- A change of one stream that adds `a` and `b` to its traffic.
set_info-sum :
    (c : Collector) (p a b : ℕ) (s : StreamInfo)
    → p < c.next
    → s.bytes_received ≡ (c.infos p).bytes_received + a
    → s.bytes_sent ≡ (c.infos p).bytes_sent + b
    → (sum_below c.next (λ q. ((set_info c p s).infos q).bytes_received)
        ≡ sum_below c.next (λ q. (c.infos q).bytes_received) + a)
      × (sum_below c.next (λ q. ((set_info c p s).infos q).bytes_sent)
          ≡ sum_below c.next (λ q. (c.infos q).bytes_sent) + b)
unfolding set_info
set_info-sum c p a b s l e f = (
  sum_below-add c.next _ _ p a l (ground (arith, e)) (λ q n. ground (arith, n)),
  sum_below-add c.next _ _ p b l (ground (arith, f)) (λ q n. ground (arith, n)),
)

new_info-Balanced :
    (c : Collector) (now : ℕ) (id : Bytes) → Balanced c → Balanced (new_info c now id).0
unfolding new_info set_info fresh_info sum_below
new_info-Balanced c now id (i, o) =
    let own : (c.next == c.next) ≡ true = ground arith in
    (
      ground (
        arith,
        i,
        sum_below-same c.next (λ q. (c.infos q).bytes_received)
            (λ q. (if q == c.next then fresh_info now id else c.infos q).bytes_received)
            (λ q l. ground (arith, l)),
      ),
      ground (
        arith,
        o,
        sum_below-same c.next (λ q. (c.infos q).bytes_sent)
            (λ q. (if q == c.next then fresh_info now id else c.infos q).bytes_sent)
            (λ q l. ground (arith, l)),
      ),
    )

Runs-Balanced : {c : Collector} → Runs c → Balanced c
unfolding set_subdomain update_in update_out inactive cleanup_old_streams set_info sum_below
Runs-Balanced (start infos) = (unfold sum_below in refl, unfold sum_below in refl)
Runs-Balanced (opens {c} now id run) = new_info-Balanced c now id (Runs-Balanced run)
Runs-Balanced (names {c} p s run l) =
    let (i, o) = Runs-Balanced run in
    let (a, b) =
      set_info-sum c p 0 0 (record (c.infos p) { subdomain = s }) l (omega arith) (omega arith) in
    (omega (arith, i, a), omega (arith, o, b))
Runs-Balanced (receives {c} p n now run l) =
    let (i, o) = Runs-Balanced run in
    let (a, b) =
      set_info-sum c p n 0
        (record (c.infos p) { bytes_received = (c.infos p).bytes_received + n; last_active = now })
        l refl (omega arith) in
    (omega (arith, i, a), omega (arith, o, b))
Runs-Balanced (transmits {c} p n now run l) =
    let (i, o) = Runs-Balanced run in
    let (a, b) =
      set_info-sum c p 0 n
        (record (c.infos p) { bytes_sent = (c.infos p).bytes_sent + n; last_active = now }) l
        (omega arith) refl in
    (omega (arith, i, a), omega (arith, o, b))
Runs-Balanced (stops {c} p now run l) =
    let (i, o) = Runs-Balanced run in
    let (a, b) =
      set_info-sum c p 0 0 (record (c.infos p) { is_active = false; last_active = now }) l
        (omega arith) (omega arith) in
    (omega (arith, i, a), omega (arith, o, b))
Runs-Balanced (cleans now age run) = Runs-Balanced run

-- Whatever streams are opened, named, used and stopped, and whenever the cleanup runs, the two totals
-- are the sums of what all the streams ever opened have received and sent: the cleanup loses none of
-- the traffic of the streams that it takes off the list.
pub Runs-totals :
    {c : Collector}
    → Runs c
    → (c.total_in ≡ sum_below c.next (λ p. (c.infos p).bytes_received))
      × (c.total_out ≡ sum_below c.next (λ p. (c.infos p).bytes_sent))
Runs-totals run = Runs-Balanced run

-- How often a stream is on a list.
pub times : ℕ → List ℕ → ℕ
times p [] = 0
times p (q ∷ ps) = let rest = times p ps in if q == p then suc rest else rest

sweep-times :
    (infos : ℕ → StreamInfo) (now age p : ℕ) (ps : List ℕ)
    → times p (sweep infos now age ps).0 ≡ (if is_kept now age (infos p) then times p ps else 0)
unfolding sweep times
sweep-times infos now age p [] = ground arith
sweep-times infos now age p (q ∷ ps) = elim (Bool-cases (q == p)) [
  | inl y ↦
      (let same : q ≡ p = ground arith in rw same (ground (arith, sweep-times infos now age p ps)))
  | inr off ↦ ground (arith, off, sweep-times infos now age p ps)
]

sweep-length :
    (infos : ℕ → StreamInfo) (now age : ℕ) (ps : List ℕ)
    → length (sweep infos now age ps).0 + (sweep infos now age ps).1 ≡ length ps
unfolding sweep
sweep-length infos now age [] = refl
sweep-length infos now age (p ∷ ps) = ground (arith, sweep-length infos now age ps)

-- The cleanup keeps a stream on the list exactly if it is active or was so after the cutoff, changes
-- no stream, and returns by how much it shortens the list.
pub cleanup_old_streams-keeps :
    (c : Collector) (now age p : ℕ)
    → (times p (cleanup_old_streams c now age).0.streams ≡ (
        if (c.infos p).is_active || ltb now ((c.infos p).last_active + age)
        then times p c.streams
        else 0))
      × ((cleanup_old_streams c now age).0.infos p ≡ c.infos p)
      × (length (cleanup_old_streams c now age).0.streams + (cleanup_old_streams c now age).1
          ≡ length c.streams)
unfolding cleanup_old_streams is_kept
cleanup_old_streams-keeps c now age p =
    (sweep-times c.infos now age p c.streams, refl, sweep-length c.infos now age c.streams)
