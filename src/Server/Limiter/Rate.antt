-- ===== src/Server/Limiter/Rate.antt =====
-- The rate check against a reference that forgets nothing: the times of all the connections that it
-- let in, for each address.
use gunnel.Prelude.{
  ℕ, ◌<◌, ◌≤◌, ◌≡◌, refl, ap, ◌∙◌, arith, List, [], ◌∷◌, Bool, true, false, if◌then◌else◌, Bytes,
  str_eq, str_eq_iff, length, length-append, ltb, Bool-cases, inl, inr,
}
use gunnel.Server.Limiter.{
  Limiter, minute, new, within, timestamps, check_rate_limit, cleanup_old_rate_entries,
}
use gunnel.Server.Limiter.Window.{
  within-append, length-within-le, Remembers, Remembers-clean, Remembers-later, check_decides,
  noted, check_tracker, check-Remembers,
}

-- Checks of any addresses, and cleanups, one after the other, at times that do not go back. `h` is the reference: for
-- each address, the times at which a connection of its was let in.
pub data Timeline (limit : ℕ) : ℕ → Limiter → (Bytes → List ℕ) → Type 0 where
  start : (m p : ℕ) → Timeline limit 0 (new m p limit) (λ ip. [])
  checks :
      {t : ℕ} {cl : Limiter} {h : Bytes → List ℕ} (now : ℕ) (ip : Bytes)
      → Timeline limit t cl h
      → t ≤ now
      → Timeline limit now
          (check_rate_limit cl now ip).0
          (λ j. if str_eq ip j then noted (check_rate_limit cl now ip).1 now (h j) else h j)
  cleans :
      {t : ℕ} {cl : Limiter} {h : Bytes → List ℕ} (now : ℕ)
      → Timeline limit t cl h
      → t ≤ now
      → Timeline limit now (cleanup_old_rate_entries cl now) h

check_other :
    (cl : Limiter) (t now : ℕ) (ip j : Bytes) (h : List ℕ)
    → t ≤ now
    → Remembers t (cl.rate_tracker j) h
    → Remembers now
        ((check_rate_limit cl now ip).0.rate_tracker j)
        (if str_eq ip j then noted (check_rate_limit cl now ip).1 now h else h)
check_other cl t now ip j h le r = elim (Bool-cases (str_eq ip j)) [
  | inl e ↦
      let same : ip ≡ j = (str_eq_iff ip j).0 e in rw (e, same) (check-Remembers cl t now j h le r)
  | inr e ↦ rw (check_tracker cl now ip j, e) (Remembers-later t now _ h le r)
]

check_limit :
    (cl : Limiter) (now : ℕ) (ip : Bytes)
    → (check_rate_limit cl now ip).0.rate_limit ≡ cl.rate_limit
unfolding check_rate_limit
check_limit cl now ip = ground arith

Timeline-Remembers :
    {limit t : ℕ} {cl : Limiter} {h : Bytes → List ℕ}
    → Timeline limit t cl h
    → (cl.rate_limit ≡ limit) × ((j : Bytes) → Remembers t (cl.rate_tracker j) (h j))
unfolding cleanup_old_rate_entries new timestamps
Timeline-Remembers (start m p) = (refl, λ j. record { recent = λ later lt. refl })
Timeline-Remembers (checks {t} {cl} {h} now ip run le) =
    let (e, r) = Timeline-Remembers run in
    (check_limit cl now ip ∙ e, λ j. check_other cl t now ip j (h j) le (r j))
Timeline-Remembers (cleans {t} {cl} {h} now run le) =
    let (e, r) = Timeline-Remembers run in
    (e, λ j. Remembers-clean t now (cl.rate_tracker j) (h j) le (r j))

-- After any checks and cleanups at times that do not go back, where no cleanup comes between the
-- loading and the locking of an entry in a check, the rate check of an address, at any
-- later time, lets it in exactly if fewer than `rateLimit` of its connections were let in during the
-- minute before: dropping old timestamps never changes a decision.
pub check_exact :
    {limit t : ℕ} {cl : Limiter} {h : Bytes → List ℕ} (now : ℕ) (ip : Bytes)
    → Timeline limit t cl h
    → t ≤ now
    → (check_rate_limit cl now ip).1 ≡ ltb (length (within now minute (h ip))) limit
check_exact {limit} {t} {cl} {h} now ip run le =
    let (e, r) = Timeline-Remembers run in
    check_decides cl t now ip (h ip) le (r ip) ∙ ap (ltb (length (within now minute (h ip)))) e

length-noted :
    (b : Bool) (now later limit : ℕ) (h : List ℕ)
    → now ≤ later
    → b ≡ ltb (length (within now minute h)) limit
    → length (within later minute h) ≤ limit
    → length (within later minute (noted b now h)) ≤ limit
length-noted true now later limit h le e small = rw (within-append later minute h (now ∷ [])) (
    omega (
      arith,
      length-append (within later minute h) (within later minute (now ∷ [])),
      length-within-le now later minute h le,
      (let lt : length (within now minute h) < limit = ground arith in lt),
      (let one : length (within later minute (now ∷ [])) ≤ 1 = unfold within in ground arith in
          one),
    ))
length-noted false now later limit h le e small = small

length_checked :
    {limit t : ℕ} {cl : Limiter} {h : Bytes → List ℕ} (now later : ℕ) (ip j : Bytes)
    → Timeline limit t cl h
    → t ≤ now
    → now ≤ later
    → length (within later minute (h j)) ≤ limit
    → length (
        within later minute
          (if str_eq ip j then noted (check_rate_limit cl now ip).1 now (h j) else h j))
      ≤ limit
length_checked {limit} {t} {cl} {h} now later ip j run le lt small =
    elim (Bool-cases (str_eq ip j)) [
      | inl e ↦
          let same : ip ≡ j = (str_eq_iff ip j).0 e in
          rw (e, same)
            (length-noted (check_rate_limit cl now j).1 now later limit (h j) lt
              (check_exact now j run le) small)
      | inr e ↦ rw e small
    ]

-- Where no cleanup comes between the loading and the locking of an entry in a check, and times do not
-- go back, at no time have more than `rateLimit` connections of one address been let in during the minute
-- before, counted over the whole history.
pub Timeline-bounded :
    {limit t : ℕ} {cl : Limiter} {h : Bytes → List ℕ} (later : ℕ) (ip : Bytes)
    → Timeline limit t cl h
    → t ≤ later
    → length (within later minute (h ip)) ≤ limit
Timeline-bounded later ip (start m p) le = unfold within in omega arith
Timeline-bounded later j (checks now ip run le) lt =
    length_checked now later ip j run le lt (Timeline-bounded later j run (omega arith))
Timeline-bounded later ip (cleans now run le) lt = Timeline-bounded later ip run (omega arith)
