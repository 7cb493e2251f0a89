-- ===== src/Server/Limiter/Window.antt =====
-- What an entry of the rate tracker keeps of the history of its address.
use gunnel.Prelude.{
  ℕ, ◌*◌, ◌≤◌, ◌≡◌, refl, ap, ◌∙◌, sym, arith, List, [], ◌∷◌, ◌++◌, Bool, true, false,
  if◌then◌else◌, Option, none, some, Bytes, str_eq, str_eq_refl, length, ltb, ◌==◌, Bool-cases, inl,
  inr,
}
use gunnel.Server.Limiter.{Limiter, minute, within, timestamps, check_rate_limit, clean_entry}

pub within-append :
    (now span : ℕ) (xs ys : List ℕ)
    → within now span (xs ++ ys) ≡ within now span xs ++ within now span ys
unfolding within
within-append now span [] ys = refl
within-append now span (x ∷ xs) ys = ground (arith, within-append now span xs ys)

-- What was dropped for an earlier time or a longer span would be dropped anyway.
pub within-within :
    (now later span wide : ℕ) (ts : List ℕ)
    → now ≤ later
    → span ≤ wide
    → within later span (within now wide ts) ≡ within later span ts
unfolding within
within-within now later span wide [] h k = refl
within-within now later span wide (t ∷ ts) h k =
    ground (arith, within-within now later span wide ts)

pub length-within-le :
    (now later span : ℕ) (ts : List ℕ)
    → now ≤ later
    → length (within later span ts) ≤ length (within now span ts)
unfolding within
length-within-le now later span [] h = omega arith
length-within-le now later span (t ∷ ts) h = ground (arith, length-within-le now later span ts)

-- An entry serves from time `now` on as well as the whole history does.
pub record Remembers (now : ℕ) (o : Option (List ℕ)) (history : List ℕ) : Type 0 where
  pub recent :
      (later : ℕ) → now ≤ later → within later minute (timestamps o) ≡ within later minute history

nil_of_length : (ts : List ℕ) → length ts ≡ 0 → ts ≡ []
nil_of_length [] e = refl
nil_of_length (t ∷ ts) e = absurd (omega arith)

within-clean :
    (now later : ℕ) (o : Option (List ℕ))
    → now ≤ later
    → within later minute (timestamps (clean_entry now o)) ≡ within later minute (timestamps o)
unfolding timestamps clean_entry
within-clean now later none h = refl
within-clean now later (some ts) h =
    let kept = within-within now later minute (2 * minute) ts h (omega arith) in
    elim (Bool-cases (length (within now (2 * minute) ts) == 0)) [
      | inl e ↦
          let gone : within now (2 * minute) ts ≡ [] = nil_of_length _ (ground arith) in
          rw (e, clean_entry) (rw gone at kept)
      | inr e ↦ rw (e, clean_entry) kept
    ]

pub Remembers-clean :
    (t now : ℕ) (o : Option (List ℕ)) (h : List ℕ)
    → t ≤ now
    → Remembers t o h
    → Remembers now (clean_entry now o) h
Remembers-clean t now o h le r = record {
  recent = λ later lt. within-clean now later o lt ∙ r.recent later (omega arith);
}

pub Remembers-later :
    (t now : ℕ) (o : Option (List ℕ)) (h : List ℕ) → t ≤ now → Remembers t o h → Remembers now o h
Remembers-later t now o h le r = record { recent = λ later lt. r.recent later (omega arith) }

-- One check of an address at `now`.
pub check_decides :
    (cl : Limiter) (t now : ℕ) (ip : Bytes) (h : List ℕ)
    → t ≤ now
    → Remembers t (cl.rate_tracker ip) h
    → (check_rate_limit cl now ip).1 ≡ ltb (length (within now minute h)) cl.rate_limit
unfolding check_rate_limit
check_decides cl t now ip h le r = ground (arith, r.recent now le)

-- The history after the check.
abbrev pub noted : Bool → ℕ → List ℕ → List ℕ
noted b now h = if b then h ++ now ∷ [] else h

-- What a check leaves in the tracker.
pub check_tracker :
    (cl : Limiter) (now : ℕ) (ip j : Bytes)
    → (check_rate_limit cl now ip).0.rate_tracker j ≡ (
        if str_eq ip j
        then some (
            noted
              (check_rate_limit cl now ip).1
              now
              (within now minute (timestamps (cl.rate_tracker ip))))
        else cl.rate_tracker j)
unfolding check_rate_limit
check_tracker cl now ip j = ground arith

within-noted :
    (b : Bool) (now later : ℕ) (ts h : List ℕ)
    → now ≤ later
    → within later minute ts ≡ within later minute h
    → within later minute (noted b now (within now minute ts)) ≡ within later minute (noted b now h)
within-noted true now later ts h le e =
    within-append later minute (within now minute ts) (now ∷ [])
    ∙ ap (λ x. x ++ within later minute (now ∷ []))
        (within-within now later minute minute ts le (omega arith) ∙ e)
    ∙ sym (within-append later minute h (now ∷ []))
within-noted false now later ts h le e =
    within-within now later minute minute ts le (omega arith) ∙ e

pub check-Remembers :
    (cl : Limiter) (t now : ℕ) (ip : Bytes) (h : List ℕ)
    → t ≤ now
    → Remembers t (cl.rate_tracker ip) h
    → Remembers now
        ((check_rate_limit cl now ip).0.rate_tracker ip)
        (noted (check_rate_limit cl now ip).1 now h)
unfolding timestamps
check-Remembers cl t now ip h le r = record {
  recent = λ later lt.
      rw (check_tracker cl now ip ip, str_eq_refl ip)
        (within-noted (check_rate_limit cl now ip).1 now later (timestamps (cl.rate_tracker ip)) h
          lt (r.recent later (omega arith)));
}
