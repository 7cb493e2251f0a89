-- ===== src/Server/Limiter/Ledger.antt =====
-- The limiter against the list of the addresses whose connections are open.
use gunnel.Prelude.{
  ℕ, zero, suc, ◌+◌, ◌-◌, ◌<◌, ◌⊎◌, ◌≤◌, ◌≡◌, refl, ap, ◌∙◌, arith, List, [], ◌∷◌, Option, none,
  some, Bytes, str_eq, str_eq_refl, str_eq_iff, length, if◌then◌else◌,
}
use gunnel.Prelude.Int.{ℤ, pos, negsuc, ◌+ℤ◌}
use gunnel.Server.Limiter.{
  Limiter, new, get_ip_count, increment_ip_count, lower_ip_count, delete_if, decrement_ip_count,
  admit, discharge,
}

-- How many of the open connections come from `ip`.
unfoldable pub count : Bytes → List Bytes → ℕ
count ip [] = 0
count ip (h ∷ held) = let rest = count ip held in if str_eq h ip then suc rest else rest

-- One connection from `ip` is closed.
pub erase : Bytes → List Bytes → List Bytes
erase ip [] = []
erase ip (h ∷ held) = let rest = erase ip held in if str_eq h ip then held else h ∷ rest

count-erase :
    (ip j : Bytes) (held : List Bytes)
    → count j (erase ip held) ≡ (if str_eq ip j then count j held - 1 else count j held)
unfolding count erase
count-erase ip j [] = ground arith
count-erase ip j (h ∷ held) =
    ground (arith, count-erase ip j held, str_eq_iff h ip, str_eq_iff h j, str_eq_iff ip j)

length-erase :
    (ip : Bytes) (held : List Bytes) → 0 < count ip held → length (erase ip held) + 1 ≡ length held
unfolding count erase
length-erase ip [] h = absurd (omega arith)
length-erase ip (x ∷ held) h = ground (arith, length-erase ip held)

-- What the map of counts holds for an address with `n` open connections.
abbrev pub entry : ℕ → Option ℤ
entry zero = none
entry (suc n) = some (pos (suc n))

-- A limit of 0 is none.
abbrev pub Within : ℕ → ℕ → Type 0
Within limit n = (limit ≡ 0) ⊎ (n ≤ limit)

abbrev pub Below : ℕ → ℕ → Type 0
Below limit n = (limit ≡ 0) ⊎ (n < limit)

pub record Tracks (cl : Limiter) (held : List Bytes) : Type 0 where
  pub active : cl.active_conns ≡ pos (length held)
  pub per_ip : (ip : Bytes) → cl.ip_conns ip ≡ entry (count ip held)
  pub bounded : Within cl.max_conns (length held)
  pub ip_bounded : (ip : Bytes) → Within cl.max_per_ip (count ip held)

pub new-Tracks : (m p r : ℕ) → Tracks (new m p r) []
unfolding new count
new-Tracks m p r = record {
  active = refl;
  per_ip = λ ip. refl;
  bounded = ground arith;
  ip_bounded = λ ip. ground arith;
}

pub get_ip_count-Tracks :
    (cl : Limiter) (ip : Bytes) (n : ℕ) → cl.ip_conns ip ≡ entry n → get_ip_count cl ip ≡ pos n
unfolding get_ip_count
get_ip_count-Tracks cl ip zero e = rw (e, get_ip_count) refl
get_ip_count-Tracks cl ip (suc n) e = rw (e, get_ip_count) refl

-- The count that the map holds goes up and down with the number of open connections.
count_up :
    (cl : Limiter) (ip : Bytes) (n : ℕ)
    → cl.ip_conns ip ≡ entry n
    → some (get_ip_count cl ip +ℤ pos 1) ≡ entry (suc n)
unfolding get_ip_count ◌+ℤ◌
count_up cl ip zero e = rw (e, get_ip_count) refl
count_up cl ip (suc n) e = rw (e, get_ip_count) (ground arith)

pub admit-Tracks :
    (cl : Limiter) (ip : Bytes) (held : List Bytes)
    → Tracks cl held
    → Below cl.max_conns (length held)
    → Below cl.max_per_ip (count ip held)
    → Tracks (admit cl ip) (ip ∷ held)
unfolding admit increment_ip_count count
admit-Tracks cl ip held t room ip_room = record {
  active = unfold ◌+ℤ◌ in ground (arith, t.active);
  per_ip = λ j. ground (
    arith,
    t.per_ip j,
    str_eq_iff ip j,
    count_up (record cl { active_conns = cl.active_conns +ℤ pos 1 }) ip (count ip held)
        (t.per_ip ip),
  );
  bounded = ground (arith, room);
  ip_bounded = λ j. ground (arith, t.ip_bounded j, ip_room, str_eq_iff ip j);
}

decrement-entry :
    (cl : Limiter) (ip j : Bytes) (n m : ℕ)
    → cl.ip_conns ip ≡ entry (suc n)
    → cl.ip_conns j ≡ entry m
    → (decrement_ip_count cl ip).ip_conns j ≡ (if str_eq ip j then entry n else entry m)
unfolding decrement_ip_count lower_ip_count delete_if ◌+ℤ◌
decrement-entry cl ip j zero m e f = rw (e, lower_ip_count) (ground arith)
decrement-entry cl ip j (suc n) m e f = rw (e, lower_ip_count) (ground arith)

decrement_keeps :
    (cl : Limiter) (ip : Bytes)
    → ((decrement_ip_count cl ip).active_conns ≡ cl.active_conns)
      × ((decrement_ip_count cl ip).max_conns ≡ cl.max_conns)
      × ((decrement_ip_count cl ip).max_per_ip ≡ cl.max_per_ip)
unfolding decrement_ip_count lower_ip_count delete_if
decrement_keeps cl ip = ground arith

length_down : (n m : ℕ) → n + 1 ≡ m → pos m +ℤ negsuc 0 ≡ pos n
unfolding ◌+ℤ◌
length_down n m e = ground arith

pub discharge-Tracks :
    (cl : Limiter) (ip : Bytes) (held : List Bytes) (n : ℕ)
    → Tracks cl held
    → count ip held ≡ suc n
    → Tracks (discharge cl ip) (erase ip held)
unfolding discharge
discharge-Tracks cl ip held n t e =
    let fewer = record cl { active_conns = cl.active_conns +ℤ negsuc 0 } in
    let kept = decrement_keeps fewer ip in
    let shorter = length-erase ip held (omega arith) in
    record {
      active = kept.0 ∙ ap (λ a. a +ℤ negsuc 0) t.active ∙ length_down _ _ shorter;
      per_ip = λ j. ground (
        arith,
        count-erase ip j held,
        str_eq_iff ip j,
        decrement-entry fewer ip j n (count j held) (t.per_ip ip ∙ ap entry e) (t.per_ip j),
      );
      bounded = rw kept.1 (ground (arith, t.bounded));
      ip_bounded = λ j. rw kept.2 (ground (arith, t.ip_bounded j, count-erase ip j held));
    }

-- The connection that was admitted last is closed.
pub erase-head :
    (ip : Bytes) (held : List Bytes) → (erase ip (ip ∷ held) ≡ held) × (0 < count ip (ip ∷ held))
unfolding erase count
erase-head ip held = rw (str_eq_refl ip) (refl, omega arith)

-- The only connection of an address is closed, and another one opened.
pub count_again :
    (ip : Bytes) (held : List Bytes) → count ip held ≡ 1 → count ip (ip ∷ erase ip held) ≡ 1
unfolding count
count_again ip held one =
    let none_left : count ip (erase ip held) ≡ 0 =
      count-erase ip ip held ∙ rw (str_eq_refl ip, one) refl in
    rw (str_eq_refl ip, none_left) refl
