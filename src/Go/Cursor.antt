-- ===== src/Go/Cursor.antt =====
-- Reading a slice from the front: `Rest p i r` says that `r` is what is left of `p` from offset `i`
-- on, and each reading step moves the offset past what it reads.
use gunnel.Prelude.{
  ℕ, zero, suc, ◌+◌, ◌-◌, ◌^◌, ◌<◌, ◌≤◌, ◌≡◌, refl, ap, ◌∙◌, arith, [], ◌∷◌, ◌++◌, length, take,
  drop, length-append, length-drop, Bytes,
}
use gunnel.Go.Slices.{done, ◌>>=◌, at, slice, slice_from, be_uint32, be_bytes}

pub record Rest (p : Bytes) (i : ℕ) (r : Bytes) : Type 0 where
  pub inside : i ≤ length p
  pub left : drop i p ≡ r

pub Rest-zero : (p : Bytes) → Rest p 0 p
Rest-zero p = record { inside = omega arith; left = refl }

drop-add : (p : Bytes) (i j : ℕ) → drop (i + j) p ≡ drop j (drop i p)
drop-add p zero j = let e : 0 + j ≡ j = omega arith in rw e
drop-add [] (suc i) zero = let e : suc i + 0 ≡ suc i = omega arith in rw e
drop-add [] (suc i) (suc j) = let e : suc i + suc j ≡ suc (i + suc j) = omega arith in rw e
drop-add (x ∷ p) (suc i) j = let e : suc i + j ≡ suc (i + j) = omega arith in rw e (drop-add p i j)

pub take-append : (xs r : Bytes) → take (length xs) (xs ++ r) ≡ xs
take-append [] r = refl
take-append (x ∷ xs) r = ap (◌∷◌ x) (take-append xs r)

pub drop-append : (xs r : Bytes) → drop (length xs) (xs ++ r) ≡ r
drop-append [] r = refl
drop-append (x ∷ xs) r = drop-append xs r

-- What is left is as long as the bytes from the offset on.
pub length-Rest : {p : Bytes} {i : ℕ} {r : Bytes} → Rest p i r → i + length r ≡ length p
length-Rest {p} {i} c = omega (arith, ap length c.left, length-drop i p, c.inside)

pub Rest-add :
    {p : Bytes} {i : ℕ} (xs : Bytes) {r : Bytes} → Rest p i (xs ++ r) → Rest p (i + length xs) r
Rest-add {p} {i} xs {r} c = record {
  inside = omega (arith, length-Rest c, length-append xs r);
  left = drop-add p i (length xs) ∙ ap (drop (length xs)) c.left ∙ drop-append xs r;
}

at-drop : (p : Bytes) (i : ℕ) {b : ℕ} {r : Bytes} → drop i p ≡ b ∷ r → at p i ≡ done b
unfolding at
at-drop [] zero e = cc
at-drop [] (suc i) e = cc
at-drop (x ∷ p) zero e = ground arith
at-drop (x ∷ p) (suc i) e = at-drop p i e

pub at-Rest : {p : Bytes} {i b : ℕ} {r : Bytes} → Rest p i (b ∷ r) → at p i ≡ done b
at-Rest {p} {i} c = at-drop p i c.left

pub Rest-suc : {p : Bytes} {i b : ℕ} {r : Bytes} → Rest p i (b ∷ r) → Rest p (i + 1) r
Rest-suc {b} c = Rest-add (b ∷ []) c

pub slice-Rest :
    {p : Bytes} {i : ℕ} (xs r : Bytes) → Rest p i (xs ++ r) → slice p i (i + length xs) ≡ done xs
unfolding slice
slice-Rest {p} {i} xs r c =
    let e : i + length xs - i ≡ length xs = omega arith in
    ground (arith, length-Rest c, length-append xs r, e, c.left, take-append xs r, Rest-add xs c)

pub slice_from-Rest : {p : Bytes} {i : ℕ} {r : Bytes} → Rest p i r → slice_from p i ≡ done r
unfolding slice_from
slice_from-Rest c = ground arith

pub be_uint32-be_bytes : (v : ℕ) (r : Bytes) → v < 2 ^ 32 → be_uint32 (be_bytes v ++ r) ≡ done v
unfolding be_uint32 be_bytes
be_uint32-be_bytes v r h = ap done (omega arith)

-- `binary.BigEndian.Uint32(p[i:])` where `v` was written.
pub be_uint32-Rest :
    {p : Bytes} {i : ℕ} (v : ℕ) (r : Bytes)
    → v < 2 ^ 32
    → Rest p i (be_bytes v ++ r)
    → (slice_from p i >>= be_uint32) ≡ done v
be_uint32-Rest v r h c = rw (slice_from-Rest c) (be_uint32-be_bytes v r h)

pub Rest-add_four :
    {p : Bytes} {i : ℕ} (v : ℕ) {r : Bytes} → Rest p i (be_bytes v ++ r) → Rest p (i + 4) r
unfolding be_bytes
Rest-add_four v c = Rest-add (be_bytes v) c
