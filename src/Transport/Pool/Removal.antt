-- ===== src/Transport/Pool/Removal.antt =====
-- `findInactiveStreamIDs` with `removeStreams`, which deletes by index, against a filter.
use gunnel.Prelude.{
  ℕ, ◌+◌, ◌<◌, ◌≡◌, ◌⊎◌, refl, ◌∙◌, ap, arith, List, [], ◌∷◌, ◌++◌, true, ltb, ◌==◌, length,
  if◌then◌else◌, Bool-cases, inl, inr, append_assoc, length-append,
}
use mathlib.Core.List.{Memᴰ}
use gunnel.Transport.Stream.{StreamClient}
use gunnel.Transport.Pool.{Network, ConnectionTransport, close_streams}
use gunnel.Transport.Pool.Cleanup.{
  is_inactive, mark_ids, find_inactive_stream_ids, insert_sorted, sort, reverse, delete_at,
  delete_all, address_at, addresses, remove_streams,
}

-- The streams that are marked, and the others.
unfoldable pub marked : (ℕ → StreamClient) → ℕ → ℕ → List ℕ → List ℕ
marked store now max [] = []
marked store now max (p ∷ ps) =
    let rest = marked store now max ps in if is_inactive now max (store p) then p ∷ rest else rest

unfoldable pub unmarked : (ℕ → StreamClient) → ℕ → ℕ → List ℕ → List ℕ
unmarked store now max [] = []
unmarked store now max (p ∷ ps) =
    let rest = unmarked store now max ps in if is_inactive now max (store p) then rest else p ∷ rest

pub marked_or_unmarked :
    (store : ℕ → StreamClient) (now max p : ℕ) (ps : List ℕ)
    → Memᴰ p ps
    → Memᴰ p (marked store now max ps) ⊎ Memᴰ p (unmarked store now max ps)
unfolding marked unmarked
marked_or_unmarked store now max p (q ∷ ps) (Memᴰ.head e) =
    elim (Bool-cases (is_inactive now max (store q))) [
      | inl i ↦ rw i (inl (Memᴰ.head e))
      | inr i ↦ rw i (inr (Memᴰ.head e))
    ]
marked_or_unmarked store now max p (q ∷ ps) (Memᴰ.tail m) =
    let later = marked_or_unmarked store now max p ps m in
    elim (Bool-cases (is_inactive now max (store q))) [
      | inl i ↦ rw i (elim later [ inl k ↦ inl (Memᴰ.tail k) | inr k ↦ inr k ])
      | inr i ↦ rw i (elim later [ inl k ↦ inl k | inr k ↦ inr (Memᴰ.tail k) ])
    ]
marked_or_unmarked store now max p [] m = elim m [ ]

delete_all-append : (xs a b : List ℕ) → delete_all xs (a ++ b) ≡ delete_all (delete_all xs a) b
unfolding delete_all
delete_all-append xs [] b = refl
delete_all-append xs (i ∷ a) b =
    delete_all-append (if ltb i (length xs) then delete_at xs i else xs) a b

delete_at-append :
    (pre : List ℕ) (p : ℕ) (ps : List ℕ) → delete_at (pre ++ p ∷ ps) (length pre) ≡ pre ++ ps
unfolding delete_at
delete_at-append [] p ps = refl
delete_at-append (q ∷ pre) p ps = ap (λ xs. q ∷ xs) (delete_at-append pre p ps)

address_at-append :
    (pre : List ℕ) (p : ℕ) (ps : List ℕ) → address_at (pre ++ p ∷ ps) (length pre) ≡ p ∷ []
unfolding address_at
address_at-append [] p ps = refl
address_at-append (q ∷ pre) p ps = address_at-append pre p ps

delete_one :
    (pre : List ℕ) (p : ℕ) (ps : List ℕ) → delete_all (pre ++ p ∷ ps) (length pre ∷ []) ≡ pre ++ ps
unfolding delete_all
delete_one pre p ps =
    let inside : ltb (length pre) (length (pre ++ p ∷ ps)) ≡ true =
      ground (arith, length-append pre (p ∷ ps)) in
    rw inside (delete_at-append pre p ps)

length-snoc : (pre : List ℕ) (p : ℕ) → length (pre ++ p ∷ []) ≡ length pre + 1
length-snoc pre p = omega (arith, length-append pre (p ∷ []))

module _ (store : ℕ → StreamClient) (now max : ℕ) where
  insert_sorted-mark_ids :
      (n i : ℕ) (ps : List ℕ)
      → n < i
      → insert_sorted n (mark_ids store now max i ps) ≡ n ∷ mark_ids store now max i ps
  unfolding insert_sorted mark_ids
  insert_sorted-mark_ids n i [] h = refl
  insert_sorted-mark_ids n i (p ∷ ps) h = elim (Bool-cases (is_inactive now max (store p))) [
    | inl e ↦ rw e (ground (arith, h))
    | inr e ↦ rw e (insert_sorted-mark_ids n (i + 1) ps (omega arith))
  ]

  sort-mark_ids :
      (i : ℕ) (ps : List ℕ) → sort (mark_ids store now max i ps) ≡ mark_ids store now max i ps
  unfolding sort mark_ids
  sort-mark_ids i [] = refl
  sort-mark_ids i (p ∷ ps) = elim (Bool-cases (is_inactive now max (store p))) [
    | inl e ↦
        rw e (rw (sort-mark_ids (i + 1) ps) (insert_sorted-mark_ids i (i + 1) ps (omega arith)))
    | inr e ↦ rw e (sort-mark_ids (i + 1) ps)
  ]

  delete_all-marked :
      (pre ps added : List ℕ)
      → delete_all (pre ++ (ps ++ added)) (reverse (mark_ids store now max (length pre) ps))
        ≡ pre ++ (unmarked store now max ps ++ added)
  unfolding mark_ids unmarked reverse delete_all
  delete_all-marked pre [] added = refl
  delete_all-marked pre (p ∷ ps) added =
      let rest : delete_all (pre ++ p ∷ (ps ++ added))
            (reverse (mark_ids store now max (length pre + 1) ps))
          ≡ pre ++ p ∷ (unmarked store now max ps ++ added) =
        simp (append_assoc, length-snoc) at (delete_all-marked (pre ++ p ∷ []) ps added) in
      elim (Bool-cases (is_inactive now max (store p))) [
        | inl e ↦ rw e (
            delete_all-append (pre ++ p ∷ (ps ++ added))
              (reverse (mark_ids store now max (length pre + 1) ps)) (length pre ∷ [])
            ∙ ap (λ xs. delete_all xs (length pre ∷ [])) rest
            ∙ delete_one pre p (unmarked store now max ps ++ added))
        | inr e ↦ rw e rest
      ]

  addresses-marked :
      (pre ps added : List ℕ)
      → addresses (pre ++ (ps ++ added)) (mark_ids store now max (length pre) ps)
        ≡ marked store now max ps
  unfolding mark_ids marked addresses
  addresses-marked pre [] added = refl
  addresses-marked pre (p ∷ ps) added =
      let rest : addresses (pre ++ p ∷ (ps ++ added)) (mark_ids store now max (length pre + 1) ps)
          ≡ marked store now max ps =
        simp (append_assoc, length-snoc) at (addresses-marked (pre ++ p ∷ []) ps added) in
      elim (Bool-cases (is_inactive now max (store p))) [
        | inl e ↦ rw (e, address_at-append pre p (ps ++ added), rest) refl
        | inr e ↦ rw e rest
      ]

none_marked :
    (store : ℕ → StreamClient) (now max i : ℕ) (ps : List ℕ)
    → length (mark_ids store now max i ps) ≡ 0
    → (marked store now max ps ≡ []) × (unmarked store now max ps ≡ ps)
unfolding mark_ids marked unmarked
none_marked store now max i [] h = (refl, refl)
none_marked store now max i (p ∷ ps) h = elim (Bool-cases (is_inactive now max (store p))) [
  | inl e ↦ absurd (ground (arith, e, h))
  | inr e ↦
      let (a, b) = none_marked store now max (i + 1) ps (ground (arith, e, h)) in
      rw e (a, ap (λ xs. p ∷ xs) b)
]

module _ (net : Network) where
  -- `removeStreams` on the indices that `findInactiveStreamIDs` found earlier closes the streams that
  -- were marked then, and leaves the list of the others in their order, also where streams were
  -- added to the list in between, which are all kept.
  pub remove_streams-find :
      (t later : ConnectionTransport) (max : ℕ) (added : List ℕ)
      → later.streams ≡ t.streams ++ added
      → remove_streams net later (find_inactive_stream_ids t max)
        ≡ (record (close_streams net later (marked t.store t.now max t.streams)) {
          streams = unmarked t.store t.now max t.streams ++ added;
        })
  unfolding remove_streams find_inactive_stream_ids close_streams
  remove_streams-find t later max added h =
      let ids : List ℕ = mark_ids t.store t.now max 0 t.streams in
      let a : addresses later.streams ids ≡ marked t.store t.now max t.streams =
        ap (λ xs. addresses xs ids) h ∙ addresses-marked t.store t.now max [] t.streams added in
      let d : delete_all later.streams (reverse (sort ids))
          ≡ unmarked t.store t.now max t.streams ++ added =
        ap (λ xs. delete_all xs (reverse (sort ids))) h
        ∙ ap (λ xs. delete_all (t.streams ++ added) (reverse xs))
            (sort-mark_ids t.store t.now max 0 t.streams)
        ∙ delete_all-marked t.store t.now max [] t.streams added in
      elim (Bool-cases (length ids == 0)) [
        | inl e ↦
            let (m, u) = none_marked t.store t.now max 0 t.streams (ground (arith, e)) in
            simp (e, m, u, ← h)
        | inr e ↦ simp (e, a, d)
      ]
