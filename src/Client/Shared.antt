-- ===== src/Client/Shared.antt =====
-- What the registrations of several backends do to the transport that they share.
use gunnel.Prelude.{
  ℕ, ◌+◌, ◌≡◌, refl, sym, ◌∙◌, ap, subst, arith, List, [], ◌∷◌, Bool, true, false, inl, inr,
}
use gunnel.Go.Slices.{Outcome, done, panicked, ◌>>=◌}
use gunnel.Transport.{Transport}
use gunnel.Client.Config.{BackendConfig}
use gunnel.Client.Register.{Reply, Registered, registry_backend_with_transport, register_backends}
use gunnel.Client.Registered.{IsAccepted, registry_backend_with_transport_cases, closed_stays}

module _ {T S : Type 0} (ops : Transport T S) where
  -- Each backend of a list got an answer that accepts it, and then is the one of the other list.
  pub AllAccepted : T → (ℕ → Reply) → ℕ → List BackendConfig → List BackendConfig → Type 0
  AllAccepted t replies i [] [] = Unit {0}
  AllAccepted t replies i [] (b' ∷ bs') = ⊥
  AllAccepted t replies i (b ∷ bs) [] = ⊥
  AllAccepted t replies i (b ∷ bs) (b' ∷ bs') =
      IsAccepted ops t b (replies i) (t, (b', true)) × AllAccepted t replies (i + 1) bs bs'

  -- Inversion of a round of the loop.
  record IsRound (t : T) (replies : ℕ → Reply) (i : ℕ) (b : BackendConfig) (bs : List BackendConfig)
      (t' : T) (result : List BackendConfig) : Type 0 where
    middle : T
    first : BackendConfig
    ok : Bool
    rest : List BackendConfig
    head : registry_backend_with_transport ops t b (replies i) ≡ done (middle, (first, ok))
    tail : register_backends ops middle replies (i + 1) bs ≡ done (t', rest)
    whole : result ≡ first ∷ rest

  tail_done :
      (o : Outcome (T × List BackendConfig)) (b : BackendConfig) (t' : T)
      (result : List BackendConfig)
      → ◌>>=◌ {B = T × List BackendConfig} o (λ r. done (r.0, b ∷ r.1)) ≡ done (t', result)
      → (rest : List BackendConfig) × (o ≡ done (t', rest)) × (result ≡ b ∷ rest)
  tail_done panicked b t' result e = cc
  tail_done (done (t'', bs')) b t' result e = (bs', ground (arith, e), ground (arith, e))

  registry-IsRound :
      (t : T) (replies : ℕ → Reply) (i : ℕ) (b : BackendConfig) (bs : List BackendConfig) (t' : T)
      (result : List BackendConfig) (o : Outcome (Registered T))
      → registry_backend_with_transport ops t b (replies i) ≡ o
      → ◌>>=◌ {B = T × List BackendConfig} o (λ r.
        ◌>>=◌ {B = T × List BackendConfig}
          (register_backends ops r.0 replies (i + 1) bs)
          (λ q. done (q.0, r.1.0 ∷ q.1)))
        ≡ done (t', result)
      → IsRound t replies i b bs t' result
  registry-IsRound t replies i b bs t' result panicked h e = cc
  registry-IsRound t replies i b bs t' result (done (m, (b', ok))) h e =
      let (rest, x, y) = tail_done (register_backends ops m replies (i + 1) bs) b' t' result e in
      record { middle = m; first = b'; ok = ok; rest = rest; head = h; tail = x; whole = y }

  register_backends-IsRound :
      (t : T) (replies : ℕ → Reply) (i : ℕ) (b : BackendConfig) (bs : List BackendConfig) (t' : T)
      (result : List BackendConfig)
      → register_backends ops t replies i (b ∷ bs) ≡ done (t', result)
      → IsRound t replies i b bs t' result
  unfolding register_backends
  register_backends-IsRound t replies i b bs t' result e =
      registry-IsRound t replies i b bs t' result _ refl e

  -- The loop never opens a transport.
  pub register_backends-closed :
      (t : T) (replies : ℕ → Reply) (i : ℕ) (bs : List BackendConfig) (t' : T)
      (result : List BackendConfig)
      → register_backends ops t replies i bs ≡ done (t', result)
      → ops.is_closed t ≡ true
      → ops.is_closed t' ≡ true
  register_backends-closed t replies i [] t' result e c =
      unfold register_backends in ground (arith, e, c)
  register_backends-closed t replies i (b ∷ bs) t' result e c =
      let r = register_backends-IsRound t replies i b bs t' result e in
      register_backends-closed r.middle replies (i + 1) bs t' r.rest r.tail
        (closed_stays ops t r.middle b (replies i) (r.first, r.ok) r.head c)

  -- When the transport is open after the backends were registered with it, the server has accepted
  -- every one of them: one that is refused, or fails, closes the connection of all.
  pub register_backends-AllAccepted :
      (t : T) (replies : ℕ → Reply) (i : ℕ) (bs : List BackendConfig) (t' : T)
      (result : List BackendConfig)
      → register_backends ops t replies i bs ≡ done (t', result)
      → ops.is_closed t' ≡ false
      → (t' ≡ t) × AllAccepted t replies i bs result
  unfolding AllAccepted
  register_backends-AllAccepted t replies i [] t' result e o =
      let nothing : ◌≡◌ {A = Outcome (T × List BackendConfig)} (done (t, [])) (done (t', result)) =
        unfold register_backends in e in
      let none_left : ◌≡◌ {A = List BackendConfig} [] result = ground (arith, nothing) in
      (ground (arith, nothing), subst (AllAccepted t replies i []) none_left tt)
  register_backends-AllAccepted t replies i (b ∷ bs) t' result e o =
      let r = register_backends-IsRound t replies i b bs t' result e in
      elim (registry_backend_with_transport_cases ops t b (replies i) (r.middle, (r.first, r.ok))
        r.head) [
          | inl a ↦
              let same : r.middle ≡ t = ap (λ x. x.0) a.kept in
              let ok : r.ok ≡ true = ap (λ x. x.1.1) a.kept in
              let (u, later) =
                register_backends-AllAccepted r.middle replies (i + 1) bs t' r.rest r.tail o in
              (
                u ∙ same,
                subst (AllAccepted t replies i (b ∷ bs)) (sym r.whole) (
                  subst (IsAccepted ops t b (replies i)) (λ j. (same j, (r.first, ok j))) a,
                  subst (λ m. AllAccepted m replies (i + 1) bs r.rest) same later,
                ),
              )
          | inr f ↦
              let same : r.middle ≡ ops.close t = ap (λ x. x.0) f.failed in
              let shut : ops.is_closed t' ≡ true =
                register_backends-closed r.middle replies (i + 1) bs t' r.rest r.tail
                  (subst (λ m. ops.is_closed m ≡ true) (sym same) (ops.close-is_closed t)) in
              absurd (ground (arith, o, shut))
        ]
