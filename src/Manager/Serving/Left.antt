-- ===== src/Manager/Serving/Left.antt =====
-- What the end of a connection leaves in the registry.
use gunnel.Prelude.{
  ℕ, ◌≡◌, ◌≢◌, ◌⊎◌, refl, arith, sym, ◌∙◌, subst, List, [], ◌∷◌, Bool, true, false, ◌&&◌, Option,
  none, some, ap, ◌==◌, ==_iff, Bytes, str_eq, str_eq_iff, if◌then◌else◌, Bool-cases, inl, inr,
}
use gunnel.Protocol.Register.{ConnectionRegister}
use gunnel.Transport.{Transport}
use gunnel.Connection.{close, close_transport}
use gunnel.Manager.Registry.{
  Manager, RegistrationResult, get_client, remove_client, close_conn, set_conn, connection_done,
  register_client, is_authorized, subdomain_or_default,
}
use gunnel.Manager.Registered.{register_client-get_client}
use gunnel.Manager.Serving.{
  selecting, returned, Serving, begun, finish, Step, accepts, takes_stream, takes_nil, registers,
  takes_registration, context_ends, others, returns,
}

-- A subdomain is among those of a list.
abbrev pub Has : Bytes → List Bytes → Type 0
Has k [] = ⊥
Has k (x ∷ xs) = (x ≡ k) ⊎ Has k xs

module _ {T S : Type 0} (ops : Transport T S) (id : ℕ) where
  abbrev pub leads : Option ℕ → Bool
  leads none = false
  leads (some j) = j == id

  -- The subdomains that still lead to this connection.
  unfoldable pub keep_led : Manager T → List Bytes → List Bytes
  keep_led m [] = []
  keep_led m (x ∷ xs) =
      let rest = keep_led m xs in if leads (get_client m x) then x ∷ rest else rest

  leads→≡ : (o : Option ℕ) → leads o ≡ true → o ≡ some id
  leads→≡ none h = cc
  leads→≡ (some j) h = ap some ((==_iff j id).0 h)

  led_here :
      (m : Manager T) (x : Bytes) (xs : List Bytes) (k : Bytes)
      → leads (get_client m x) ≡ true
      → (Has k (keep_led m xs) → Has k xs × (get_client m k ≡ some id))
      → (x ≡ k) ⊎ Has k (keep_led m xs)
      → Has k (x ∷ xs) × (get_client m k ≡ some id)
  led_here m x xs k y rest (inl e) =
      (inl e, subst (λ j. get_client m j ≡ some id) e (leads→≡ (get_client m x) y))
  led_here m x xs k y rest (inr h) = let (a, b) = rest h in (inr a, b)

  keep_led-Has :
      (m : Manager T) (subs : List Bytes) (k : Bytes)
      → Has k (keep_led m subs)
      → Has k subs × (get_client m k ≡ some id)
  unfolding keep_led
  keep_led-Has m [] k h = elim h [ ]
  keep_led-Has m (x ∷ xs) k h = elim (Bool-cases (leads (get_client m x))) [
    | inl y ↦ led_here m x xs k y (keep_led-Has m xs k) (rw y at h)
    | inr n ↦ let (a, b) = keep_led-Has m xs k (rw n at h) in (inr a, b)
  ]

  -- The subdomains under which a step registers the connection, in front of those before it, less
  -- those that another connection takes or removes.
  unfoldable pub noted : {a b : Serving T} → Step ops id a b → List Bytes → List Bytes
  noted (accepts s a g h) subs = subs
  noted (takes_stream s g h) subs = subs
  noted (takes_nil s g h) subs = subs
  noted (registers s reg m r g e) subs = if r.success then r.subdomain ∷ subs else subs
  noted (takes_registration s r g e) subs = subs
  noted (context_ends s g) subs = subs
  noted (others s m g) subs = keep_led m subs
  noted (returns s g h) subs = subs

  -- The runs of a connection's handler, with the subdomains that it registered.
  pub data Runs (m : Manager T) : List Bytes → Serving T → Type 0 where
    start : Runs m [] (begun m)
    next :
        {subs : List Bytes} {a b : Serving T}
        → Runs m subs a
        → (step : Step ops id a b) → Runs m (noted step subs) b

  done_keeps :
      (m : Manager T) (registered k : Bytes)
      → registered ≢ k
      → get_client (connection_done ops m id (some registered)) k ≡ get_client m k
  unfolding connection_done remove_client close_conn set_conn get_client
  done_keeps m [] k n = refl
  done_keeps m (c ∷ s) k n = ground (arith, str_eq_iff (c ∷ s) k)

  done_closed :
      (m : Manager T) (registered : Bytes)
      → ((connection_done ops m id (some registered)).conns id).closed ≡ true
  unfolding connection_done remove_client close_conn set_conn close close_transport
  done_closed m [] = ground arith
  done_closed m (c ∷ s) = ground arith

  register_client-keeps :
      (m m' : Manager T) (reg : ConnectionRegister) (r : RegistrationResult) (k : Bytes)
      → register_client ops m id reg ≡ some (m', r)
      → get_client m k ≡ some id
      → get_client m' k ≡ some id
  register_client-keeps m m' reg r k e h =
      let (x, y, z) = register_client-get_client ops m id reg m' r k e in
      z
      ∙ elim (Bool-cases
          (is_authorized m reg.token && str_eq (subdomain_or_default reg.subdomain) k)) [
            | inl both ↦ rw both refl
            | inr other ↦ rw other h
          ]

  register_client-gains :
      (m m' : Manager T) (reg : ConnectionRegister) (r : RegistrationResult)
      → register_client ops m id reg ≡ some (m', r)
      → r.success ≡ true
      → get_client m' r.subdomain ≡ some id
  register_client-gains m m' reg r e ok =
      let (x, y, z) = register_client-get_client ops m id reg m' r r.subdomain e in
      z
      ∙ rw (sym x ∙ ok, (str_eq_iff (subdomain_or_default reg.subdomain) r.subdomain).1 (sym y))
          refl

  -- While the handler is in its loop, the subdomains of the connection lead to it; after its end all
  -- but one do, and it is closed.
  record IsHeld (subs : List Bytes) (s : Serving T) : Type 0 where
    held : (k : Bytes) → Has k subs → s.handler ≡ selecting → get_client s.mgr k ≡ some id
    left :
        (k : Bytes)
        → Has k subs
        → s.handler ≡ returned
        → s.registered_subdomain ≢ k
        → (get_client s.mgr k ≡ some id) × ((s.mgr.conns id).closed ≡ true)

  noted_held :
      (m m' : Manager T) (reg : ConnectionRegister) (r : RegistrationResult) (subs : List Bytes)
      → register_client ops m id reg ≡ some (m', r)
      → ((k : Bytes) → Has k subs → get_client m k ≡ some id)
      → (b : Bool) → r.success ≡ b
      → (k : Bytes) → Has k (if b then r.subdomain ∷ subs else subs)
      → get_client m' k ≡ some id
  noted_held m m' reg r subs e old false no_success k h =
      register_client-keeps m m' reg r k e (old k h)
  noted_held m m' reg r subs e old true success k (inl new) =
      subst (λ j. get_client m' j ≡ some id) new (register_client-gains m m' reg r e success)
  noted_held m m' reg r subs e old true success k (inr h) =
      register_client-keeps m m' reg r k e (old k h)

  Step-IsHeld :
      {subs : List Bytes} {a b : Serving T}
      → IsHeld subs a
      → (step : Step ops id a b) → IsHeld (noted step subs) b
  unfolding noted finish
  Step-IsHeld i (accepts s a g h) = record { held = i.held; left = i.left }
  Step-IsHeld i (takes_stream s g h) = record { held = i.held; left = i.left }
  Step-IsHeld i (takes_nil s g h) = record {
    held = λ k x e. absurd (ground (arith, e));
    left = λ k x e. absurd (ground (arith, e));
  }
  Step-IsHeld {subs} i (registers s reg m r g e) = record {
    held = λ k x f. noted_held s.mgr m reg r subs e (λ j y. i.held j y g) r.success refl k x;
    left = λ k x f. absurd (ground (arith, f, g));
  }
  Step-IsHeld i (takes_registration s r g e) = record {
    held = i.held;
    left = λ k x f. absurd (ground (arith, f, g));
  }
  Step-IsHeld i (context_ends s g) = record { held = i.held; left = i.left }
  Step-IsHeld {subs} i (others s m g) = record {
    held = λ k x f. (keep_led-Has m subs k x).1;
    left = λ k x f n.
        let (old, now) = keep_led-Has m subs k x in
        let closed = (i.left k old f n).1 in
        (now, (elim g [ inl o ↦ absurd (ground (arith, o, closed)) | inr c ↦ c ]));
  }
  Step-IsHeld i (returns s g h) = record {
    held = λ k x f. absurd (ground (arith, f));
    left = λ k x f n. (
      done_keeps s.mgr s.registered_subdomain k n ∙ i.held k x g,
      done_closed s.mgr s.registered_subdomain,
    );
  }

  Runs-IsHeld : {m : Manager T} {subs : List Bytes} {s : Serving T} → Runs m subs s → IsHeld subs s
  Runs-IsHeld start = record { held = λ k h. elim h [ ]; left = λ k h. elim h [ ] }
  Runs-IsHeld (next run step) = Step-IsHeld (Runs-IsHeld run) step

  -- However a connection's handler ran, and whatever the other connections did to the registry in
  -- between, at any time after it has returned every subdomain that the connection registered and
  -- that no other has taken or removed, but the one that the loop took last, still leads to this
  -- connection, which is closed.
  pub Runs-left :
      (m : Manager T) (subs : List Bytes) (s : Serving T) (k : Bytes)
      → Runs m subs s
      → s.handler ≡ returned
      → Has k subs
      → s.registered_subdomain ≢ k
      → (get_client s.mgr k ≡ some id) × ((s.mgr.conns id).closed ≡ true)
  Runs-left m subs s k run e h n = (Runs-IsHeld run).left k h e n
