-- ===== src/Manager/Registered.antt =====
-- What a registration, and the end of a connection, do to the registry.
use gunnel.Prelude.{
  ℕ, ◌≡◌, ◌≢◌, ◌↔◌, ◌⊎◌, refl, ◌∙◌, sym, ap, arith, [], ◌∷◌, Bool, true, false, not, ◌&&◌, Option,
  none, some, Bytes, str_eq, str_eq_iff, ◌==◌, if◌then◌else◌, Bool-cases, Option-cases, inl, inr,
}
use gunnel.Protocol.Register.{ConnectionRegister}
use gunnel.Transport.{Transport}
use gunnel.Connection.{Connection, is_connected, close, close_transport}
use gunnel.Connection.Lifecycle.{IsSound, more, nothing, asks, Steps-is_connected}
use gunnel.Manager.Registry.{
  answer_with, Manager, RegistrationResult, set_conn, store, is_authorized, get_client,
  remove_client, subdomain_or_default, conn_connected, close_conn, add_client, has_known_subdomain,
  register_client, connection_done, gunnel_subdomain,
}

==_refl : (a : ℕ) → (a == a) ≡ true
==_refl a = ground arith

module _ {T S : Type 0} (ops : Transport T S) where
  -- The three ways in which a subdomain that has a client gets another.
  add_taken-get_client :
      (m m' : Manager T) (s : Bytes) (id old : ℕ) (on : Bool) (j : Bytes)
      → m'.subdomains ≡ m.subdomains
      → m.subdomains s ≡ some old
      → get_client
          (if not on
            then store m' s id
            else if not (old == id)
            then store (close_conn ops m' old) s id
            else m')
          j
        ≡ (if str_eq s j then some id else m.subdomains j)
  unfolding get_client store close_conn set_conn
  add_taken-get_client m m' s id old false j f e = rw f refl
  add_taken-get_client m m' s id old true j f e = elim (Bool-cases (old == id)) [
    | inr n ↦ rw (n, f) refl
    | inl y ↦ elim (Bool-cases (str_eq s j)) [
      | inr k ↦ rw (y, f, k) refl
      | inl k ↦
          rw (y, f, k) (ap m.subdomains (sym ((str_eq_iff s j).0 k)) ∙ e ∙ ap some (ground arith))
    ]
  ]

  add_client-get_client :
      (m : Manager T) (s : Bytes) (id : ℕ) (j : Bytes)
      → get_client (add_client ops m s id) j ≡ (if str_eq s j then some id else get_client m j)
  unfolding add_client get_client
  add_client-get_client m s id j = elim (Option-cases (m.subdomains s)) [
    | inl e ↦ rw (e, add_client, get_client) (unfold store in refl)
    | inr (old, e) ↦
        rw (e, add_client, get_client)
          (add_taken-get_client m (conn_connected ops m old).0 s id old (conn_connected ops m old).1
            j (unfold conn_connected set_conn in refl) e)
  ]

  answered_eq :
      (m m' : Manager T) (id : ℕ) (o : Option (Connection T)) (res r : RegistrationResult)
      → answer_with m id o res ≡ some (m', r)
      → (m'.subdomains ≡ m.subdomains) × (r ≡ res)
  unfolding set_conn answer_with
  answered_eq m m' id none res r e = cc
  answered_eq m m' id (some c) res r e = ground arith

  -- A registration whose answer can be queued succeeds exactly if the token is authorized, and
  -- reports that under its subdomain, or `default`. Then the subdomain leads to the new client,
  -- whatever client it led to before; otherwise the registry is as it was, as it is at every other
  -- subdomain in any case.
  pub register_client-get_client :
      (m : Manager T) (id : ℕ) (reg : ConnectionRegister) (m' : Manager T) (r : RegistrationResult)
      (j : Bytes)
      → register_client ops m id reg ≡ some (m', r)
      → (r.success ≡ is_authorized m reg.token)
        × (r.subdomain ≡ subdomain_or_default reg.subdomain)
        × (get_client m' j ≡ (
            if is_authorized m reg.token && str_eq (subdomain_or_default reg.subdomain) j
            then some id
            else get_client m j))
  unfolding register_client get_client
  register_client-get_client m id reg m' r j e =
      let sub = subdomain_or_default reg.subdomain in
      let ok = is_authorized m reg.token in
      let (f, g) = answered_eq _ m' id _ (record { subdomain = sub; success = ok }) r e in
      (
        rw g refl,
        rw g refl,
        rw f (elim (Bool-cases ok) [
          | inl y ↦ rw y (add_client-get_client m sub id j)
          | inr n ↦ rw n refl
        ]),
      )

  is_connected-kept :
      (c : Connection T) → (is_connected ops c).1 ≡ true → (is_connected ops c).0 ≡ c
  unfolding is_connected
  is_connected-kept c h = ground arith

  is_connected-close :
      {pending : ℕ} (c : Connection T)
      → IsSound ops c pending
      → (is_connected ops (close ops c)).1 ≡ false
  unfolding is_connected close close_transport
  is_connected-close c s = ground (arith, s.disconnected)

  is_connected-again :
      (c : Connection T)
      → (is_connected ops c).1 ≡ false
      → (is_connected ops (is_connected ops c).0).1 ≡ false
  is_connected-again c h = Steps-is_connected ops (more nothing (asks c)) h

  replaced_off :
      {pending : ℕ} (m : Manager T) (id old : ℕ) (s : Bytes)
      → old ≢ id
      → IsSound ops (m.conns old) pending
      → (on : Bool) → (is_connected ops (m.conns old)).1 ≡ on
      → (is_connected ops (
          (if not on
              then store (conn_connected ops m old).0 s id
              else if not (old == id)
              then store (close_conn ops (conn_connected ops m old).0 old) s id
              else (conn_connected ops m old).0).conns
            old)).1
        ≡ false
  unfolding store conn_connected close_conn set_conn
  replaced_off m id old s n sound false h = rw (==_refl old) (is_connected-again (m.conns old) h)
  replaced_off m id old s n sound true h = elim (Bool-cases (old == id)) [
    | inl y ↦ absurd (n (ground arith))
    | inr k ↦
        rw (k, ==_refl old)
          (rw (is_connected-kept (m.conns old) h) (is_connected-close (m.conns old) sound))
  ]

  -- After a client is added under a subdomain that led to another, the other is not connected any
  -- more, if it was sound.
  pub add_client-replaces :
      {pending : ℕ} (m : Manager T) (s : Bytes) (id old : ℕ)
      → get_client m s ≡ some old
      → old ≢ id
      → IsSound ops (m.conns old) pending
      → (is_connected ops ((add_client ops m s id).conns old)).1 ≡ false
  unfolding add_client get_client conn_connected is_connected
  add_client-replaces m s id old e n sound =
      rw (e, add_client) (replaced_off m id old s n sound (is_connected ops (m.conns old)).1 refl)

  -- `HasKnownSubdomain` holds for the management subdomain and for those whose client is connected.
  pub has_known_subdomain_iff :
      (m : Manager T) (s : Bytes)
      → ((has_known_subdomain ops m s).1 ≡ true) ↔ (
          (s ≡ gunnel_subdomain)
          ⊎ ((id : ℕ) × (get_client m s ≡ some id) × ((is_connected ops (m.conns id)).1 ≡ true)))
  unfolding has_known_subdomain conn_connected get_client
  has_known_subdomain_iff m s = elim (Option-cases (m.subdomains s)) [
    | inl e ↦ (
      (λ h. ground (arith, h, e, str_eq_iff s gunnel_subdomain)),
      (λ k. ground (arith, k, e, str_eq_iff s gunnel_subdomain)),
    )
    | inr (old, e) ↦ (
      (λ h. elim (Bool-cases (str_eq s gunnel_subdomain)) [
        | inl y ↦ inl ((str_eq_iff s gunnel_subdomain).0 y)
        | inr n ↦ inr (old, e, ground (arith, h, e, n))
      ]),
      (λ k. elim k [
        | inl y ↦ ground (arith, (str_eq_iff s gunnel_subdomain).1 y)
        | inr (id, f, on) ↦ ground (arith, f, on)
      ]),
    )
  ]

  -- The end of a connection that registered a subdomain removes that subdomain, and no other,
  -- whichever client is registered under it by then.
  pub connection_done-get_client :
      (m : Manager T) (id : ℕ) (s j : Bytes)
      → s ≢ []
      → get_client (connection_done ops m id (some s)) j
        ≡ (if str_eq s j then none else get_client m j)
  unfolding connection_done remove_client close_conn set_conn get_client
  connection_done-get_client m id [] j n = absurd (n refl)
  connection_done-get_client m id (c ∷ s) j n = ground arith
