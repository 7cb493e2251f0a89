-- ===== src/Manager/Serving/Examples.antt =====
-- A connection that registers two subdomains and ends, and one whose `AcceptStream` fails.
use gunnel.Prelude.{
  ◌≡◌, ◌≢◌, ◌⊎◌, refl, [], ◌∷◌, Bool, true, false, str_eq, arith, Option, none, some, Bytes, codes,
  inl, inr,
}
use gunnel.Prelude.Maps.{empty}
use gunnel.Transport.Switch.{switch}
use gunnel.Protocol.Register.{ConnectionRegister}
use gunnel.Connection.{new, enqueue, send}
use gunnel.Manager.Registry.{
  Manager, RegistrationResult, get_client, is_authorized, subdomain_or_default, register_client,
  add_client, store, answer_with, set_conn,
}
use gunnel.Manager.Serving.{
  Serving, begun, crash, returned, panicked, ended, offer, note, finish, Step, registers,
  takes_registration, context_ends, returns, nothing, more,
}
use gunnel.Manager.Serving.Crash.{accept_failed, Steps-panicked}
use gunnel.Manager.Serving.Left.{Runs, start, next, noted, Runs-left}

abbrev blank : Manager Bool
blank = record { conns = λ id. new switch false 1; subdomains = empty; token_validator = none }

abbrev registration : Bytes → ConnectionRegister
registration s = record { subdomain = s; host = []; port = 80; protocol = []; token = [] }

abbrev result : Bytes → RegistrationResult
result s = record { subdomain = s; success = true }

abbrev or_blank : Option (Manager Bool × RegistrationResult) → Manager Bool
or_blank none = blank
or_blank (some p) = p.0

abbrev first_one : Manager Bool
first_one = or_blank (register_client switch blank 1 (registration (codes "a")))

abbrev second_one : Manager Bool
second_one = or_blank (register_client switch first_one 1 (registration (codes "b")))

first_is :
    register_client switch blank 1 (registration (codes "a")) ≡ some (first_one, result (codes "a"))
unfolding register_client is_authorized subdomain_or_default add_client get_client store answer_with
    send enqueue set_conn new
first_is = refl

second_is :
    register_client switch first_one 1 (registration (codes "b"))
    ≡ some (second_one, result (codes "b"))
unfolding register_client is_authorized subdomain_or_default add_client get_client store answer_with
    send enqueue set_conn new str_eq
second_is = refl

-- The registration of "b" is taken from the channel after that of "a".
abbrev s1 : Serving Bool
s1 = record (begun blank) { mgr = first_one; registration_chan = some (result (codes "a")) }

abbrev s2 : Serving Bool
s2 = record s1 { registration_chan = none; registered_subdomain = codes "a" }

abbrev s3 : Serving Bool
s3 = record s2 { mgr = second_one; registration_chan = some (result (codes "b")) }

abbrev s4 : Serving Bool
s4 = record s3 { registration_chan = none; registered_subdomain = codes "b" }

two_run :
    Runs switch 1 blank
      (codes "b" ∷ codes "a" ∷ [])
      (finish switch 1 (record s4 { context_done = true }))
unfolding noted offer note
two_run =
    next
      (next
        (next
          (next
            (next
              (next start (
                registers (begun blank) (registration (codes "a")) first_one (result (codes "a"))
                  refl first_is))
              (takes_registration s1 (result (codes "a")) refl refl))
            (registers s2 (registration (codes "b")) second_one (result (codes "b")) refl
              second_is))
          (takes_registration s3 (result (codes "b")) refl refl))
        (context_ends s4 refl))
      (returns (record s4 { context_done = true }) refl refl)

two_finished : (finish switch 1 (record s4 { context_done = true })).handler ≡ returned
unfolding finish
two_finished = refl

b_is_not_a : (finish switch 1 (record s4 { context_done = true })).registered_subdomain ≢ codes "a"
unfolding finish
b_is_not_a e = absurd (ground (arith, e))

Runs-left_example :
    (get_client (finish switch 1 (record s4 { context_done = true })).mgr (codes "a") ≡ some 1)
    × (((finish switch 1 (record s4 { context_done = true })).mgr.conns 1).closed ≡ true)
Runs-left_example =
    Runs-left switch 1 blank (codes "b" ∷ codes "a" ∷ [])
      (finish switch 1 (record s4 { context_done = true })) (codes "a") two_run two_finished
      (inr (inl refl)) b_is_not_a

abbrev failed : Serving Bool
failed = accept_failed (begun blank)

Steps-panicked_example :
    ((record failed { context_done = true }).acceptor ≡ ended)
    × (Step switch 1
          (record failed { context_done = true })
          (crash (record failed { context_done = true }))
        ⊎ ((failed.handler ≡ panicked)
            ⊎ ((failed.handler ≡ returned) × (◌≡◌ {A = Bool} true true))))
Steps-panicked_example =
    Steps-panicked switch 1 blank (begun blank) (record failed { context_done = true }) nothing refl
      refl (more nothing (context_ends failed refl))
