-- ===== src/Transport.antt =====
-- The interface `Transport` of pkg/transport/transport.go, as far as connections call it, with the
-- laws that they rely on. `T` is the state of a transport, `S` a stream of it.
pub mod Pool
pub mod Stream
pub mod Switch
use gunnel.Prelude.{ℕ, ◌≡◌, Bool, true, Bytes, Option}

pub record Transport (T : Type 0) (S : Type 0) : Type 0 where
  pub is_closed : T → Bool
  pub close : T → T
  pub acquire : T → T × Option S  -- none for an error
  pub release : T → S → T
  pub len_active : T → Option Bytes → ℕ
  pub im_server : T → Bool
  pub close-is_closed : (t : T) → is_closed (close t) ≡ true
  pub acquire-is_closed : (t : T) → is_closed (acquire t).0 ≡ is_closed t
  pub release-is_closed : (t : T) (s : S) → is_closed (release t s) ≡ is_closed t
