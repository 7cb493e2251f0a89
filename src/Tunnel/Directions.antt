-- ===== src/Tunnel/Directions.antt =====
-- `Proxy` of pkg/tunnel/tunnel.go: its two goroutines, and which side each closes when it ends.
use gunnel.Prelude.{◌≡◌, refl, arith, [], ◌++◌, Bool, true, false, Bytes}

-- Which goroutines still run, the bytes that each end was given, and whether it still takes any.
-- The first goroutine runs `copy(remote, local)`, the second `copy(local, remote)`.
pub record Proxy : Type 0 where
  pub first_runs : Bool
  pub second_runs : Bool
  pub to_remote : Bytes
  pub to_local : Bytes
  pub remote_writable : Bool
  pub local_writable : Bool

unfoldable pub proxy_start : Proxy
proxy_start = record {
  first_runs = true;
  second_runs = true;
  to_remote = [];
  to_local = [];
  remote_writable = true;
  local_writable = true;
}

-- A write of each goroutine that works.
unfoldable pub first_writes : Proxy → Bytes → Proxy
first_writes s b = record s { to_remote = s.to_remote ++ b }

unfoldable pub second_writes : Proxy → Bytes → Proxy
second_writes s b = record s { to_local = s.to_local ++ b }

-- The end of each goroutine, with the half-close that follows its copy; the local connection has a
-- `CloseWrite`, as a TCP connection does.
unfoldable pub first_ends : Proxy → Proxy
first_ends s = record s { first_runs = false; local_writable = false }

unfoldable pub second_ends : Proxy → Proxy
second_ends s = record s { second_runs = false; remote_writable = false }

pub data Step : Proxy → Proxy → Type 0 where
  first_copies :
      (s : Proxy) (b : Bytes)
      → s.first_runs ≡ true
      → s.remote_writable ≡ true
      → Step s (first_writes s b)
  second_copies :
      (s : Proxy) (b : Bytes)
      → s.second_runs ≡ true
      → s.local_writable ≡ true
      → Step s (second_writes s b)
  first_stops : (s : Proxy) → s.first_runs ≡ true → Step s (first_ends s)
  second_stops : (s : Proxy) → s.second_runs ≡ true → Step s (second_ends s)

pub data Steps (s : Proxy) : Proxy → Type 0 where
  nothing : Steps s s
  more : {s' s'' : Proxy} → Steps s s' → Step s' s'' → Steps s s''

-- A goroutine has ended exactly if the side that it closes is closed.
record IsPaired (s : Proxy) : Type 0 where
  local_side : s.local_writable ≡ s.first_runs
  remote_side : s.remote_writable ≡ s.second_runs

Step-IsPaired : {s s' : Proxy} → IsPaired s → Step s s' → IsPaired s'
unfolding first_writes second_writes first_ends second_ends
Step-IsPaired p (first_copies s b r w) = record {
  local_side = p.local_side;
  remote_side = p.remote_side;
}
Step-IsPaired p (second_copies s b r w) = record {
  local_side = p.local_side;
  remote_side = p.remote_side;
}
Step-IsPaired p (first_stops s r) = record { local_side = refl; remote_side = p.remote_side }
Step-IsPaired p (second_stops s r) = record { local_side = p.local_side; remote_side = refl }

Steps-IsPaired : {s : Proxy} → Steps proxy_start s → IsPaired s
unfolding proxy_start
Steps-IsPaired nothing = record { local_side = refl; remote_side = refl }
Steps-IsPaired (more run step) = Step-IsPaired (Steps-IsPaired run) step

-- Once the local end has nothing more to send, it gets no byte any more, for the goroutine that
-- reads from it closes the side of it that is written to.
Freezes : Proxy → Proxy → Type 0
Freezes s s' = (s'.first_runs ≡ false) × (s'.to_local ≡ s.to_local)

Step-Freezes :
    (s : Proxy) {s' s'' : Proxy} → IsPaired s' → Step s' s'' → Freezes s s' → Freezes s s''
unfolding first_writes second_writes first_ends second_ends Freezes
Step-Freezes before p (first_copies s b r w) (f, e) = (f, e)
Step-Freezes before p (second_copies s b r w) (f, e) = absurd (ground (arith, p.local_side, f, w))
Step-Freezes before p (first_stops s r) (f, e) = (refl, e)
Step-Freezes before p (second_stops s r) (f, e) = (f, e)

Steps-trans : {a b c : Proxy} → Steps a b → Steps b c → Steps a c
Steps-trans x nothing = x
Steps-trans x (more y step) = more (Steps-trans x y) step

-- In any run of `Proxy`, from the moment when the copy from the local end has ended, also by the
-- end of what it sends, the local end is not given another byte, though the copy to it may go on.
pub Steps-to_local :
    {s s' : Proxy}
    → Steps proxy_start s
    → Steps s s'
    → s.first_runs ≡ false
    → (s'.first_runs ≡ false) × (s'.to_local ≡ s.to_local)
unfolding Freezes
Steps-to_local run nothing f = (f, refl)
Steps-to_local {s} run (more later step) f =
    Step-Freezes s (Steps-IsPaired (Steps-trans run later)) step (Steps-to_local run later f)
