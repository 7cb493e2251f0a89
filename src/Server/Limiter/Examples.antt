-- ===== src/Server/Limiter/Examples.antt =====
-- The limiter at concrete connections: two from one host, on a server that takes one from each.
use gunnel.Prelude.{
  ℕ, ◌≤◌, ◌≡◌, refl, arith, List, [], ◌∷◌, Bool, true, false, if◌then◌else◌, Option, none, some,
  Bytes, codes, str_eq, length, ltb, ◌==◌,
}
use gunnel.Prelude.Int.{pos, ◌+ℤ◌}
use gunnel.Server.Limiter.{
  Limiter, minute, new, within, timestamps, check_rate_limit, get_ip_count, increment_ip_count,
  admit, lower_ip_count, delete_if, ip_of, allow, acquire,
}
use gunnel.Server.Limiter.Ledger.{count, erase, entry, Within}
use gunnel.Server.Limiter.Admission.{Runs, start, arrives, Runs-Tracks, Runs-bounded}
use gunnel.Server.Limiter.Races.{begun_release, delete_if-forgets}
use gunnel.Server.Limiter.Window.{noted}
use gunnel.Server.Limiter.Rate.{Timeline, check_exact, Timeline-bounded}
use gunnel.Server.Limiter.Rate

-- The part before the first colon.
before_colon : Bytes → Option Bytes
before_colon [] = none
before_colon (b ∷ s) =
    let rest = before_colon s in
    if b == b':' then some [] else elim rest [ none ↦ none | some h ↦ some (b ∷ h) ]

abbrev first : Bytes
first = codes "h:1"

abbrev ip : Bytes
ip = codes "h"

abbrev fresh : Limiter
fresh = new 2 1 3

abbrev one_open : Limiter
one_open = (acquire before_colon fresh 7 first).0

abbrev one_held : List Bytes
one_held = if (acquire before_colon fresh 7 first).1 then ip_of before_colon first ∷ [] else []

one_run : Runs before_colon 2 1 3 one_open one_held
one_run = arrives 7 first start

one_is_held : one_held ≡ codes "h" ∷ []
unfolding acquire allow check_rate_limit new ip_of before_colon get_ip_count within timestamps
one_is_held = refl

second_refused : (acquire before_colon one_open 8 (codes "h:2")).1 ≡ false
unfolding acquire allow check_rate_limit new ip_of before_colon get_ip_count within timestamps admit
    increment_ip_count str_eq ◌+ℤ◌
second_refused = refl

Runs-bounded_example :
    (one_open.active_conns ≡ pos (length one_held))
    × (one_open.ip_conns ip ≡ entry (count ip one_held))
    × Within 2 (length one_held)
    × Within 1 (count ip one_held)
Runs-bounded_example = Runs-bounded before_colon one_run ip

abbrev checked : Limiter
checked = (check_rate_limit fresh 7 ip).0

abbrev history : Bytes → List ℕ
history j = if str_eq ip j then noted (check_rate_limit fresh 7 ip).1 7 [] else []

checked_once : Timeline 3 7 checked history
checked_once = Rate.checks 7 ip (Rate.start 2 1) (omega arith)

check_exact_example :
    (check_rate_limit checked 9 ip).1 ≡ ltb (length (within 9 minute (history ip))) 3
check_exact_example = check_exact 9 ip checked_once (omega arith)

Timeline-bounded_example : length (within 9 minute (history ip)) ≤ 3
Timeline-bounded_example = Timeline-bounded 9 ip checked_once (omega arith)

abbrev half_closed : Limiter × Bool
half_closed = begun_release one_open (ip_of before_colon first)

let_in_between : (acquire before_colon half_closed.0 8 (codes "h:2")).1 ≡ true
unfolding acquire allow check_rate_limit new ip_of before_colon get_ip_count within timestamps admit
    increment_ip_count lower_ip_count str_eq ◌+ℤ◌
let_in_between = refl

one_of_ip : count (ip_of before_colon first) one_held ≡ 1
unfolding ip_of before_colon count str_eq
one_of_ip = rw one_is_held refl

same_host : ip_of before_colon (codes "h:2") ≡ ip_of before_colon first
unfolding ip_of before_colon
same_host = refl

delete_if-forgets_example :
    let host = ip_of before_colon first in
    let cl' = delete_if half_closed.1 (acquire before_colon half_closed.0 8 (codes "h:2")).0 host in
    (cl'.ip_conns host ≡ none)
    × (cl'.active_conns ≡ pos (length one_held))
    × (count host (ip_of before_colon (codes "h:2") ∷ erase host one_held) ≡ 1)
delete_if-forgets_example =
    delete_if-forgets before_colon one_open 8 first (codes "h:2") one_held
      (Runs-Tracks before_colon one_run) one_of_ip same_host let_in_between
