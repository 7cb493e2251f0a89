-- ===== src/Transport/Switch.antt =====
-- The least transport that meets the laws of the interface, for the examples: it is open or closed.
use gunnel.Prelude.{refl, Bool, true, none, some, if◌then◌else◌}
use gunnel.Transport.{Transport}

abbrev pub switch : Transport Bool Bool
switch = record {
  is_closed = λ t. t;
  close = λ t. true;
  acquire = λ t. (t, if t then none else some t);
  release = λ t s. t;
  len_active = λ t sub. 0;
  im_server = λ t. true;
  close-is_closed = λ t. refl;
  acquire-is_closed = λ t. refl;
  release-is_closed = λ t s. refl;
}
