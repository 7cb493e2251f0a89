-- ===== src/Prelude/Maps.antt =====
-- Go's maps with string keys, and `sync.Map`: what a key leads to, if anything. The program
-- iterates over a map only to treat each entry by itself, so the order of entries is not modelled.
use mathlib.Core.Option.{Option, none, some}
use gunnel.Prelude.Tests.{if◌then◌else◌}
use gunnel.Prelude.Text.{Bytes, str_eq}

abbrev pub Map {ℓ} : Type ℓ → Type ℓ
Map V = Bytes → Option V

module _ {ℓ} {V : Type ℓ} where
  abbrev pub empty : Map V
  empty k = none

  -- `m[k] = v`, `m.Store(k, v)`
  abbrev pub put : Map V → Bytes → V → Map V
  put m k v j = if str_eq k j then some v else m j

  -- `delete(m, k)`, `m.Delete(k)`
  abbrev pub remove : Map V → Bytes → Map V
  remove m k j = if str_eq k j then none else m j
