-- ===== src/Prelude/Maps.antt =====
-- A `HashMap<String, V>` as the function that its `get` computes.
use mathlib.Core.Option.{Option, none, some}
use desertemail.Prelude.Tests.{if◌then◌else◌}
use desertemail.Prelude.Text.{Bytes, bytes_eq}

abbrev pub Map {ℓ} : Type ℓ → Type ℓ
Map V = Bytes → Option V

module _ {ℓ} {V : Type ℓ} where
  abbrev pub empty : Map V
  empty k = none

  abbrev pub insert : Bytes → V → Map V → Map V
  insert k v m j = if bytes_eq k j then some v else m j

  abbrev pub remove : Bytes → Map V → Map V
  remove k m j = if bytes_eq k j then none else m j

  abbrev pub get_or : Option V → V → V
  get_or none d = d
  get_or (some v) d = v

  abbrev pub filter_value : (V → Option V) → Option V → Option V
  filter_value f none = none
  filter_value f (some v) = f v

  -- `HashMap::retain` whose closure changes the value: `none` drops the entry
  abbrev pub retain_values : (V → Option V) → Map V → Map V
  retain_values f m k = filter_value f (m k)
