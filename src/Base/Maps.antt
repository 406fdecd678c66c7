-- ===== src/Base/Maps.antt =====
-- Go's `map[string]string` as an association list; a nil map is `none`.
use Prim.Native.String.{String}
use mathlib.Core.Path.{◌≡◌, refl}
use mathlib.Core.Option.{Option, none, some}
use mathlib.Core.List.{List, [], ◌∷◌}
use native.Mathlib.Omega.{arith}
use cloudrun.Base.Tests.{if◌then◌else◌}
use cloudrun.Base.Text.{◌===◌, eq_iff}

abbrev pub Dict : Type 0
Dict = List (String × String)

abbrev pub lookup : String → Dict → Option String
lookup k [] = none
lookup k ((j, v) ∷ d) = if j === k then some v else lookup k d

abbrev pub insert : String → String → Dict → Dict
insert k v [] = (k, v) ∷ []
insert k v ((j, w) ∷ d) = if j === k then (k, v) ∷ d else (j, w) ∷ insert k v d

-- `m[k]`, the empty text for a missing key or a nil map.
abbrev pub index : Option Dict → String → String
index none k = ""
index (some d) k = elim (lookup k d) [ none ↦ "" | some v ↦ v ]

pub lookup-insert :
    (k j v : String) (d : Dict) → lookup j (insert k v d) ≡ (if k === j then some v else lookup j d)
lookup-insert k j v [] = refl
lookup-insert k j v ((i, w) ∷ d) =
    ground (arith, eq_iff k j, eq_iff i k, eq_iff i j, lookup-insert k j v d)
