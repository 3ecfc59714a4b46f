-- ===== src/Common/Maps.antt =====
-- Go maps with string keys, as association lists that hold each key once.
use mathlib.Core.List.{List, [], ◌∷◌}
use mathlib.Core.Option.{Option, none, some}
use bfe.Common.Tests.{if◌then◌else◌}
use bfe.Common.Text.{Bytes, bytes_eq}

module _ {ℓ} {V : Type ℓ} where
  unfoldable pub map_lookup : Bytes → List (Bytes × V) → Option V
  map_lookup k [] = none
  map_lookup k ((j, v) ∷ m) = if bytes_eq j k then some v else map_lookup k m

  unfoldable pub map_delete : Bytes → List (Bytes × V) → List (Bytes × V)
  map_delete k [] = []
  map_delete k ((j, v) ∷ m) = if bytes_eq j k then m else (j, v) ∷ map_delete k m

  -- m[k] = v
  unfoldable pub map_assign : Bytes → V → List (Bytes × V) → List (Bytes × V)
  map_assign k v [] = (k, v) ∷ []
  map_assign k v ((j, w) ∷ m) = if bytes_eq j k then (k, v) ∷ m else (j, w) ∷ map_assign k v m
