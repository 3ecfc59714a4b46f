-- ===== src/Common/Sort.antt =====
-- sort.Sort by a byte-string key, as insertion sort: the result is the same list wherever the keys
-- are distinct, which the callers' are.

use mathlib.Core.List.{List, [], ◌∷◌}
use bfe.Common.Tests.{if◌then◌else◌}
use bfe.Common.Text.{Bytes, bytes_le}

module _ {ℓ} {A : Type ℓ} (key : A → Bytes) where
  unfoldable pub insert_by : A → List A → List A
  unfolding bytes_le
  insert_by a [] = a ∷ []
  insert_by a (b ∷ bs) = if bytes_le (key a) (key b) then a ∷ b ∷ bs else b ∷ insert_by a bs

  unfoldable pub sort_by : List A → List A
  unfolding insert_by
  sort_by [] = []
  sort_by (a ∷ bs) = insert_by a (sort_by bs)
