-- ===== src/State/Table.antt =====
-- Python's `sorted` by a key of texts, and the updates of a table that is kept sorted by its keys.
pub mod Find
pub mod Sorted
pub mod Update
use arca_storage.Base.{
  Bool, not, Option, List, [], ◌∷◌, ◌++◌, Text, filter, find?, list_eqb, lex_le, nat_order,
  list_order, if◌then◌else◌,
}

-- A tuple of texts.
abbrev pub Key : Type 0
Key = List Text

abbrev pub key_eqb : Key → Key → Bool
key_eqb j k = list_eqb j k

abbrev pub key_le : Key → Key → Bool
key_le j k = lex_le j k

module _ {ℓ} {R : Type ℓ} (key : R → Key) where
  -- The record goes before the first one whose key is not less, so equal keys keep their order.
  unfoldable pub insert : R → List R → List R
  insert r [] = r ∷ []
  insert r (s ∷ rs) = if key_le (key r) (key s) then r ∷ s ∷ rs else s ∷ insert r rs

  -- `sorted(items, key=key)`
  unfoldable pub sorted : List R → List R
  sorted [] = []
  sorted (r ∷ rs) = insert r (sorted rs)

  -- The first record with the key.
  unfoldable pub find : Key → List R → Option R
  find k items = find? (λ r. key_eqb (key r) k) items

module _ {ℓ} {R : Type ℓ} (key : R → Key) (same : R → R → Bool) where
  -- The old records with the key go, the new one is added, and the table is sorted again.
  unfoldable pub put : R → List R → List R
  put r items = sorted key (filter (λ i. not (same i r)) items ++ r ∷ [])
