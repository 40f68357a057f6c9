-- ===== src/FlatMap.antt =====
-- `boost::container::flat_map<int64_t, Level, std::greater<int64_t>>`, as OrderBookType2 uses it: a
-- vector of entries in descending order of the key. An iterator is a position of the vector, also
-- after an erasure, where the position is that of the next entry.
pub mod Laws
use order_book_sketch.Common.{
  ℕ, zero, suc, Bool, ℤ, List, [], ◌∷◌, Option, none, some, ltb_ℤ, ◌==ℤ◌, if◌then◌else◌, ◌==◌,
}
use mathlib.Core.Option

module _ {V : Type 0} where
  -- `find(key)`, where `none` is `end()`
  unfoldable pub find : ℤ → List (ℤ × V) → Option ℕ
  find k [] = none
  find k ((j, v) ∷ m) = if j ==ℤ k then some 0 else Option.map suc (find k m)

  -- the vector after `insert(make_pair(key, v))`: an entry that is there is left as it is
  unfoldable pub insert : ℤ → V → List (ℤ × V) → List (ℤ × V)
  insert k v [] = (k, v) ∷ []
  insert k v ((j, w) ∷ m) =
      if j ==ℤ k
      then (j, w) ∷ m
      else if ltb_ℤ j k
      then (k, v) ∷ (j, w) ∷ m
      else (j, w) ∷ insert k v m

  -- the position that `insert` returns: the first that is not above the key
  unfoldable pub insert_pos : ℤ → List (ℤ × V) → ℕ
  insert_pos k [] = 0
  insert_pos k ((j, w) ∷ m) = if ltb_ℤ k j then suc (insert_pos k m) else 0

  -- a change of `it->second`
  unfoldable pub update_at : ℕ → (V → V) → List (ℤ × V) → List (ℤ × V)
  update_at i f [] = []
  update_at zero f ((j, v) ∷ m) = (j, f v) ∷ m
  update_at (suc i) f ((j, v) ∷ m) = (j, v) ∷ update_at i f m

  -- `it->second`
  unfoldable pub value_at : ℕ → List (ℤ × V) → Option V
  value_at i [] = none
  value_at zero ((j, v) ∷ m) = some v
  value_at (suc i) ((j, v) ∷ m) = value_at i m

  -- `erase(it)`
  unfoldable pub erase_at : ℕ → List (ℤ × V) → List (ℤ × V)
  erase_at i [] = []
  erase_at zero (e ∷ m) = m
  erase_at (suc i) (e ∷ m) = e ∷ erase_at i m

-- `it == begin()`
abbrev pub is_begin : ℕ → Bool
is_begin i = i == 0
