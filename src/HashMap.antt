-- ===== src/HashMap.antt =====
-- Common/include/HashMap.h: a hash table with open addressing, whose number of buckets is a power of
-- two. A key that no entry may have marks the free buckets; the hash function and the value `T()` are
-- parameters. An iterator is a position. A loop of the source that has no bound runs on fuel, one
-- round for each bucket; `no_end` is its result without fuel left. A growing table copies its
-- entries with the method that grew it: `depth` counts how often a copy may grow in turn. The
-- number of buckets has no bound here; `diff` is the difference of two words that wraps around twice.
pub mod Cyclic
pub mod Slots
pub mod Probing
pub mod Lookup
pub mod Insert
pub mod Grow
pub mod Erase
pub mod Erased
pub mod Instance
use Prim.Native.Nat.{bit_and}
use order_book_sketch.Common.{
  ℕ, zero, suc, Bool, true, false, List, [], ◌∷◌, length, get_or, set, replicate, Option, none,
  some, ◌==◌, ltb, map, ◌+◌, ◌-◌, ◌*◌, if◌then◌else◌,
}

pub record HashMap (V : Type 0) : Type 0 where
  pub empty_key : ℕ
  pub buckets : List (ℕ × V)
  pub size : ℕ

pub data Probe : Type 0 where
  hit free : ℕ → Probe
  no_end : Probe

-- `while (pow2 < bucket_count) pow2 <<= 1`
unfoldable pub power_of_two : ℕ → ℕ → ℕ → ℕ
power_of_two zero p n = p
power_of_two (suc fuel) p n = let rest = power_of_two fuel (p * 2) n in if ltb p n then rest else p

module _ {V : Type 0} (hash : ℕ → ℕ) (initial : V) where
  -- `HashMap(bucket_count, empty_key)`
  unfoldable pub new_map : ℕ → ℕ → HashMap V
  unfolding power_of_two
  new_map count e = record {
    empty_key = e;
    buckets = replicate (power_of_two count 1 count) (e, initial);
    size = 0;
  }

  -- `buckets_[idx]`
  abbrev pub entry : HashMap V → ℕ → ℕ × V
  entry m i = get_or m.buckets i (m.empty_key, initial)

  abbrev pub bucket_count : HashMap V → ℕ
  bucket_count m = length m.buckets

  unfoldable pub key_to_idx : HashMap V → ℕ → ℕ
  key_to_idx m k = bit_and (hash k) (bucket_count m - 1)

  unfoldable pub probe_next : HashMap V → ℕ → ℕ
  probe_next m i = bit_and (i + 1) (bucket_count m - 1)

  unfoldable pub diff : HashMap V → ℕ → ℕ → ℕ
  diff m a b = bit_and (bucket_count m + a - b) (bucket_count m - 1)

  -- the loop of `find`
  unfoldable pub find_from : ℕ → ℕ → ℕ → HashMap V → Probe
  find_from zero k i m = no_end
  find_from (suc fuel) k i m =
      let rest = find_from fuel k (probe_next m i) m in
      if (entry m i).0 == k then hit i else if (entry m i).0 == m.empty_key then free i else rest

  -- `find`: `end()` unless the probe hits
  unfoldable pub find : ℕ → HashMap V → Probe
  find k m = find_from (bucket_count m) k (key_to_idx m k) m

  -- `find(k)->second`, none for `end()`
  unfoldable pub find_value : ℕ → HashMap V → Option V
  find_value k m = elim (find k m) [ hit i ↦ some (entry m i).1 | free i ↦ none | no_end ↦ none ]

  -- the loop of `emplace`
  unfoldable pub emplace_from : ℕ → ℕ → ℕ → HashMap V → Probe
  emplace_from zero k i m = no_end
  emplace_from (suc fuel) k i m =
      let rest = emplace_from fuel k (probe_next m i) m in
      if (entry m i).0 == m.empty_key then free i else if (entry m i).0 == k then hit i else rest

  -- `emplace` after its `reserve`: the map, the position and whether the key is new
  unfoldable pub emplace_here : ℕ → V → HashMap V → HashMap V × ℕ × Bool
  emplace_here k v m = elim (emplace_from (bucket_count m) k (key_to_idx m k) m) [
    | free i ↦ (record m { buckets = set m.buckets i (k, v); size = suc m.size }, i, true)
    | hit i ↦ (m, i, false)
    | no_end ↦ (m, 0, false)
  ]

  -- the loop of the copying constructor: the iterator leaves out the free buckets
  unfoldable pub insert_all :
      (ℕ → V → HashMap V → HashMap V) → ℕ → List (ℕ × V) → HashMap V → HashMap V
  insert_all insert e [] m = m
  insert_all insert e ((k, v) ∷ es) m = insert_all insert e es (if k == e then m else insert k v m)

  -- `reserve`
  unfoldable pub reserve : (ℕ → V → HashMap V → HashMap V) → ℕ → HashMap V → HashMap V
  reserve insert count m =
      if ltb (bucket_count m) (count * 2)
      then insert_all insert m.empty_key m.buckets (new_map (bucket_count m * 2) m.empty_key)
      else m

  -- `emplace`
  unfoldable pub emplace_at : ℕ → ℕ → V → HashMap V → HashMap V × ℕ × Bool
  emplace_at zero k v m = emplace_here k v m
  emplace_at (suc depth) k v m =
      emplace_here k v (reserve (λ k v m. (emplace_at depth k v m).0) (m.size + 1) m)

  unfoldable pub emplace : ℕ → V → HashMap V → HashMap V × ℕ × Bool
  emplace k v m = emplace_at 2 k v m

  -- the loop of `erase(it)`: `bucket` is the bucket that gets free
  unfoldable pub erase_from : ℕ → ℕ → ℕ → HashMap V → Option (HashMap V)
  erase_from zero bucket i m = none
  erase_from (suc fuel) bucket i m =
      let ideal = key_to_idx m (entry m i).0 in
      let swap = ltb (diff m bucket ideal) (diff m i ideal) in
      let rest =
        erase_from fuel (if swap then i else bucket) (probe_next m i)
          (if swap then record m { buckets = set m.buckets bucket (entry m i) } else m) in
      if (entry m i).0 == m.empty_key
      then some (record m {
        buckets = set m.buckets bucket (m.empty_key, (entry m bucket).1);
        size = m.size - 1;
      })
      else rest

  unfoldable pub erase : ℕ → HashMap V → Option (HashMap V)
  erase i m = erase_from (bucket_count m) i (probe_next m i) m

  -- `erase(find(k))` where the key is found
  unfoldable pub erase_found : ℕ → HashMap V → HashMap V
  erase_found k m = elim (find k m) [
    | hit i ↦ elim (erase i m) [ none ↦ m | some left ↦ left ]
    | free i ↦ m
    | no_end ↦ m
  ]

  -- `emplace(k, v)` as a dictionary's: the map, `first->second` and `second`
  unfoldable pub emplace_value : ℕ → V → HashMap V → HashMap V × V × Bool
  emplace_value k v m = let (r, i, inserted) = emplace k v m in (r, (entry r i).1, inserted)

  -- `clear`, which leaves the size as it is
  unfoldable pub clear : HashMap V → HashMap V
  clear m = record m { buckets = map (λ b. (m.empty_key, b.1)) m.buckets }
