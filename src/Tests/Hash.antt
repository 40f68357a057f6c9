-- ===== src/Tests/Hash.antt =====
-- HashMap with the identity as its hash function.
use order_book_sketch.Common.{
  ℕ, [], ◌∷◌, length, none, some, ◌==◌, ◌<◌, if◌then◌else◌, ◌≡◌, ◌≢◌, refl, arith, replicate,
}
use order_book_sketch.HashMap.{
  HashMap, no_end, power_of_two, new_map, key_to_idx, probe_next, diff, find, find_value,
  emplace_from, emplace_here, insert_all, reserve, emplace_at, emplace, erase_from, erase,
}
use order_book_sketch.HashMap.Slots.{lookup}
use order_book_sketch.HashMap.Probing.{key_at, IsValid}
use order_book_sketch.HashMap.Lookup.{find_ends, find_value-lookup}
use order_book_sketch.HashMap.Insert.{IsInserted}
use order_book_sketch.HashMap.Grow.{new_map-IsValid, emplace-IsInserted}
use order_book_sketch.HashMap.Instance.{erase_lem}

abbrev same : ℕ → ℕ
same k = k

abbrev blank : HashMap ℕ
blank = new_map same 0 4 99

abbrev one : HashMap ℕ
one = (emplace same 0 5 50 blank).0

blank_runs : blank ≡ record { empty_key = 99; buckets = replicate 4 (99, 0); size = 0 }
unfolding new_map power_of_two
blank_runs = refl

one_runs :
    one ≡ record { empty_key = 99; buckets = (99, 0) ∷ (5, 50) ∷ (99, 0) ∷ (99, 0) ∷ []; size = 1 }
unfolding new_map power_of_two emplace emplace_at reserve emplace_here emplace_from key_to_idx
    probe_next
one_runs = refl

-- a table that grows, and an erasure that moves an entry up
abbrev three : HashMap ℕ
three = (emplace same 0 9 90 (emplace same 0 1 10 one).0).0

three_runs :
    three.buckets
    ≡ (99, 0) ∷ (1, 10) ∷ (9, 90) ∷ (99, 0) ∷ (99, 0) ∷ (5, 50) ∷ (99, 0) ∷ (99, 0) ∷ []
unfolding new_map power_of_two emplace emplace_at reserve insert_all emplace_here emplace_from
    key_to_idx probe_next
three_runs = refl

erase_runs :
    erase same 0 1 three
    ≡ some (record {
      empty_key = 99;
      buckets = (99, 0) ∷ (9, 90) ∷ (99, 90) ∷ (99, 0) ∷ (99, 0) ∷ (5, 50) ∷ (99, 0) ∷ (99, 0) ∷ [];
      size = 2;
    })
unfolding new_map power_of_two emplace emplace_at reserve insert_all emplace_here emplace_from
    key_to_idx probe_next erase erase_from diff
erase_runs = refl

blank-IsValid : IsValid same 0 blank
blank-IsValid = (new_map-IsValid same 0 4 99).0

five_is_new : lookup 5 blank.buckets ≡ none
unfolding new_map power_of_two lookup
five_is_new = refl

no_marker : 5 ≢ blank.empty_key
unfolding new_map
no_marker = omega arith

inserted : IsInserted same 0 5 50 blank (emplace same 0 5 50 blank)
inserted = emplace-IsInserted same 0 5 50 blank blank-IsValid no_marker five_is_new

emplace-IsInserted_example : IsInserted same 0 5 50 blank (emplace same 0 5 50 blank)
emplace-IsInserted_example =
    emplace-IsInserted same 0 5 50 blank blank-IsValid no_marker five_is_new

find_ends_example : find same 0 7 one ≢ no_end
find_ends_example = find_ends same 0 one inserted.valid 7

five_no_marker : 5 ≢ one.empty_key
five_no_marker = rw inserted.marker no_marker

find_value-lookup_example : find_value same 0 5 one ≡ lookup 5 one.buckets
find_value-lookup_example = find_value-lookup same 0 one inserted.valid 5 five_no_marker

one_at : (1 < length one.buckets) × (key_at same 0 one.empty_key one.buckets 1 ≢ one.empty_key)
one_at = rw one_runs (omega arith, omega arith)

erase_lem_example :
    (left : HashMap ℕ) × (erase same 0 1 one ≡ some left)
    × IsValid same 0 left
    × (left.empty_key ≡ one.empty_key)
    × ((q : ℕ)
        → q ≢ one.empty_key
        → lookup q left.buckets
          ≡ (if key_at same 0 one.empty_key one.buckets 1 == q then none else lookup q one.buckets))
erase_lem_example = erase_lem same 0 one inserted.valid 1 one_at.0 one_at.1
