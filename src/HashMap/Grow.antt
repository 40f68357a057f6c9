-- ===== src/HashMap/Grow.antt =====
-- A table that is half full is copied into one with twice the buckets, which holds the same entries.
use native.Mathlib.Nat.{pow-suc}
use order_book_sketch.Common.{
  ℕ, zero, suc, false, List, [], ◌∷◌, length, Option, none, some, ◌==◌, ltb, ◌+◌, ◌*◌, ◌^◌, ◌≤◌,
  ◌≡◌, ◌≢◌, refl, arith, Bool-cases, Option-cases, inl, inr, ◌∙◌, sym, ap, length-replicate,
}
use order_book_sketch.HashMap.{
  HashMap, entry, power_of_two, new_map, emplace_here, insert_all, reserve, emplace_at, emplace,
}
use order_book_sketch.HashMap.Cyclic.{pow_pos}
use order_book_sketch.HashMap.Slots.{
  lookup, occupied, IsUnique, occupied-replicate, lookup-replicate, replicate-IsUnique,
  get_or-replicate,
}
use order_book_sketch.HashMap.Probing.{IsValid, some_bucket}
use order_book_sketch.HashMap.Insert.{IsInserted, emplace_here-IsInserted, emplace_here-old}

-- The constructor's loop doubles up to a power of two that is large enough.
pub power_of_two_lem :
    (fuel a n : ℕ)
    → n ≤ fuel + 2 ^ a
    → (b : ℕ) × (power_of_two fuel (2 ^ a) n ≡ 2 ^ b) × (n ≤ 2 ^ b)
unfolding power_of_two
power_of_two_lem zero a n h = (a, refl, omega (arith, h))
power_of_two_lem (suc fuel) a n h = elim (Bool-cases (ltb (2 ^ a) n)) [
  | inl y ↦
      let (b, e, le) = power_of_two_lem fuel (suc a) n (omega (arith, h, pow-suc 2 a, pow_pos a)) in
      (b, rw y (ap (λ p. power_of_two fuel p n) (sym (pow-suc 2 a)) ∙ e), le)
  | inr x ↦ (a, rw x refl, ground (arith, x))
]

abbrev pub or_else : {V : Type 0} → Option V → Option V → Option V
or_else (some v) o = some v
or_else none o = o

module _ {V : Type 0} (hash : ℕ → ℕ) (initial : V) where
  -- A method that inserts into a table with room as `emplace` does.
  abbrev pub Inserts : (ℕ → V → HashMap V → HashMap V) → Type 0
  Inserts insert =
      (k : ℕ) (v : V) (m : HashMap V)
      → suc m.size * 2 ≤ length m.buckets
      → insert k v m ≡ (emplace_here hash initial k v m).0

  pub new_map-IsValid :
      (count e : ℕ)
      → IsValid hash initial (new_map hash initial count e)
        × (count ≤ length (new_map hash initial count e).buckets)
  unfolding new_map
  new_map-IsValid count e =
      let (b, p, le) = power_of_two_lem count 0 count (omega arith) in
      let size = length-replicate (power_of_two count 1 count) (e, initial) in
      (
        record {
          width = b;
          count = size ∙ p;
          chained = λ i j hi hj n. absurd (n (get_or-replicate e _ i initial));
          unique = replicate-IsUnique e _ initial;
          counted = occupied-replicate e _ initial;
          room = omega arith;
        },
        omega (arith, size, p, le),
      )

  pub new_map_empty :
      (count e : ℕ)
      → ((new_map hash initial count e).empty_key ≡ e)
        × ((new_map hash initial count e).size ≡ 0)
        × ((q : ℕ) → q ≢ e → lookup q (new_map hash initial count e).buckets ≡ none)
  unfolding new_map
  new_map_empty count e = (refl, refl, λ q nq. lookup-replicate e q _ initial nq)

  copied : (o p : Option V) → p ≡ none → or_else o p ≡ o
  copied none p e = e
  copied (some v) p e = refl

  -- a copy of `m`, with the entries of `es` as well
  pub record IsCopy (e n k : ℕ) (finds : ℕ → Option V) (m : HashMap V) : Type 0 where
    pub valid : IsValid hash initial m
    pub marker : m.empty_key ≡ e
    pub buckets : length m.buckets ≡ n
    pub size : m.size ≡ k
    pub holds : (q : ℕ) → q ≢ e → lookup q m.buckets ≡ finds q

  pub insert_all-IsCopy :
      (insert : ℕ → V → HashMap V → HashMap V)
      → Inserts insert
      → (e : ℕ) (es : List (ℕ × V)) (m : HashMap V) → IsValid hash initial m
      → m.empty_key ≡ e
      → IsUnique e es
      → ((q : ℕ) → q ≢ e → lookup q m.buckets ≢ none → lookup q es ≡ none)
      → (m.size + occupied e es) * 2 ≤ length m.buckets
      → IsCopy e
          (length m.buckets)
          (m.size + occupied e es)
          (λ q. or_else (lookup q es) (lookup q m.buckets))
          (insert_all hash initial insert e es m)
  unfolding insert_all lookup occupied
  insert_all-IsCopy insert ins e [] m h mark u apart room = record {
    valid = h;
    marker = mark;
    buckets = refl;
    size = omega arith;
    holds = λ q nq. refl;
  }
  insert_all-IsCopy insert ins e ((k, v) ∷ es) m h mark u apart room = elim (Bool-cases (k == e)) [
    | inl y ↦
        let r =
          insert_all-IsCopy insert ins e es m h mark u.1
            (λ q nq found. ground (arith, apart q nq found, y)) (ground (arith, room, y)) in
        rw y record {
          valid = r.valid;
          marker = r.marker;
          buckets = r.buckets;
          size = r.size ∙ omega arith;
          holds = λ q nq. r.holds q nq ∙ ground (arith, y, nq);
        }
    | inr n ↦
        let ne : k ≢ e = ground (arith, n) in
        let new : lookup k m.buckets ≡ none = elim (Option-cases (lookup k m.buckets)) [
          | inl z ↦ z
          | inr (w, z) ↦
              let f : lookup k ((k, v) ∷ es) ≡ none = apart k ne (λ x. cc (x, z)) in
              ground (arith, f)
        ] in
        let room' : suc m.size * 2 ≤ length m.buckets = ground (arith, room, n) in
        let (ok, same) = emplace_here-IsInserted hash initial k v m h (rw mark ne) new room' in
        let step : insert k v m ≡ (emplace_here hash initial k v m).0 = ins k v m room' in
        let r =
          insert_all-IsCopy insert ins e es (emplace_here hash initial k v m).0 ok.valid
            (ok.marker ∙ mark) u.1
            (λ q nq found. ground (arith, ok.finds q (rw mark nq), u.0 ne, apart q nq, found))
            (ground (arith, ok.grown, same, room, n)) in
        rw (n, step)
          record {
            valid = r.valid;
            marker = r.marker;
            buckets = r.buckets ∙ same;
            size = r.size ∙ omega (arith, ok.grown);
            holds = λ q nq. r.holds q nq ∙ ground (arith, ok.finds q (rw mark nq), u.0 ne);
          }
  ]

  -- `reserve` for one more entry keeps the entries, and half of the buckets stay free with one more.
  pub reserve-IsCopy :
      (insert : ℕ → V → HashMap V → HashMap V)
      → Inserts insert
      → (m : HashMap V) → IsValid hash initial m
      → IsCopy m.empty_key
          (length (reserve hash initial insert (m.size + 1) m).buckets)
          m.size
          (λ q. lookup q m.buckets)
          (reserve hash initial insert (m.size + 1) m)
        × (suc m.size * 2 ≤ length (reserve hash initial insert (m.size + 1) m).buckets)
  unfolding reserve
  reserve-IsCopy insert ins m h = elim (Bool-cases (ltb (length m.buckets) ((m.size + 1) * 2))) [
    | inr n ↦ rw n (
      record { valid = h; marker = refl; buckets = refl; size = refl; holds = λ q nq. refl },
      ground (arith, n),
    )
    | inl y ↦
        let fresh = new_map hash initial (length m.buckets * 2) m.empty_key in
        let (ok, large) = new_map-IsValid (length m.buckets * 2) m.empty_key in
        let (mark, none_yet, nothing) = new_map_empty (length m.buckets * 2) m.empty_key in
        let pos = some_bucket hash initial m h.width h.count in
        let r =
          insert_all-IsCopy insert ins m.empty_key m.buckets fresh ok mark h.unique
            (λ q nq found. absurd (found (nothing q nq)))
            (omega (arith, none_yet, h.counted, h.room, large, pos)) in
        rw y (
          record {
            valid = r.valid;
            marker = r.marker;
            buckets = refl;
            size = r.size ∙ omega (arith, none_yet, h.counted);
            holds = λ q nq. r.holds q nq ∙ copied (lookup q m.buckets) _ (nothing q nq);
          },
          omega (arith, r.buckets, large, h.room, pos),
        )
  ]

  pub emplace_at-Inserts : (depth : ℕ) → Inserts (λ k v m. (emplace_at hash initial depth k v m).0)
  unfolding emplace_at reserve
  emplace_at-Inserts zero k v m room = refl
  emplace_at-Inserts (suc depth) k v m room =
      let enough : ltb (length m.buckets) ((m.size + 1) * 2) ≡ false = ground (arith, room) in
      rw enough refl

  module _ (k : ℕ) (v : V) (m : HashMap V) (h : IsValid hash initial m) (ne : k ≢ m.empty_key) where
    -- `emplace` of a key that the map does not hold
    pub emplace-IsInserted :
        lookup k m.buckets ≡ none → IsInserted hash initial k v m (emplace hash initial k v m)
    unfolding emplace emplace_at
    emplace-IsInserted new =
        let (c, room) = reserve-IsCopy _ (emplace_at-Inserts 1) m h in
        let r =
          (emplace_here-IsInserted hash initial k v _ c.valid (rw c.marker ne) (c.holds k ne ∙ new)
            (rw c.size room)).0 in
        record {
          valid = r.valid;
          marker = r.marker ∙ c.marker;
          grown = r.grown ∙ ap suc c.size;
          value = r.value;
          inserted = r.inserted;
          finds = λ q nq. r.finds q (rw c.marker nq) ∙ rw (c.holds q nq) refl;
        }

    -- `emplace` of a key that the map holds, which may have grown meanwhile
    pub emplace_old :
        (w : V)
        → lookup k m.buckets ≡ some w
        → IsCopy m.empty_key
            (length (emplace hash initial k v m).0.buckets)
            m.size
            (λ q. lookup q m.buckets)
            (emplace hash initial k v m).0
          × ((entry hash initial (emplace hash initial k v m).0 (emplace hash initial k v m).1).1
              ≡ w)
          × ((emplace hash initial k v m).2 ≡ false)
    unfolding emplace emplace_at
    emplace_old w old =
        let (c, room) = reserve-IsCopy _ (emplace_at-Inserts 1) m h in
        let (same, value, no_new) =
          emplace_here-old hash initial k v _ c.valid (rw c.marker ne) w (c.holds k ne ∙ old) in
        (
          record {
            valid = rw same c.valid;
            marker = rw same c.marker;
            buckets = refl;
            size = rw same c.size;
            holds = λ q nq. rw same (c.holds q nq);
          },
          rw same value,
          no_new,
        )
