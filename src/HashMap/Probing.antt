-- ===== src/HashMap/Probing.antt =====
-- Linear probing: from the bucket of its hash on, a key's entry comes before any free bucket, and the
-- loops of `find` and `emplace` stop.
use order_book_sketch.Common.{
  ℕ, zero, suc, List, length, get_or, ◌==◌, ◌+◌, ◌-◌, ◌*◌, ◌%◌, ◌^◌, ◌<◌, ◌≤◌, ◌≡◌, ◌≢◌, ◌⊎◌, refl,
  arith, Bool-cases, inl, inr, ◌∙◌, ==→eq,
}
use Prim.Native.Nat.{bit_and}
use native.Mathlib.Nat.{mod-lt}
use order_book_sketch.HashMap.{
  HashMap, Probe, hit, free, entry, key_to_idx, probe_next, diff, find_from, emplace_from,
}
use order_book_sketch.HashMap.Cyclic.{
  next, dist, pow_pos, bit_and-mask, mod-next, mod-dist, dist-next, dist-below, dist-eq, next-below,
}
use order_book_sketch.HashMap.Slots.{occupied, IsUnique}

module _ {V : Type 0} (hash : ℕ → ℕ) (initial : V) where
  abbrev pub key_at : ℕ → List (ℕ × V) → ℕ → ℕ
  key_at e es i = (get_or es i (e, initial)).0

  -- the first bucket of a key among `n`
  abbrev pub home : ℕ → ℕ → ℕ
  home n k = hash k % n

  -- Between its first bucket and the bucket that it is in, an entry has no free bucket.
  abbrev pub IsChained : ℕ → List (ℕ × V) → Type 0
  IsChained e es =
      (i j : ℕ)
      → i < length es
      → j < length es
      → key_at e es i ≢ e
      → dist (length es) (home (length es) (key_at e es i)) j
        < dist (length es) (home (length es) (key_at e es i)) i
      → key_at e es j ≢ e

  pub record IsValid (m : HashMap V) : Type 0 where
    pub width : ℕ
    pub count : length m.buckets ≡ 2 ^ width
    pub chained : IsChained m.empty_key m.buckets
    pub unique : IsUnique m.empty_key m.buckets
    pub counted : occupied m.empty_key m.buckets ≡ m.size
    pub room : m.size * 2 ≤ length m.buckets

  -- the masks of the code, with a power of two of buckets
  module _ (m : HashMap V) (w : ℕ) (count : length m.buckets ≡ 2 ^ w) where
    pub some_bucket : 0 < length m.buckets
    some_bucket = rw count (pow_pos w)

    masked : (a : ℕ) → bit_and a (length m.buckets - 1) ≡ a % length m.buckets
    masked a = rw count (bit_and-mask w a)

    pub key_to_idx_lem : (k : ℕ) → key_to_idx hash initial m k ≡ home (length m.buckets) k
    unfolding key_to_idx
    key_to_idx_lem k = masked (hash k)

    pub home-below : (k : ℕ) → home (length m.buckets) k < length m.buckets
    home-below k = mod-lt (hash k) some_bucket

    pub probe_next_lem :
        (i : ℕ) → i < length m.buckets → probe_next hash initial m i ≡ next (length m.buckets) i
    unfolding probe_next
    probe_next_lem i h = masked (i + 1) ∙ mod-next (length m.buckets) i h

    pub diff_lem :
        (a b : ℕ)
        → a < length m.buckets
        → b < length m.buckets
        → diff hash initial m a b ≡ dist (length m.buckets) b a
    unfolding diff
    diff_lem a b ha hb = masked (length m.buckets + a - b) ∙ mod-dist (length m.buckets) a b ha hb

  -- where a probe for `k` stops: at the key, or at the first free bucket
  pub record Stop (e : ℕ) (es : List (ℕ × V)) (k : ℕ) (r : Probe) : Type 0 where
    pub at : ℕ
    pub below : at < length es
    pub before :
        (j : ℕ)
        → j < length es
        → dist (length es) (home (length es) k) j < dist (length es) (home (length es) k) at
        → (key_at e es j ≢ k) × (key_at e es j ≢ e)
    pub ends : ((r ≡ hit at) × (key_at e es at ≡ k)) ⊎ ((r ≡ free at) × (key_at e es at ≡ e))

  module _ (m : HashMap V) (w : ℕ) (count : length m.buckets ≡ 2 ^ w) (k z : ℕ)
      (hz : z < length m.buckets) (blank : key_at m.empty_key m.buckets z ≡ m.empty_key) where
    abbrev at_dist : ℕ → ℕ
    at_dist i = dist (length m.buckets) (home (length m.buckets) k) i

    abbrev Passed : ℕ → Type 0
    Passed i =
        (j : ℕ)
        → j < length m.buckets
        → at_dist j < at_dist i
        → (key_at m.empty_key m.buckets j ≢ k) × (key_at m.empty_key m.buckets j ≢ m.empty_key)

    Passed-next :
        (i : ℕ)
        → i < length m.buckets
        → Passed i
        → key_at m.empty_key m.buckets i ≢ k
        → key_at m.empty_key m.buckets i ≢ m.empty_key
        → (at_dist (next (length m.buckets) i) ≡ suc (at_dist i))
          × Passed (next (length m.buckets) i)
    Passed-next i hi p nk ne =
        let hh = home-below m w count k in
        let not_before : at_dist z < at_dist i → ⊥ = λ lt. (p z hz lt).1 blank in
        let not_same : at_dist i ≡ at_dist z → ⊥ = λ s.
          ne (rw (dist-eq (length m.buckets) (home (length m.buckets) k) i z hh hi hz s) blank) in
        let room : suc (at_dist i) < length m.buckets = omega (
          arith,
          not_before,
          not_same,
          dist-below (length m.buckets) (home (length m.buckets) k) z hh hz,
        ) in
        let step = dist-next (length m.buckets) (home (length m.buckets) k) i hh hi room in
        (
          step,
          λ j hj lt. elim (Bool-cases (at_dist j == at_dist i)) [
            | inl y ↦
                let same =
                  dist-eq (length m.buckets) (home (length m.buckets) k) j i hh hj hi
                    (==→eq _ _ y) in
                rw same (nk, ne)
            | inr x ↦ p j hj (ground (arith, lt, step, x))
          ],
        )

    -- With a free bucket and a round for each bucket, the loop of `find` stops.
    pub find_from-Stop :
        (fuel i : ℕ)
        → i < length m.buckets
        → Passed i
        → length m.buckets ≤ fuel + at_dist i
        → Stop m.empty_key m.buckets k (find_from hash initial fuel k i m)
    unfolding find_from
    find_from-Stop zero i hi p enough = absurd (
        omega (
          arith,
          dist-below (length m.buckets) (home (length m.buckets) k) i (home-below m w count k) hi,
        ))
    find_from-Stop (suc fuel) i hi p enough = elim (Bool-cases ((entry hash initial m i).0 == k)) [
      | inl y ↦ rw y (record { at = i; below = hi; before = p; ends = inl (refl, ==→eq _ _ y) })
      | inr nk ↦ elim (Bool-cases ((entry hash initial m i).0 == m.empty_key)) [
        | inl y ↦
            rw (nk, y) (record { at = i; below = hi; before = p; ends = inr (refl, ==→eq _ _ y) })
        | inr ne ↦
            let (step, p') = Passed-next i hi p (ground (arith, nk)) (ground (arith, ne)) in
            rw (nk, ne, probe_next_lem m w count i hi)
              (find_from-Stop fuel (next (length m.buckets) i) (next-below _ i hi) p'
                (omega (arith, enough, step)))
      ]
    ]

  -- The loop of `emplace` stops where that of `find` does.
  pub emplace_from-find_from :
      (m : HashMap V) (fuel k i : ℕ)
      → k ≢ m.empty_key
      → emplace_from hash initial fuel k i m ≡ find_from hash initial fuel k i m
  unfolding emplace_from find_from
  emplace_from-find_from m zero k i ne = refl
  emplace_from-find_from m (suc fuel) k i ne =
      ground (arith, emplace_from-find_from m fuel k (probe_next hash initial m i) ne)
