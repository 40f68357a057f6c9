-- ===== src/HashMap/Lookup.antt =====
-- `find` gives the entry of a key, wherever probing has put it, and always stops.
use order_book_sketch.Common.{
  ℕ, length, none, some, ◌<◌, ◌≡◌, ◌≢◌, arith, Option-cases, inl, inr, ◌∙◌, sym, subst,
}
use order_book_sketch.HashMap.{HashMap, Probe, no_end, entry, find, find_value}
use order_book_sketch.HashMap.Cyclic.{dist, dist_same, dist-eq}
use order_book_sketch.HashMap.Slots.{lookup, lookup-get_or, lookup-some, free_bucket}
use order_book_sketch.HashMap.Probing.{
  key_at, home, IsValid, key_to_idx_lem, home-below, some_bucket, Stop, find_from-Stop,
}

module _ {V : Type 0} (hash : ℕ → ℕ) (initial : V) where
  module _ (m : HashMap V) (h : IsValid hash initial m) (k : ℕ) where
    pub has_free :
        (z : ℕ) × (z < length m.buckets)
        × (key_at hash initial m.empty_key m.buckets z ≡ m.empty_key)
    has_free =
        free_bucket m.empty_key m.buckets (m.empty_key, initial)
          (omega (arith, h.counted, h.room, some_bucket hash initial m h.width h.count))

    pub find-Stop : Stop hash initial m.empty_key m.buckets k (find hash initial k m)
    unfolding find
    find-Stop =
        let (z, hz, blank) = has_free in
        rw (key_to_idx_lem hash initial m h.width h.count k) (
          find_from-Stop hash initial m h.width h.count k z hz blank (length m.buckets) _
            (home-below hash initial m h.width h.count k)
            (λ j hj lt. absurd (
              omega
                (arith, lt, dist_same (length m.buckets) (home hash initial (length m.buckets) k))))
            (omega arith))

    -- A free bucket before any entry of the key: there is none.
    pub lookup-Stop :
        k ≢ m.empty_key
        → (r : Probe) → (s : Stop hash initial m.empty_key m.buckets k r)
        → key_at hash initial m.empty_key m.buckets s.at ≡ m.empty_key
        → lookup k m.buckets ≡ none
    lookup-Stop ne r s blank = elim (Option-cases (lookup k m.buckets)) [
      | inl e ↦ e
      | inr (v, e) ↦
          let (p, hp, kp) = lookup-some k m.buckets (m.empty_key, initial) v e in
          let n = length m.buckets in
          let hh = home-below hash initial m h.width h.count k in
          let start = home hash initial n k in
          let later : dist n start p < dist n start s.at → ⊥ = λ lt. (s.before p hp lt).0 kp in
          let earlier : dist n start s.at < dist n start p → ⊥ =
            λ lt. h.chained p s.at hp s.below (λ z. ne (sym kp ∙ z)) (rw kp lt) blank in
          let same : p ≡ s.at =
            dist-eq n start p s.at hh hp s.below (omega (arith, later, earlier)) in
          absurd (ne (sym kp ∙ (rw same blank)))
    ]

    pub lookup-hit :
        k ≢ m.empty_key
        → (p : ℕ) → p < length m.buckets
        → key_at hash initial m.empty_key m.buckets p ≡ k
        → lookup k m.buckets ≡ some (entry hash initial m p).1
    lookup-hit ne p hp e =
        subst (λ q. lookup q m.buckets ≡ some (entry hash initial m p).1) e
          (lookup-get_or m.empty_key m.buckets p (m.empty_key, initial) hp (rw e ne) h.unique)

    -- In a valid map the loop of `find` ends at the key or at a free bucket.
    pub find_ends : find hash initial k m ≢ no_end
    find_ends e = elim find-Stop.ends [ inl (r, x) ↦ cc | inr (r, x) ↦ cc ]

    -- In a valid map `find` gives the value of the key's entry, and none exactly without one.
    pub find_value-lookup : k ≢ m.empty_key → find_value hash initial k m ≡ lookup k m.buckets
    unfolding find_value
    find_value-lookup ne =
        let s = find-Stop in
        elim s.ends [
          | inl (r, x) ↦ rw (r, find_value) (sym (lookup-hit ne s.at s.below x))
          | inr (r, x) ↦ rw (r, find_value) (sym (lookup-Stop ne _ s x))
        ]
