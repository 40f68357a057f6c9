-- ===== src/HashMap/Insert.antt =====
-- `emplace`: into the bucket where the probe stops, after the table has grown if it was half full.
use order_book_sketch.Common.{
  ℕ, suc, Bool, true, false, List, length, set, none, some, ◌==◌, ◌*◌, ◌<◌, ◌≤◌, if◌then◌else◌, ◌≡◌,
  ◌≢◌, refl, arith, Bool-cases, inl, inr, ◌∙◌, ap, ==→eq, length-set, get_or-set_self,
  get_or-set_ne,
}
use order_book_sketch.HashMap.{
  HashMap, Probe, entry, bucket_count, key_to_idx, find, emplace_from, emplace_here,
}
use order_book_sketch.HashMap.Slots.{lookup, lookup-fill, fill-IsUnique, occupied-fill}
use order_book_sketch.HashMap.Probing.{key_at, IsChained, IsValid, Stop, emplace_from-find_from}
use order_book_sketch.HashMap.Lookup.{find-Stop, lookup-Stop, lookup-hit}

module _ {V : Type 0} (hash : ℕ → ℕ) (initial : V) where
  pub key_at-set :
      (e : ℕ) (es : List (ℕ × V)) (p i k : ℕ) (v : V)
      → p < length es
      → key_at hash initial e (set es p (k, v)) i
        ≡ (if p == i then k else key_at hash initial e es i)
  key_at-set e es p i k v h = elim (Bool-cases (p == i)) [
    | inl y ↦
        rw y (
          rw (← ==→eq p i y) (ap (λ (x : ℕ × V). x.0) (get_or-set_self es p (k, v) (e, initial) h)))
    | inr n ↦
        rw n
          (ap (λ (x : ℕ × V). x.0) (get_or-set_ne es p i (k, v) (e, initial) (ground (arith, n))))
  ]

  -- An entry in the bucket where its probe stops is chained.
  fill-IsChained :
      (e k : ℕ) (v : V) (es : List (ℕ × V)) (r : Probe)
      → k ≢ e
      → (s : Stop hash initial e es k r) → IsChained hash initial e es
      → IsChained hash initial e (set es s.at (k, v))
  fill-IsChained e k v es r ne s c = rw length-set (λ i j hi hj ni lt.
      elim (Bool-cases (s.at == j)) [
        | inl y ↦ rw (key_at-set e es s.at j k v s.below, y) ne
        | inr nj ↦
            rw (key_at-set e es s.at j k v s.below, nj)
              (elim (Bool-cases (s.at == i)) [
                | inl y ↦
                    (s.before j hj
                      (rw (==→eq _ _ y) (rw (key_at-set e es s.at i k v s.below, y) at lt))).1
                | inr n ↦
                    c i j hi hj (rw (key_at-set e es s.at i k v s.below, n) at ni)
                      (rw (key_at-set e es s.at i k v s.below, n) at lt)
              ])
      ])

  -- what `emplace` of a new key makes of a map
  pub record IsInserted (k : ℕ) (v : V) (m : HashMap V) (r : HashMap V × ℕ × Bool) : Type 0 where
    pub valid : IsValid hash initial r.0
    pub marker : r.0.empty_key ≡ m.empty_key
    pub grown : r.0.size ≡ suc m.size
    pub value : (entry hash initial r.0 r.1).1 ≡ v
    pub inserted : r.2 ≡ true
    pub finds :
        (q : ℕ)
        → q ≢ m.empty_key
        → lookup q r.0.buckets ≡ (if k == q then some v else lookup q m.buckets)

  module _ (k : ℕ) (v : V) (m : HashMap V) (h : IsValid hash initial m) (ne : k ≢ m.empty_key) where
    probe_eq :
        emplace_from hash initial (bucket_count hash initial m) k (key_to_idx hash initial m k) m
        ≡ find hash initial k m
    unfolding find
    probe_eq = emplace_from-find_from hash initial m (length m.buckets) k _ ne

    pub emplace_here-IsInserted :
        lookup k m.buckets ≡ none
        → suc m.size * 2 ≤ length m.buckets
        → IsInserted k v m (emplace_here hash initial k v m)
          × (length (emplace_here hash initial k v m).0.buckets ≡ length m.buckets)
    unfolding emplace_here
    emplace_here-IsInserted new room =
        let s = find-Stop hash initial m h k in
        elim s.ends [
          | inl (r, x) ↦ cc (new, lookup-hit hash initial m h k ne s.at s.below x)
          | inr (r, x) ↦
              rw (probe_eq ∙ r, emplace_here)
                (
                  record {
                    valid = record {
                      width = h.width;
                      count = rw length-set h.count;
                      chained = fill-IsChained m.empty_key k v m.buckets _ ne s h.chained;
                      unique =
                          fill-IsUnique m.empty_key k v m.buckets s.at (m.empty_key, initial) ne
                            s.below x new h.unique;
                      counted =
                          occupied-fill m.empty_key k v m.buckets s.at (m.empty_key, initial) ne
                            s.below x
                          ∙ ap suc h.counted;
                      room = rw length-set room;
                    };
                    marker = refl;
                    grown = refl;
                    value =
                        ap (λ (y : ℕ × V). y.1)
                          (get_or-set_self m.buckets s.at (k, v) (m.empty_key, initial) s.below);
                    inserted = refl;
                    finds = λ q nq.
                        lookup-fill m.empty_key q k v m.buckets s.at (m.empty_key, initial) nq
                          s.below x new;
                  },
                  length-set m.buckets s.at (k, v),
                )
        ]

    pub emplace_here-old :
        (w : V)
        → lookup k m.buckets ≡ some w
        → ((emplace_here hash initial k v m).0 ≡ m)
          × ((entry hash initial m (emplace_here hash initial k v m).1).1 ≡ w)
          × ((emplace_here hash initial k v m).2 ≡ false)
    unfolding emplace_here
    emplace_here-old w old =
        let s = find-Stop hash initial m h k in
        elim s.ends [
          | inr (r, x) ↦ cc (old, lookup-Stop hash initial m h k ne _ s x)
          | inl (r, x) ↦
              rw (probe_eq ∙ r, emplace_here)
                (refl, cc (old, lookup-hit hash initial m h k ne s.at s.below x), refl)
        ]
