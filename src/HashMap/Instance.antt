-- ===== src/HashMap/Instance.antt =====
-- The hash table fills the interface that the books and the managers take.
use order_book_sketch.Common.{
  ℕ, true, false, length, get_or, none, some, ◌==◌, ◌<◌, if◌then◌else◌, ◌≡◌, ◌≢◌, refl, arith,
  Option-cases, inl, inr, ◌∙◌, sym, length-set,
}
use order_book_sketch.Dictionary.{Dictionary}
use order_book_sketch.HashMap.{HashMap, new_map, find_value, emplace_value, erase, erase_found}
use order_book_sketch.HashMap.Cyclic.{next, dist-below, dist_one, dist_pos, next-below}
use order_book_sketch.HashMap.Slots.{lookup, lookup-blank, blank-IsUnique, occupied-blank}
use order_book_sketch.HashMap.Probing.{key_at, IsValid, probe_next_lem}
use order_book_sketch.HashMap.Lookup.{has_free, find-Stop, lookup-Stop, find_value-lookup}
use order_book_sketch.HashMap.Grow.{new_map-IsValid, new_map_empty, emplace-IsInserted, emplace_old}
use order_book_sketch.HashMap.Erase.{IsLoop}
use order_book_sketch.HashMap.Erased.{erase_from-IsErased}

module _ {V : Type 0} (hash : ℕ → ℕ) (initial : V) where
  module _ (m : HashMap V) (h : IsValid hash initial m) where
    first-IsLoop :
        (p z : ℕ)
        → p < length m.buckets
        → z < length m.buckets
        → z ≢ p
        → key_at hash initial m.empty_key m.buckets z ≡ m.empty_key
        → IsLoop hash initial m.empty_key
            (length m.buckets)
            m.buckets
            p
            (next (length m.buckets) p)
            z
    first-IsLoop p z hp hz nz blank =
        let n = length m.buckets in
        let one = dist_one n p z hp hz (λ s. nz (sym s)) in
        record {
          size = refl;
          bucket = hp;
          at = next-below n p hp;
          end = hz;
          not_bucket = nz;
          blank = blank;
          ahead = omega (arith, one, dist_pos n p z hp hz (λ s. nz (sym s)));
          behind = omega (arith, one);
          chain = λ x j hx hj nx nj tx lt. h.chained x j hx hj tx lt;
          broken = λ x hx nx tx lt. omega (arith, one, dist_pos n p x hp hx (λ s. nx (sym s)));
        }

    -- `erase` of an entry ends, and leaves a valid map with the other entries.
    pub erase_lem :
        (p : ℕ)
        → p < length m.buckets
        → key_at hash initial m.empty_key m.buckets p ≢ m.empty_key
        → (left : HashMap V) × (erase hash initial p m ≡ some left)
          × IsValid hash initial left
          × (left.empty_key ≡ m.empty_key)
          × ((q : ℕ)
              → q ≢ m.empty_key
              → lookup q left.buckets ≡ (
                  if key_at hash initial m.empty_key m.buckets p == q
                  then none
                  else lookup q m.buckets))
    unfolding erase
    erase_lem p hp taken =
        let (z, hz, blank) = has_free hash initial m h 0 in
        let n = length m.buckets in
        let nz : z ≢ p = λ s. taken (rw (← s) blank) in
        let u = blank-IsUnique m.empty_key _ m.buckets p (m.empty_key, initial) hp taken h.unique in
        let r =
          erase_from-IsErased hash initial n p (next n p) z h.width m h.count
            (first-IsLoop p z hp hz nz blank) u
            (dist-below n (next n p) z (next-below n p hp) hz) in
        let fewer =
          occupied-blank m.empty_key (get_or m.buckets p (m.empty_key, initial)).1 m.buckets p
            (m.empty_key, initial) hp taken in
        let len = r.buckets ∙ length-set m.buckets p _ in
        (
          r.left,
          rw (probe_next_lem hash initial m h.width h.count p hp) r.gives,
          record {
            width = h.width;
            count = len ∙ h.count;
            chained = rw r.marker r.chained;
            unique = rw r.marker r.same.unique;
            counted = rw r.marker (r.same.taken ∙ omega (arith, fewer, h.counted, r.size));
            room = omega (arith, len, r.size, h.room);
          },
          r.marker,
          λ q nq.
              r.same.finds q nq
              ∙ lookup-blank m.empty_key q _ m.buckets p (m.empty_key, initial) nq hp taken
                  h.unique,
        )

    pub erase_found-lookup :
        (k : ℕ) (w : V)
        → k ≢ m.empty_key
        → lookup k m.buckets ≡ some w
        → IsValid hash initial (erase_found hash initial k m)
          × ((erase_found hash initial k m).empty_key ≡ m.empty_key)
          × ((q : ℕ)
              → q ≢ m.empty_key
              → lookup q (erase_found hash initial k m).buckets
                ≡ (if k == q then none else lookup q m.buckets))
    unfolding erase_found
    erase_found-lookup k w ne old =
        let s = find-Stop hash initial m h k in
        elim s.ends [
          | inr (r, x) ↦ cc (old, lookup-Stop hash initial m h k ne _ s x)
          | inl (r, x) ↦
              let (left, gives, ok, mark, finds) = erase_lem s.at s.below (rw x ne) in
              rw (r, erase_found)
                (rw (gives, erase_found) (ok, mark, λ q nq. finds q nq ∙ rw x refl))
        ]

  -- With an empty key `e`, at which the interface makes no promise.
  module _ (e : ℕ) where
    abbrev pub Fits : HashMap V → Type 0
    Fits m = IsValid hash initial m × (m.empty_key ≡ e)

    seen :
        (k : ℕ) (m : HashMap V) → Fits m → k ≢ e → find_value hash initial k m ≡ lookup k m.buckets
    seen k m f ne = find_value-lookup hash initial m f.0 k (rw f.1 ne)

    pub emplace_new_lem :
        (k : ℕ) (v : V) (m : HashMap V)
        → Fits m
        → k ≢ e
        → find_value hash initial k m ≡ none
        → ((emplace_value hash initial k v m).1 ≡ v) × ((emplace_value hash initial k v m).2 ≡ true)
    unfolding emplace_value
    emplace_new_lem k v m f ne a =
        let r = emplace-IsInserted hash initial k v m f.0 (rw f.1 ne) (sym (seen k m f ne) ∙ a) in
        (r.value, r.inserted)

    pub emplace_old_lem :
        (k : ℕ) (v : V) (m : HashMap V) (w : V)
        → Fits m
        → k ≢ e
        → find_value hash initial k m ≡ some w
        → ((emplace_value hash initial k v m).1 ≡ w)
          × ((emplace_value hash initial k v m).2 ≡ false)
    unfolding emplace_value
    emplace_old_lem k v m w f ne a =
        let r = emplace_old hash initial k v m f.0 (rw f.1 ne) w (sym (seen k m f ne) ∙ a) in
        (r.1, r.2)

    pub emplace_Fits :
        (k : ℕ) (v : V) (m : HashMap V) → Fits m → k ≢ e → Fits (emplace_value hash initial k v m).0
    unfolding emplace_value
    emplace_Fits k v m f ne = elim (Option-cases (lookup k m.buckets)) [
      | inl a ↦
          let r = emplace-IsInserted hash initial k v m f.0 (rw f.1 ne) a in
          (r.valid, r.marker ∙ f.1)
      | inr (w, a) ↦
          let r = (emplace_old hash initial k v m f.0 (rw f.1 ne) w a).0 in
          (r.valid, r.marker ∙ f.1)
    ]

    pub find-emplace_new_lem :
        (k q : ℕ) (v : V) (m : HashMap V)
        → Fits m
        → k ≢ e
        → q ≢ e
        → find_value hash initial k m ≡ none
        → find_value hash initial q (emplace_value hash initial k v m).0
          ≡ (if k == q then some v else find_value hash initial q m)
    unfolding emplace_value
    find-emplace_new_lem k q v m f ne nq a =
        let r = emplace-IsInserted hash initial k v m f.0 (rw f.1 ne) (sym (seen k m f ne) ∙ a) in
        seen q (emplace_value hash initial k v m).0 (emplace_Fits k v m f ne) nq
        ∙ rw (seen q m f nq) (r.finds q (rw f.1 nq))

    pub find-emplace_old_lem :
        (k q : ℕ) (v : V) (m : HashMap V) (w : V)
        → Fits m
        → k ≢ e
        → q ≢ e
        → find_value hash initial k m ≡ some w
        → find_value hash initial q (emplace_value hash initial k v m).0
          ≡ find_value hash initial q m
    unfolding emplace_value
    find-emplace_old_lem k q v m w f ne nq a =
        let r = (emplace_old hash initial k v m f.0 (rw f.1 ne) w (sym (seen k m f ne) ∙ a)).0 in
        seen q (emplace_value hash initial k v m).0 (emplace_Fits k v m f ne) nq
        ∙ (r.holds q (rw f.1 nq) ∙ sym (seen q m f nq))

    pub find-erase_lem :
        (k q : ℕ) (m : HashMap V) (w : V)
        → Fits m
        → k ≢ e
        → q ≢ e
        → find_value hash initial k m ≡ some w
        → find_value hash initial q (erase_found hash initial k m)
          ≡ (if k == q then none else find_value hash initial q m)
    find-erase_lem k q m w f ne nq a =
        let (ok, mark, finds) =
          erase_found-lookup m f.0 k w (rw f.1 ne) (sym (seen k m f ne) ∙ a) in
        seen q (erase_found hash initial k m) (ok, mark ∙ f.1) nq
        ∙ rw (seen q m f nq) (finds q (rw f.1 nq))

    pub erase_Fits :
        (k : ℕ) (m : HashMap V) (w : V)
        → Fits m
        → k ≢ e
        → find_value hash initial k m ≡ some w
        → Fits (erase_found hash initial k m)
    erase_Fits k m w f ne a =
        let (ok, mark, finds) =
          erase_found-lookup m f.0 k w (rw f.1 ne) (sym (seen k m f ne) ∙ a) in
        (ok, mark ∙ f.1)

    pub empty_Fits : (count : ℕ) → Fits (new_map hash initial count e)
    empty_Fits count =
        ((new_map-IsValid hash initial count e).0, (new_map_empty hash initial count e).0)

    pub find-empty_lem :
        (count k : ℕ) → k ≢ e → find_value hash initial k (new_map hash initial count e) ≡ none
    find-empty_lem count k ne =
        seen k (new_map hash initial count e) (empty_Fits count) ne
        ∙ (new_map_empty hash initial count e).2 k ne

    -- The hash table, constructed for `count` buckets, is a dictionary of the keys other than `e`.
    abbrev pub hash_map : ℕ → Dictionary V
    hash_map count = record {
      Map = HashMap V;
      IsValid = Fits;
      IsKey = λ k. k ≢ e;
      empty = new_map hash initial count e;
      find = find_value hash initial;
      emplace = emplace_value hash initial;
      erase = erase_found hash initial;
      emplace_new = emplace_new_lem;
      emplace_old = emplace_old_lem;
      find-emplace_new = find-emplace_new_lem;
      find-emplace_old = find-emplace_old_lem;
      find-erase = find-erase_lem;
      emplace-IsValid = emplace_Fits;
      erase-IsValid = erase_Fits;
      empty-IsValid = empty_Fits count;
      find-empty = find-empty_lem count;
    }
