-- ===== src/HashMap/Erased.antt =====
-- What `erase` leaves: the other entries, each where its probe finds it.
use order_book_sketch.Common.{
  ℕ, zero, suc, List, length, get_or, set, Option, none, some, ◌==◌, ltb, ◌-◌, ◌^◌, ◌<◌, ◌≡◌, ◌≢◌,
  refl, arith, Bool-cases, inl, inr, ◌∙◌, sym, ap, subst, ==→eq, length-set, get_or-set_self,
  get_or-set_ne,
}
use order_book_sketch.HashMap.{HashMap, entry, erase_from}
use order_book_sketch.HashMap.Cyclic.{next, dist, dist-suc}
use order_book_sketch.HashMap.Slots.{
  lookup, occupied, IsUnique, lookup-fill, fill-IsUnique, occupied-fill, lookup-blank,
  blank-IsUnique, occupied-blank, lookup-get_or,
}
use order_book_sketch.HashMap.Probing.{
  key_at, home, IsChained, key_to_idx_lem, home-below, probe_next_lem, diff_lem, some_bucket,
}
use order_book_sketch.HashMap.Erase.{
  hole, IsLoop, set_over, loop_ends, IsLoop-passes, IsLoop-moves, not_hole, not_end,
}

module _ {V : Type 0} (hash : ℕ → ℕ) (initial : V) where
  -- the same entries, perhaps in other buckets
  pub record IsSame (e : ℕ) (es fs : List (ℕ × V)) : Type 0 where
    pub unique : IsUnique e fs
    pub taken : occupied e fs ≡ occupied e es
    pub finds : (q : ℕ) → q ≢ e → lookup q fs ≡ lookup q es

  module _ (e : ℕ) (es : List (ℕ × V)) (b i : ℕ) (hb : b < length es) (hi : i < length es)
      (ne : i ≢ b) (taken : key_at hash initial e es i ≢ e)
      (u : IsUnique e (hole hash initial e es b)) where
    abbrev x : ℕ × V
    x = get_or es i (e, initial)

    abbrev freed : List (ℕ × V)
    freed = hole hash initial e es b

    abbrev blanked : List (ℕ × V)
    blanked = set freed i (e, x.1)

    at_i : get_or freed i (e, initial) ≡ x
    at_i = get_or-set_ne es b i _ (e, initial) (λ s. ne (sym s))

    in_freed : i < length freed
    in_freed = rw length-set hi

    taken' : (get_or freed i (e, initial)).0 ≢ e
    taken' = rw at_i taken

    in_blanked : b < length blanked
    in_blanked = rw (length-set, length-set) hb

    blank_b : (get_or blanked b (e, initial)).0 ≡ e
    blank_b =
        ap (λ (y : ℕ × V). y.0)
          (get_or-set_ne freed i b (e, x.1) (e, initial) ne
            ∙ get_or-set_self es b _ (e, initial) hb)

    absent : lookup x.0 blanked ≡ none
    absent =
        lookup-blank e x.0 x.1 freed i (e, initial) taken in_freed taken' u
        ∙ ground (arith, ap (λ (y : ℕ × V). y.0) at_i)

    moved_list : set blanked b x ≡ hole hash initial e (set es b x) i
    moved_list =
        set_over es b i _ (e, x.1) x ne
        ∙ ap (λ (y : ℕ × V). set (set es b x) i (e, y.1))
            (sym (get_or-set_ne es b i x (e, initial) (λ s. ne (sym s))))

    -- Moving an entry up keeps the entries.
    pub moved-IsSame : IsSame e freed (hole hash initial e (set es b x) i)
    moved-IsSame = rw (← moved_list) record {
      unique =
          fill-IsUnique e x.0 x.1 blanked b (e, initial) taken in_blanked blank_b absent
            (blank-IsUnique e x.1 freed i (e, initial) in_freed taken' u);
      taken =
          occupied-fill e x.0 x.1 blanked b (e, initial) taken in_blanked blank_b
          ∙ occupied-blank e x.1 freed i (e, initial) in_freed taken';
      finds = λ q nq.
          lookup-fill e q x.0 x.1 blanked b (e, initial) nq in_blanked blank_b absent
          ∙ ground (
            arith,
            lookup-blank e q x.1 freed i (e, initial) nq in_freed taken' u,
            found,
            ap (λ (y : ℕ × V). y.0) at_i,
          );
    }
      where
        found : lookup x.0 freed ≡ some x.1
        found =
            subst (λ (y : ℕ × V). lookup y.0 freed ≡ some y.1) at_i
              (lookup-get_or e freed i (e, initial) in_freed taken' u)

  -- What the loop gives, from the buckets `es` with one of them freed.
  pub record IsErased (e k : ℕ) (es : List (ℕ × V)) (r : Option (HashMap V)) : Type 0 where
    pub left : HashMap V
    pub gives : r ≡ some left
    pub marker : left.empty_key ≡ e
    pub buckets : length left.buckets ≡ length es
    pub size : left.size ≡ k
    pub chained : IsChained hash initial e left.buckets
    pub same : IsSame e es left.buckets

  IsSame-trans :
      (e : ℕ) (es fs gs : List (ℕ × V)) → IsSame e es fs → IsSame e fs gs → IsSame e es gs
  IsSame-trans e es fs gs a b = record {
    unique = b.unique;
    taken = b.taken ∙ a.taken;
    finds = λ q nq. b.finds q nq ∙ a.finds q nq;
  }

  IsErased-moved :
      (e k : ℕ) (es fs : List (ℕ × V)) (r : Option (HashMap V))
      → IsSame e es fs
      → length fs ≡ length es
      → IsErased e k fs r
      → IsErased e k es r
  IsErased-moved e k es fs r s len a = record {
    left = a.left;
    gives = a.gives;
    marker = a.marker;
    buckets = a.buckets ∙ len;
    size = a.size;
    chained = a.chained;
    same = IsSame-trans e es fs a.left.buckets s a.same;
  }

  length-holes :
      (e : ℕ) (es : List (ℕ × V)) (b i : ℕ) (y : ℕ × V)
      → length (hole hash initial e (set es b y) i) ≡ length (hole hash initial e es b)
  length-holes e es b i y =
      length-set (set es b y) i _ ∙ (length-set es b y ∙ sym (length-set es b _))

  -- With a round for each bucket up to a free one the loop ends, and every chain is whole again.
  pub erase_from-IsErased :
      (fuel b i z w : ℕ) (m : HashMap V)
      → length m.buckets ≡ 2 ^ w
      → IsLoop hash initial m.empty_key (length m.buckets) m.buckets b i z
      → IsUnique m.empty_key (hole hash initial m.empty_key m.buckets b)
      → dist (length m.buckets) i z < fuel
      → IsErased m.empty_key
          (m.size - 1)
          (hole hash initial m.empty_key m.buckets b)
          (erase_from hash initial fuel b i m)
  unfolding erase_from
  erase_from-IsErased zero b i z w m c l u enough = absurd (omega (arith, enough))
  erase_from-IsErased (suc fuel) b i z w m c l u enough =
      let n = length m.buckets in
      let pos = some_bucket hash initial m w c in
      elim (Bool-cases ((entry hash initial m i).0 == m.empty_key)) [
        | inl y ↦ rw y record {
          left = record m {
            buckets = hole hash initial m.empty_key m.buckets b;
            size = m.size - 1;
          };
          gives = refl;
          marker = refl;
          buckets = refl;
          size = refl;
          chained = loop_ends hash initial m.empty_key n m.buckets b i z pos l (==→eq _ _ y);
          same = record { unique = u; taken = refl; finds = λ q nq. refl };
        }
        | inr t ↦
            let taken : key_at hash initial m.empty_key m.buckets i ≢ m.empty_key =
              ground (arith, t) in
            let nz = not_end hash initial m.empty_key n m.buckets b i z pos l taken in
            let ideal = key_to_idx_lem hash initial m w c (entry hash initial m i).0 in
            let below = home-below hash initial m w c (entry hash initial m i).0 in
            let near = diff_lem hash initial m w c b _ l.bucket below in
            let far = diff_lem hash initial m w c i _ l.at below in
            let closer = dist-suc n i z l.at l.end nz in
            rw (t, probe_next_lem hash initial m w c i l.at, ideal, near, far)
              (elim (Bool-cases (
                ltb (dist n (home hash initial n (entry hash initial m i).0) b)
                  (dist n (home hash initial n (entry hash initial m i).0) i))) [
                    | inr stay ↦ rw stay (
                        erase_from-IsErased fuel b (next n i) z w m c
                          (IsLoop-passes hash initial m.empty_key n m.buckets b i z pos l taken
                            (ground (arith, stay)))
                          u (omega (arith, closer, enough)))
                    | inl go ↦
                        let same =
                          moved-IsSame m.empty_key m.buckets b i l.bucket l.at
                            (not_hole hash initial m.empty_key n m.buckets b i z pos l) taken u in
                        rw go (
                          IsErased-moved m.empty_key (m.size - 1) _ _ _ same
                            (length-holes m.empty_key m.buckets b i _)
                            (erase_from-IsErased fuel i (next n i) z w
                              (record m { buckets = set m.buckets b (entry hash initial m i) })
                              (rw length-set c)
                              (rw length-set (
                                IsLoop-moves hash initial m.empty_key n m.buckets b i z pos l taken
                                  (ground (arith, go))))
                              same.unique (rw length-set (omega (arith, closer, enough)))))
                  ])
      ]
