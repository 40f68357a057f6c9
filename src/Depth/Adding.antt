-- ===== src/Depth/Adding.antt =====
-- `add_order` on the depth as a map from prices to quantities and counts: each way the search ends.
use order_book_sketch.Common.{
  ℕ, Bool, true, false, ℤ, pos, ◌+ℤ◌, ◌==ℤ◌, Option, none, some, ◌≡◌, ◌≢◌, refl, sym, ◌∙◌,
  if◌then◌else◌, modify_at, last?, Option-cases, inl, inr, ==ℤ→eq, ==ℤ_refl,
}
use mathlib.Core.Option
use order_book_sketch.FlatMap
use order_book_sketch.FlatMap.Laws.{
  lookup, IsDescending, lookup-update_at, lookup-insert, insert-find, insert-IsDescending,
  find-none,
}
use order_book_sketch.Depth.{
  search, Search, found, vacant, before, at_end, rank, DepthSide, Depth, visible, in_excess,
  update_level, add_at, add_order, side_of, find_level, insert_level_before, spill,
}
use order_book_sketch.Depth.Level.{DepthLevel, init, new_level}
use order_book_sketch.Depth.Find.{
  Search-cases, find_level_found, find_level_vacant, find_level_before, find_level_end,
  find_excess_there, find_excess_new,
}
use order_book_sketch.Depth.Sorted.{IsSorted, side_of-put}
use order_book_sketch.Depth.Lookup.{
  seen, grown, Adds, seen_found, seen_found_there, seen_vacant, unseen_vacant, unseen_before,
}
use order_book_sketch.Depth.Shifted.{but_last, seen-make_room, seen-but_last, unseen_end}
use order_book_sketch.Depth.Spilled.{
  last?-none, spill-held, ne_test, visible_case, excess_case, find-lookup, if_drop, map_if,
}
use order_book_sketch.Depth.Held.{
  held, in_excess_at, add_at-Adds, modify_at-modify_at, init-Sets, rank_eq,
}

-- A side that can take an order at the price `p`: its levels are in order, its excess levels as well,
-- the last visible level is not at `p` and its price has no excess level, and if `p` has an excess
-- level the search finds nothing for it.
pub record IsOpen (b : Bool) (p : ℤ) (s : DepthSide) : Type 0 where
  pub sorted : IsSorted b s.levels
  pub descending : IsDescending s.excess
  pub not_last : (l : DepthLevel) → last? s.levels ≡ some l → l.price ≢ p
  pub last_apart :
      (l : DepthLevel)
      → last? s.levels ≡ some l
      → l.price ≢ pos 0
      → lookup (rank b l.price) s.excess ≡ none
  pub excess_apart : lookup (rank b p) s.excess ≢ none → search b true p s.levels ≡ at_end

-- the map with an order more at the price
abbrev pub with_order : ℤ → ℤ → Bool → ℤ → DepthSide → Option (ℤ × ℤ)
with_order p n b q s = if p ==ℤ q then grown n (held b p s) else held b q s

module _ (b : Bool) (p q n : ℤ) (s : DepthSide) (f : DepthLevel → DepthLevel) (np : p ≢ pos 0)
    (nq : q ≢ pos 0) (adds : Adds n f) (ok : IsOpen b p s) where
  not_in_excess :
      (t : Search) → search b true p s.levels ≡ t → t ≢ at_end → lookup (rank b p) s.excess ≡ none
  not_in_excess t e ne = elim (Option-cases (lookup (rank b p) s.excess)) [
    | inl h ↦ h
    | inr (l, h) ↦
        let some_there : lookup (rank b p) s.excess ≢ none = λ z. cc in
        absurd (ne (sym e ∙ ok.excess_apart some_there))
  ]

  held-found :
      (i : ℕ)
      → search b true p s.levels ≡ found i
      → held b q (update_level (visible i) f s) ≡ with_order p n b q s
  held-found i e =
      let (v, there) = seen_found_there b p i s.levels e in
      rw (seen_found b p q n i f s.levels adds e, there)
        (visible_case (p ==ℤ q) (v.0 +ℤ n, v.1 +ℤ pos 1) (seen q s.levels)
          (in_excess_at b q s.excess) (some (v.0 +ℤ n, v.1 +ℤ pos 1)) refl)

  held-vacant :
      (i : ℕ)
      → search b true p s.levels ≡ vacant i
      → held b q
          (update_level (visible i) f (record s { levels = modify_at i (init p false) s.levels }))
        ≡ with_order p n b q s
  held-vacant i e =
      let z = not_in_excess (vacant i) e (λ h. cc) in
      rw
        (
          modify_at-modify_at f (init p false) i s.levels,
          seen_vacant b p q (n, pos 1) i (λ l. f (init p false l)) s.levels
              (init-Sets n p false f adds) nq e,
          unseen_vacant b p i s.levels np ok.sorted e,
          z,
        )
        (visible_case (p ==ℤ q) (n, pos 1) (seen q s.levels) (in_excess_at b q s.excess)
          (some (n, pos 1)) refl)

  held-before :
      (c : ℤ) (i : ℕ)
      → search b true p s.levels ≡ before i
      → held b q (update_level (visible i) f (insert_level_before b i p c s)) ≡ with_order p n b q s
  unfolding insert_level_before
  held-before c i e =
      let z = not_in_excess (before i) e (λ h. cc) in
      rw
        (
          seen-make_room b c p q (n, pos 1) i f s.levels (init-Sets n p false f adds) e,
          sym (spill-held b q s nq ok.descending ok.last_apart),
          unseen_before b p i s.levels np ok.sorted e,
          z,
        )
        (visible_case (p ==ℤ q) (n, pos 1) (seen q (but_last s.levels))
          (in_excess_at b q (spill b s).excess) (some (n, pos 1)) refl)

  unseen : search b true p s.levels ≡ at_end → seen p s.levels ≡ none
  unseen e =
      let first = unseen_end b p s.levels e in
      elim (Option-cases (last? s.levels)) [
        | inl h ↦ rw (last?-none s.levels h) refl
        | inr (l, h) ↦
            let off : (l.price ==ℤ p) ≡ false = ne_test l.price p (ok.not_last l h) in
            rw (seen-but_last p s.levels l h, first, off) refl
      ]

  unseen_at : search b true p s.levels ≡ at_end → (p ==ℤ q) ≡ true → seen q s.levels ≡ none
  unseen_at e t = rw⁻¹ (==ℤ→eq p q t) (unseen e)

  held-excess :
      (j : ℕ)
      → search b true p s.levels ≡ at_end
      → FlatMap.find (rank b p) s.excess ≡ some j
      → held b q (update_level (in_excess j) f s) ≡ with_order p n b q s
  held-excess j e h =
      let (l, there) = find-lookup (rank b p) s.excess j h in
      let (kp, ke) = adds l in
      let v : ℤ × ℤ = (l.total_qty +ℤ n, l.orders_count +ℤ pos 1) in
      rw
        (
          lookup-update_at (rank b p) (rank b q) f s.excess j ok.descending h,
          rank_eq b p q,
          there,
          map_if (p ==ℤ q) (f l) (lookup (rank b q) s.excess),
          ke,
          unseen e,
        )
        (excess_case (p ==ℤ q) v (seen q s.levels) (in_excess_at b q s.excess) (some v) refl
          (unseen_at e))

  held-excess_new :
      search b true p s.levels ≡ at_end
      → FlatMap.find (rank b p) s.excess ≡ none
      → held b q (
          update_level
            (in_excess (FlatMap.insert_pos (rank b p) s.excess))
            f
            (record s { excess = FlatMap.insert (rank b p) (init p true new_level) s.excess }))
        ≡ with_order p n b q s
  held-excess_new e h =
      let k = rank b p in
      let d = init p true new_level in
      let m = FlatMap.insert k d s.excess in
      let v : ℤ × ℤ = (n, pos 1) in
      let there : lookup k m ≡ some d =
        rw (lookup-insert k k d s.excess ok.descending, find-none k s.excess h, ==ℤ_refl k) refl in
      rw
        (
          lookup-update_at k (rank b q) f m (FlatMap.insert_pos k s.excess)
              (insert-IsDescending k d s.excess ok.descending)
              (insert-find k d s.excess ok.descending),
          rank_eq b p q,
          there,
          lookup-insert k (rank b q) d s.excess ok.descending,
          rank_eq b p q,
          if_drop (p ==ℤ q) (f d) (Option.get_or (lookup k s.excess) d)
              (lookup (rank b q) s.excess),
          map_if (p ==ℤ q) (f d) (lookup (rank b q) s.excess),
          (init-Sets n p true f adds new_level).1,
        )
        (excess_case (p ==ℤ q) v (seen q s.levels) (in_excess_at b q s.excess)
          (grown n (held b p s)) (rw (unseen e, find-none k s.excess h) refl) (unseen_at e))

  held-find_level :
      (c : ℤ)
      → let r = find_level b true p c s in held b q (update_level r.2 f r.0) ≡ with_order p n b q s
  held-find_level c = elim (Search-cases (search b true p s.levels)) [
    | inl (i, e) ↦ rw (find_level_found b p s true c i e) (held-found i e)
    | inr (inl (i, e)) ↦ rw (find_level_vacant b p s true c i e) (held-vacant i e)
    | inr (inr (inl (i, e))) ↦
        rw (find_level_before b p s true c i e) (held-before (c +ℤ pos 1) i e)
    | inr (inr (inr e)) ↦ elim (Option-cases (FlatMap.find (rank b p) s.excess)) [
      | inl h ↦ rw (find_level_end b p s true c e, find_excess_new b p s h) (held-excess_new e h)
      | inr (j, h) ↦
          rw (find_level_end b p s true c e, find_excess_there b p s true j h) (held-excess j e h)
    ]
  ]

-- An order added at a price adds its quantity and one order to what its side holds at that price, and
-- changes what the side holds at no other price. The side is open to the price, which is not the
-- invalid one, and neither is the price that is looked at.
pub held-add_order :
    (p n q : ℤ) (b : Bool) (d : Depth)
    → p ≢ pos 0
    → q ≢ pos 0
    → IsOpen b p (side_of b d)
    → held b q (side_of b (add_order p n b d))
      ≡ (if p ==ℤ q then grown n (held b p (side_of b d)) else held b q (side_of b d))
unfolding add_order
held-add_order p n q b d np nq ok =
    let r = find_level b true p d.last_changed (side_of b d) in
    let (f, adds, same) = add_at-Adds n r.1 r.0 r.2 in
    rw (side_of-put b (add_at n r).0 (add_at n r).1 d, same)
      (held-find_level b p q n (side_of b d) f np nq adds ok d.last_changed)
