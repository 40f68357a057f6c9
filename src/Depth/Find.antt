-- ===== src/Depth/Find.antt =====
-- `find_level` and what follows it, one equation for each way the search ends.
use order_book_sketch.Common.{
  ℕ, Bool, true, false, ℤ, pos, ◌+ℤ◌, ◌-◌, ◌==ℤ◌, none, some, ◌≡◌, refl, ◌⊎◌, inl, inr,
  Option-cases, length, modify_at, last?, Bool-cases,
}
use order_book_sketch.FlatMap
use order_book_sketch.Depth.{
  DepthSide, Search, search, found, vacant, before, at_end, find_level, find_excess, rank,
  insert_level_before, Place, visible, in_excess, add_at, level_at, update_level, spill,
}
use order_book_sketch.Depth.Level.{
  DepthLevel, init, new_level, stamp, add_qty_order, assign, invalid_level_price,
}

pub Search-cases :
    (t : Search)
    → ((i : ℕ) × (t ≡ found i))
      ⊎ (((i : ℕ) × (t ≡ vacant i)) ⊎ (((i : ℕ) × (t ≡ before i)) ⊎ (t ≡ at_end)))
Search-cases (found i) = inl (i, refl)
Search-cases (vacant i) = inr (inl (i, refl))
Search-cases (before i) = inr (inr (inl (i, refl)))
Search-cases at_end = inr (inr (inr refl))

module _ (b : Bool) (p : ℤ) (s : DepthSide) where
  pub find_excess_there :
      (create : Bool) (j : ℕ)
      → FlatMap.find (rank b p) s.excess ≡ some j
      → find_excess b create p s ≡ (s, in_excess j)
  unfolding find_excess
  find_excess_there create j e = rw (e, find_excess) refl

  pub find_excess_new :
      FlatMap.find (rank b p) s.excess ≡ none
      → find_excess b true p s ≡ (
        record s { excess = FlatMap.insert (rank b p) (init p true new_level) s.excess },
        in_excess (FlatMap.insert_pos (rank b p) s.excess),
      )
  unfolding find_excess
  find_excess_new e = rw (e, find_excess) refl

  pub find_excess_missing :
      FlatMap.find (rank b p) s.excess ≡ none
      → find_excess b false p s ≡ (s, visible (length s.levels - 1))
  unfolding find_excess
  find_excess_missing e = rw (e, find_excess) refl

  pub find_excess_levels : (create : Bool) → (find_excess b create p s).0.levels ≡ s.levels
  find_excess_levels create = elim (Option-cases (FlatMap.find (rank b p) s.excess)) [
    | inr (j, e) ↦ rw (find_excess_there create j e) refl
    | inl e ↦ elim (Bool-cases create) [
      | inl t ↦ rw (t, find_excess_new e) refl
      | inr n ↦ rw (n, find_excess_missing e) refl
    ]
  ]

  module _ (create : Bool) (c : ℤ) where
    pub find_level_found :
        (i : ℕ)
        → search b create p s.levels ≡ found i
        → find_level b create p c s ≡ (s, c, visible i)
    unfolding find_level
    find_level_found i e = rw (e, find_level) refl

    pub find_level_vacant :
        (i : ℕ)
        → search b create p s.levels ≡ vacant i
        → find_level b create p c s
          ≡ (record s { levels = modify_at i (init p false) s.levels }, c, visible i)
    unfolding find_level
    find_level_vacant i e = rw (e, find_level) refl

    pub find_level_before :
        (i : ℕ)
        → search b create p s.levels ≡ before i
        → find_level b create p c s
          ≡ (insert_level_before b i p (c +ℤ pos 1) s, c +ℤ pos 1, visible i)
    unfolding find_level
    find_level_before i e = rw (e, find_level) refl

    pub find_level_end :
        search b create p s.levels ≡ at_end
        → find_level b create p c s
          ≡ ((find_excess b create p s).0, c, (find_excess b create p s).1)
    unfolding find_level
    find_level_end e = rw (e, find_level) refl

module _ (q c : ℤ) (s : DepthSide) (at : Place) where
  pub add_at-none : level_at at s ≡ none → add_at q (s, c, at) ≡ (s, c)
  unfolding add_at
  add_at-none e = rw (e, add_at) refl

  pub add_at_excess :
      (l : DepthLevel)
      → level_at at s ≡ some l
      → l.is_excess ≡ true
      → add_at q (s, c, at) ≡ (update_level at (add_qty_order q) s, c)
  unfolding add_at
  add_at_excess l e t = rw (e, t, add_at) refl

  pub add_at_visible :
      (l : DepthLevel)
      → level_at at s ≡ some l
      → l.is_excess ≡ false
      → add_at q (s, c, at)
        ≡ (update_level at (λ x. stamp (c +ℤ pos 1) (add_qty_order q x)) s, c +ℤ pos 1)
  unfolding add_at
  add_at_visible l e t = rw (e, t, add_at) refl

-- The last level of a side, when it is written to the excess map
pub spill_vacant :
    (b : Bool) (s : DepthSide) (l : DepthLevel)
    → last? s.levels ≡ some l
    → (l.price ==ℤ invalid_level_price) ≡ true
    → spill b s ≡ s
unfolding spill
spill_vacant b s l e z = rw (e, z, spill) refl

pub spill_held :
    (b : Bool) (s : DepthSide) (l : DepthLevel)
    → last? s.levels ≡ some l
    → (l.price ==ℤ invalid_level_price) ≡ false
    → spill b s ≡ record s {
      excess = FlatMap.insert (rank b l.price) (assign (init (pos 0) true new_level) l) s.excess;
    }
unfolding spill
spill_held b s l e z = rw (e, z, spill) refl

pub spill_empty : (b : Bool) (s : DepthSide) → last? s.levels ≡ none → spill b s ≡ s
unfolding spill
spill_empty b s e = rw (e, spill) refl
