-- ===== src/Depth/Visits.antt =====
-- The search for the level of a price that is to be added, one level at a time.
use order_book_sketch.Common.{
  ℕ, suc, Bool, true, false, ℤ, pos, ltb_ℤ, ◌==ℤ◌, ◌<ℤ◌, List, [], ◌∷◌, ◌≡◌, ◌≢◌, refl, arith,
  neg_ℤ_parts, eq_of_parts, ==ℤ→eq, Bool-cases, inl, inr,
}
use order_book_sketch.Depth.{search, Search, found, vacant, before, at_end, further, worse, rank}
use order_book_sketch.Depth.Level.{DepthLevel}

pub worse-rank : (b : Bool) (l p : ℤ) → worse b l p ≡ ltb_ℤ (rank b l) (rank b p)
worse-rank true l p = refl
worse-rank false l p = ground (arith, neg_ℤ_parts l, neg_ℤ_parts p)

-- What the search does at a level that is not the last one, for a price to be added.
pub data Visit (b : Bool) (p : ℤ) (x : DepthLevel) (here rest : Search) : Type 0 where
  hit : x.price ≡ p → here ≡ found 0 → Visit b p x here rest
  gap : x.price ≡ pos 0 → x.price ≢ p → here ≡ vacant 0 → Visit b p x here rest
  top : x.price ≢ pos 0 → rank b x.price <ℤ rank b p → here ≡ before 0 → Visit b p x here rest
  pass : x.price ≢ pos 0 → rank b p <ℤ rank b x.price → here ≡ further rest → Visit b p x here rest

rank_apart :
    (b : Bool) (l p : ℤ) → l ≢ p → ltb_ℤ (rank b l) (rank b p) ≡ false → rank b p <ℤ rank b l
rank_apart true l p ne h = ground (arith, eq_of_parts l p)
rank_apart false l p ne h = ground (arith, eq_of_parts l p, neg_ℤ_parts l, neg_ℤ_parts p)

pub visit :
    (b : Bool) (p : ℤ) (x y : DepthLevel) (r : List DepthLevel)
    → Visit b p x (search b true p (x ∷ y ∷ r)) (search b true p (y ∷ r))
unfolding search
visit b p x y r = elim (Bool-cases (x.price ==ℤ p)) [
  | inl e ↦ hit (==ℤ→eq _ _ e) (rw e refl)
  | inr ne ↦
      let apart : x.price ≢ p = λ e. ground (arith, ne, e) in
      elim (Bool-cases (x.price ==ℤ pos 0)) [
        | inl z ↦ gap (==ℤ→eq _ _ z) apart (rw (ne, z) refl)
        | inr nz ↦
            let held : x.price ≢ pos 0 = λ e. ground (arith, nz, e) in
            elim (Bool-cases (ltb_ℤ (rank b x.price) (rank b p))) [
              | inl w ↦ top held (ground (arith, w)) (rw (ne, nz, worse-rank b x.price p, w) refl)
              | inr nw ↦
                  pass held (rank_apart b x.price p apart nw)
                    (rw (ne, nz, worse-rank b x.price p, nw) refl)
            ]
      ]
]

pub further_found :
    (t : Search) (i : ℕ) → further t ≡ found i → (j : ℕ) × (i ≡ suc j) × (t ≡ found j)
further_found (found j) i e = (j, ground arith, refl)
further_found (vacant j) i e = absurd (cc)
further_found (before j) i e = absurd (cc)
further_found at_end i e = absurd (cc)

pub further_before :
    (t : Search) (i : ℕ) → further t ≡ before i → (j : ℕ) × (i ≡ suc j) × (t ≡ before j)
further_before (before j) i e = (j, ground arith, refl)
further_before (found j) i e = absurd (cc)
further_before (vacant j) i e = absurd (cc)
further_before at_end i e = absurd (cc)

pub further_vacant :
    (t : Search) (i : ℕ) → further t ≡ vacant i → (j : ℕ) × (i ≡ suc j) × (t ≡ vacant j)
further_vacant (vacant j) i e = (j, ground arith, refl)
further_vacant (found j) i e = absurd (cc)
further_vacant (before j) i e = absurd (cc)
further_vacant at_end i e = absurd (cc)

pub further_end : (t : Search) → further t ≡ at_end → t ≡ at_end
further_end at_end e = refl
further_end (found i) e = absurd (cc)
further_end (vacant i) e = absurd (cc)
further_end (before i) e = absurd (cc)

pub search_none : (b create : Bool) (p : ℤ) → search b create p [] ≡ at_end
unfolding search
search_none b create p = refl

pub search_single : (b create : Bool) (p : ℤ) (x : DepthLevel) → search b create p (x ∷ []) ≡ at_end
unfolding search
search_single b create p x = refl
