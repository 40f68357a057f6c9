-- ===== src/Depth/Held.antt =====
-- `add_order` on the depth as a map from prices to quantities and counts, excess levels included.
use order_book_sketch.Common.{
  ℕ, zero, suc, Bool, true, false, ℤ, pos, ◌+ℤ◌, ◌==ℤ◌, List, [], ◌∷◌, Option, none, ◌≡◌, refl, sym,
  ◌∙◌, ap, arith, modify_at, get_elem?, Bool-cases, Option-cases, inl, inr, neg_ℤ_parts, zero-+ℤ,
}
use mathlib.Core.Option
use order_book_sketch.FlatMap
use order_book_sketch.FlatMap.Laws.{lookup}
use order_book_sketch.Depth.{
  rank, DepthSide, Place, visible, in_excess, level_at, update_level, add_at,
}
use order_book_sketch.Depth.Level.{DepthLevel, init, stamp, add_qty_order}
use order_book_sketch.Depth.Find.{add_at-none, add_at_excess, add_at_visible}
use order_book_sketch.Depth.Lookup.{entry, seen, Adds, Sets}
use order_book_sketch.Depth.Shifted.{or_else}

-- The quantity and the number of orders that a side holds at a price
abbrev pub in_excess_at : Bool → ℤ → List (ℤ × DepthLevel) → Option (ℤ × ℤ)
in_excess_at b q m = Option.map entry (lookup (rank b q) m)

abbrev pub held : Bool → ℤ → DepthSide → Option (ℤ × ℤ)
held b q s = or_else (seen q s.levels) (in_excess_at b q s.excess)

modify_at-none :
    (f : DepthLevel → DepthLevel) (i : ℕ) (xs : List DepthLevel)
    → get_elem? xs i ≡ none
    → modify_at i f xs ≡ xs
modify_at-none f i [] e = refl
modify_at-none f zero (x ∷ xs) e = absurd (cc)
modify_at-none f (suc i) (x ∷ xs) e = ap (λ r. x ∷ r) (modify_at-none f i xs e)

update_at-none :
    (f : DepthLevel → DepthLevel) (i : ℕ) (m : List (ℤ × DepthLevel))
    → FlatMap.value_at i m ≡ none
    → FlatMap.update_at i f m ≡ m
unfolding FlatMap.value_at FlatMap.update_at
update_at-none f i [] e = refl
update_at-none f zero ((k, x) ∷ m) e = absurd (cc)
update_at-none f (suc i) ((k, x) ∷ m) e = ap (λ r. (k, x) ∷ r) (update_at-none f i m e)

update_level-none :
    (f : DepthLevel → DepthLevel) (at : Place) (s : DepthSide)
    → level_at at s ≡ none
    → update_level at f s ≡ s
update_level-none f (visible i) s e = rw (modify_at-none f i s.levels e) refl
update_level-none f (in_excess j) s e = rw (update_at-none f j s.excess e) refl

-- Whatever level it is on, `add_order` adds one order of `n`.
pub add_at-Adds :
    (n c : ℤ) (s : DepthSide) (at : Place)
    → (f : DepthLevel → DepthLevel) × Adds n f × ((add_at n (s, c, at)).0 ≡ update_level at f s)
add_at-Adds n c s at = elim (Option-cases (level_at at s)) [
  | inl e ↦
      let f : DepthLevel → DepthLevel = λ l. add_qty_order n l in
      let same = update_level-none f at s e in
      (f, (λ l. (refl, refl)), ap (λ r. r.0) (add_at-none n c s at e) ∙ sym same)
  | inr (l, e) ↦ elim (Bool-cases l.is_excess) [
    | inl t ↦ (
      (λ x. add_qty_order n x),
      (λ x. (refl, refl)),
      ap (λ r. r.0) (add_at_excess n c s at l e t),
    )
    | inr t ↦ (
      (λ x. stamp (c +ℤ pos 1) (add_qty_order n x)),
      (λ x. (refl, refl)),
      ap (λ r. r.0) (add_at_visible n c s at l e t),
    )
  ]
]

pub modify_at-modify_at :
    (f g : DepthLevel → DepthLevel) (i : ℕ) (xs : List DepthLevel)
    → modify_at i f (modify_at i g xs) ≡ modify_at i (λ l. f (g l)) xs
modify_at-modify_at f g i [] = refl
modify_at-modify_at f g zero (x ∷ xs) = refl
modify_at-modify_at f g (suc i) (x ∷ xs) = ap (λ r. x ∷ r) (modify_at-modify_at f g i xs)

-- A change that adds to a level that was just made sets it.
pub init-Sets :
    (n p : ℤ) (e : Bool) (f : DepthLevel → DepthLevel)
    → Adds n f
    → Sets p (n, pos 1) (λ l. f (init p e l))
init-Sets n p e f adds l =
    let (kp, ke) = adds (init p e l) in
    (kp, ke ∙ (ap (λ x. (x, pos 0 +ℤ pos 1)) (zero-+ℤ n) ∙ ap (λ y. (n, y)) (zero-+ℤ (pos 1))))

pub rank_eq : (b : Bool) (p q : ℤ) → (rank b p ==ℤ rank b q) ≡ (p ==ℤ q)
rank_eq true p q = refl
rank_eq false p q = ground (arith, neg_ℤ_parts p, neg_ℤ_parts q)
