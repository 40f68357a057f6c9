-- ===== src/Depth/Missing.antt =====
-- `close_order` at a price that the depth does not hold.
use order_book_sketch.Common.{Bool, false, ℤ, none, ◌≡◌, refl}
use order_book_sketch.FlatMap
use order_book_sketch.Depth.{
  DepthSide, Depth, search, at_end, rank, find_level, close_order, side_of,
}
use order_book_sketch.Depth.Find.{find_level_end, find_excess_missing}

-- No level of the side but perhaps the last one, and no excess level, is at the price.
abbrev pub IsMissing : Bool → ℤ → DepthSide → Type 0
IsMissing b p s = (search b false p s.levels ≡ at_end) × (FlatMap.find (rank b p) s.excess ≡ none)

find_level_missing :
    (b : Bool) (p p' c : ℤ) (s : DepthSide)
    → IsMissing b p s
    → IsMissing b p' s
    → find_level b false p c s ≡ find_level b false p' c s
find_level_missing b p p' c s h h' =
    rw
      (
        find_level_end b p s false c h.0,
        find_level_end b p' s false c h'.0,
        find_excess_missing b p s h.1,
        find_excess_missing b p' s h'.1,
      )
      refl

-- Orders are closed alike at any two prices that neither the excess levels nor the visible levels
-- before the last one hold: where one of them is the price of the last level, an order of the
-- other price is taken off that level.
pub close_order_missing :
    (p p' q : ℤ) (b : Bool) (d : Depth)
    → IsMissing b p (side_of b d)
    → IsMissing b p' (side_of b d)
    → close_order p q b d ≡ close_order p' q b d
unfolding close_order
close_order_missing p p' q b d h h' =
    rw (find_level_missing b p p' d.last_changed (side_of b d) h h') refl
