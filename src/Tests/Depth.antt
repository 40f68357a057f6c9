-- ===== src/Tests/Depth.antt =====
-- The depth and the older book on a few orders.
use order_book_sketch.Common.{
  ℕ, true, false, pos, [], ◌∷◌, ◌≡◌, refl, sym, ap, pos_part, ◌∙◌, arith, if◌then◌else◌, ◌==ℤ◌,
}
use order_book_sketch.Messages.{SimpleOrder}
use order_book_sketch.Depth.{Depth, DepthSide, empty_depth, add_order, side_of}
use order_book_sketch.Depth.Level.{DepthLevel}
use order_book_sketch.Depth.Sorted.{IsSorted, add_order-IsSorted}
use order_book_sketch.Depth.Held.{held}
use order_book_sketch.Depth.Lookup.{grown}
use order_book_sketch.Depth.Adding.{IsOpen, held-add_order}
use order_book_sketch.FlatMap.Laws.{lookup}
use order_book_sketch.OrderBook.{OrderBook, new_keeper}

abbrev empty : Depth
empty = empty_depth 3 (pos 0) (pos 0)

abbrev one_bid : Depth
one_bid = add_order (pos 100) (pos 5) true empty

empty-IsSorted : IsSorted true (side_of true empty).levels
empty-IsSorted = ((λ h. absurd (h refl)), ((λ h. absurd (h refl)), (tt, tt)))

one_bid-IsSorted : IsSorted true (side_of true one_bid).levels
one_bid-IsSorted = add_order-IsSorted (pos 100) (pos 5) true empty (λ h. absurd (cc)) empty-IsSorted

add_order-IsSorted_example :
    IsSorted true (side_of true (add_order (pos 101) (pos 7) true one_bid)).levels
add_order-IsSorted_example =
    add_order-IsSorted (pos 101) (pos 7) true one_bid (λ h. absurd (cc)) one_bid-IsSorted

abbrev level : ℕ → ℕ → DepthLevel
level p q = record {
  price = pos p;
  total_qty = pos q;
  orders_count = pos 1;
  orders = [];
  is_excess = false;
  last_change = pos 1;
}

abbrev two_levels : DepthSide
two_levels = record { levels = level 101 7 ∷ level 100 5 ∷ []; excess = [] }

abbrev full : Depth
full = record {
  bids = two_levels;
  asks = record { levels = level 103 9 ∷ level 104 2 ∷ []; excess = [] };
  last_changed = pos 1;
  last_published = pos 0;
}

abbrev ask : SimpleOrder
ask = record {
  header = record { len = 38; stream_id = 1; seq_no = 1 };
  msg_type = b'N';
  timestamp = 0;
  order_id = 4;
  token_no = 7;
  order_type = b'S';
  price = pos 103;
  qty = pos 9;
}

abbrev book : OrderBook
book = record { bids = []; asks = (4, new_keeper ask) ∷ []; transaction_id = pos 1; depth = full }

-- The new level pushes the level at 100 out of sight.
full-IsOpen : IsOpen true (pos 102) two_levels
unfolding lookup
full-IsOpen = record {
  sorted = ((λ ne. ((λ h. absurd (cc)), omega arith)), (tt, tt));
  descending = tt;
  not_last = λ l h e.
      let z : l.price ≡ pos 100 = cc in
      let y : pos 102 ≡ pos 100 = sym e ∙ z in absurd (omega (arith, ap pos_part y));
  last_apart = λ l h ne. refl;
  excess_apart = λ ne. absurd (ne refl);
}

held-add_order_example :
    held true (pos 100) (side_of true (add_order (pos 102) (pos 7) true full)) ≡ (
      if pos 102 ==ℤ pos 100
      then grown (pos 7) (held true (pos 102) two_levels)
      else held true (pos 100) two_levels)
held-add_order_example =
    held-add_order (pos 102) (pos 7) (pos 100) true full (λ h. absurd (cc)) (λ h. absurd (cc))
      full-IsOpen
