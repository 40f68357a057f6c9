-- ===== src/Tests/Shown.antt =====
-- What OrderBookImproved prints of a side with three orders.
use order_book_sketch.Common.{
  ℕ, true, pos, ◌+ℤ◌, List, [], ◌∷◌, ◌≡◌, ◌≢◌, ◌⊎◌, All, length, some, refl, arith,
}
use order_book_sketch.Dictionary.Assoc
use order_book_sketch.Messages.{SimpleOrder}
use order_book_sketch.OrderBookType2.Ledger.{count_at, level_at}
use order_book_sketch.OrderBookImproved.{Half, Node, before}
use order_book_sketch.OrderBookImproved.Nodes.{it_of}
use order_book_sketch.OrderBookImproved.Sides.{Holds}
use order_book_sketch.OrderBookImproved.Shown.{
  upper_bound, agg_quantity, count_orders, rows, shown, AreOn,
}
use order_book_sketch.OrderBookImproved.Shown.Keys.{has_price}
use order_book_sketch.OrderBookImproved.Shown.Printed.{AreOrdered, shown_levels, shown_complete}
use order_book_sketch.OrderBookImproved.Priority.{IsPrior}
use order_book_sketch.OrderBookType2.{Level}

abbrev bid : ℕ → ℕ → ℕ → SimpleOrder
bid id price qty = record {
  header = record { len = 38; stream_id = 1; seq_no = 1 };
  msg_type = b'N';
  timestamp = 0;
  order_id = id;
  token_no = 7;
  order_type = b'B';
  price = pos price;
  qty = pos qty;
}

abbrev resting : List SimpleOrder
resting = bid 2 101 7 ∷ bid 3 101 2 ∷ bid 1 100 5 ∷ []

abbrev node : ℕ → SimpleOrder → Node
node i o = record { it = i; key = o.price; order = o }

abbrev side : Half
side = record {
  nodes = node 1 (bid 2 101 7) ∷ node 2 (bid 3 101 2) ∷ node 0 (bid 1 100 5) ∷ [];
  hash = (3, 2) ∷ (2, 1) ∷ (1, 0) ∷ [];
  next = 3;
}

side-Holds : Holds side resting
unfolding Assoc.find it_of
side-Holds = record {
  valid = record {
    finds = λ id. ground arith;
    distinct = ground arith;
    below = ground arith;
    keyed = (refl, (refl, (refl, tt)));
  };
  orders = refl;
}

shown_two :
    shown true side
    ≡ record { price = pos 101; qty = pos 9; order_count = pos 2 }
      ∷ record { price = pos 100; qty = pos 5; order_count = pos 1 }
      ∷ []
unfolding shown upper_bound agg_quantity count_orders rows ◌+ℤ◌
shown_two = refl

one_at_100 : count_at true (pos 100) resting ≢ 0
unfolding count_at
one_at_100 = omega arith

side-AreOn : AreOn true resting
side-AreOn = (refl, (refl, (refl, tt)))

side-IsPrior : IsPrior true resting
side-IsPrior = ((refl, (refl, tt)), ((refl, tt), (tt, tt)))

shown_levels_example :
    All (λ (l : Level). level_at true l.price resting ≡ some l) (shown true side)
    × AreOrdered true (shown true side)
shown_levels_example = shown_levels true side resting side-Holds side-AreOn

shown_complete_example :
    (has_price (pos 100) (shown true side) ≡ true)
    ⊎ ((length (shown true side) ≡ 10)
        × All (λ (l : Level). before true l.price (pos 100) ≡ true) (shown true side))
shown_complete_example =
    shown_complete true side resting (pos 100) side-Holds side-AreOn side-IsPrior one_at_100
