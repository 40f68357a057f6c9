-- ===== src/Tests/Improved.antt =====
-- OrderBookImproved on a feed: two bids, one of them behind the other.
use order_book_sketch.Common.{ℕ, true, pos, ◌-ℤ◌, [], ◌∷◌, none, some, ◌≡◌, refl, subst}
use order_book_sketch.Dictionary.Assoc
use order_book_sketch.Messages.{MktDataGlobalHeaderMsg, SimpleOrder, SimpleTrade}
use order_book_sketch.OrderBookType2.Ledger.{find_order}
use order_book_sketch.OrderBookImproved.{
  Half, Book, done, duplicate_order, new_order, insert_order, emplace_node, process_half,
  process_order, process_trade,
}
use order_book_sketch.OrderBookImproved.Nodes.{orders_of, it_of, place, set_qty}
use order_book_sketch.OrderBookImproved.Sides.{Holds, new_order-duplicate}
use order_book_sketch.OrderBookImproved.Refine.{
  BookHolds, after_order, after_trade, after_both, process_half-Holds, process_order-BookHolds,
  process_trade-BookHolds,
}
use order_book_sketch.OrderBookImproved.Priority.{
  IsPrior, IsSplit, process_half-IsPrior, new_order-IsSplit,
}

abbrev header : MktDataGlobalHeaderMsg
header = record { len = 38; stream_id = 1; seq_no = 1 }

abbrev message : ℕ → ℕ → ℕ → ℕ → ℕ → SimpleOrder
message type id side price qty = record {
  header = header;
  msg_type = type;
  timestamp = 0;
  order_id = id;
  token_no = 7;
  order_type = side;
  price = pos price;
  qty = pos qty;
}

abbrev trade : SimpleTrade
trade = record {
  header = header;
  msg_type = b'T';
  timestamp = 1;
  buy_order_id = 1;
  sell_order_id = 0;
  token_no = 7;
  price = pos 100;
  qty = pos 3;
}

abbrev nothing : Half
nothing = record { nodes = []; hash = []; next = 0 }

abbrev empty : Book
empty = record { bids = nothing; asks = nothing }

nothing-Holds : Holds nothing []
unfolding Assoc.find it_of
nothing-Holds = record {
  valid = record { finds = λ id. refl; distinct = tt; below = tt; keyed = tt };
  orders = refl;
}

empty-BookHolds : BookHolds empty [] []
empty-BookHolds = record { bids_hold = nothing-Holds; asks_hold = nothing-Holds }

fresh : (id : ℕ) → find_order id [] ≡ none
unfolding find_order
fresh id = refl

abbrev first : SimpleOrder
first = message b'N' 1 b'B' 100 5

first-BookHolds : BookHolds (process_order first empty).0 (after_order true first []) []
first-BookHolds = (process_order-BookHolds first empty [] [] empty-BookHolds (λ _. fresh 1)).0

process_order-BookHolds_example :
    BookHolds (process_order first empty).0 (after_order true first []) []
    × ((process_order first empty).1 ≡ done)
process_order-BookHolds_example =
    process_order-BookHolds first empty [] [] empty-BookHolds (λ _. fresh 1)

process_trade-BookHolds_example :
    let b = (process_order first empty).0 in
    let xs = after_order true first [] in
    BookHolds (process_trade trade b).0 (after_both trade xs []).0 (after_both trade xs []).1
    × ((process_trade trade b).1 ≡ (after_both trade xs []).2)
process_trade-BookHolds_example =
    process_trade-BookHolds trade (process_order first empty).0 (after_order true first []) []
      first-BookHolds

-- the trade takes 3 off the resting 5
trade_runs : (after_both trade (after_order true first []) []).0 ≡ message b'N' 1 b'B' 100 2 ∷ []
unfolding after_both after_trade after_order place set_qty find_order ◌-ℤ◌
trade_runs = refl

abbrev one_bid : Half
one_bid = (process_half true first nothing).0

first_placed : after_order true first [] ≡ first ∷ []
unfolding after_order place
first_placed = refl

first_at : it_of 1 one_bid.nodes ≡ some 0
unfolding process_half new_order insert_order emplace_node Assoc.emplace Assoc.find it_of
first_at = refl

first_orders : orders_of one_bid.nodes ≡ first ∷ []
unfolding process_half new_order insert_order emplace_node Assoc.emplace Assoc.find it_of
first_orders = refl

second_free : find_order 2 (first ∷ []) ≡ none
unfolding find_order
second_free = refl

one_bid-Holds : Holds one_bid (first ∷ [])
one_bid-Holds =
    subst (Holds one_bid) first_placed
      (process_half-Holds true nothing [] nothing-Holds first (λ _. fresh 1)).0

new_order-duplicate_example :
    ((new_order true (message b'N' 1 b'B' 99 8) one_bid).1 ≡ duplicate_order)
    × ((new_order true (message b'N' 1 b'B' 99 8) one_bid).0.hash ≡ one_bid.hash)
    × (orders_of (new_order true (message b'N' 1 b'B' 99 8) one_bid).0.nodes
        ≡ place true (message b'N' 1 b'B' 99 8) (first ∷ []))
new_order-duplicate_example =
    new_order-duplicate true (message b'N' 1 b'B' 99 8) one_bid (first ∷ []) one_bid-Holds 0
      first_at

process_half-IsPrior_example :
    IsPrior true (orders_of (process_half true (message b'N' 2 b'B' 100 8) one_bid).0.nodes)
process_half-IsPrior_example =
    process_half-IsPrior true (message b'N' 2 b'B' 100 8) one_bid (first ∷ []) one_bid-Holds
      (λ _. second_free) (rw first_orders (tt, tt))

new_order-IsSplit_example :
    IsSplit true
      (message b'N' 2 b'B' 100 8)
      (first ∷ [])
      (orders_of (process_half true (message b'N' 2 b'B' 100 8) one_bid).0.nodes)
new_order-IsSplit_example =
    new_order-IsSplit true (message b'N' 2 b'B' 100 8) one_bid (first ∷ []) one_bid-Holds refl
      second_free (tt, tt)
