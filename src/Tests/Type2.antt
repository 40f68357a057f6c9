-- ===== src/Tests/Type2.antt =====
-- OrderBookType2 on a feed of four messages.
use order_book_sketch.Common.{
  ℕ, true, false, pos, neg_ℤ, ◌+ℤ◌, ◌≤ℤ◌, List, [], ◌∷◌, none, some, ◌≡◌, ◌≢◌, refl, arith, ap,
  pos_part,
}
use order_book_sketch.Dictionary.Assoc.{assoc_list, find, emplace, erase}
use order_book_sketch.FlatMap
use order_book_sketch.FlatMap.Laws.{lookup}
use order_book_sketch.Messages.{MktDataGlobalHeaderMsg, SimpleOrder, SimpleTrade, prio_of}
use order_book_sketch.OrderBookType2.{
  grow_level, Book, process_order, get_best_price, process_trade,
}
use order_book_sketch.OrderBookType2.Ledger.{find_order, drop_order, qty_at, count_at, level_at}
use order_book_sketch.OrderBookType2.Refine.{Represents}
use order_book_sketch.OrderBookType2.Feed.{ledger_step, run, ledger_run, run-Represents}
use order_book_sketch.OrderBookType2.Best.{best_bid, best_ask}
use order_book_sketch.OrderBookType2.Modify.{IsModified, process_order-IsModified}
use order_book_sketch.OrderBookType2.Trade.{process_trade-filled}
use order_book_sketch.OrderBookType2.Ghost.{moved_order_stays}

abbrev header : MktDataGlobalHeaderMsg
header = record { len = 38; stream_id = 1; seq_no = 1 }

abbrev message : ℕ → ℕ → ℕ → ℕ → ℕ → SimpleOrder
message type id side price qty = record {
  header = header;
  msg_type = type;
  timestamp = 0;
  order_id = id;
  token_no = 7;
  order_type = side;
  price = pos price;
  qty = pos qty;
}

abbrev empty : Book (assoc_list SimpleOrder)
empty = record { buy = []; sell = []; orders = [] }

abbrev feed : List SimpleOrder
feed =
    message b'N' 1 b'B' 100 5
    ∷ message b'N' 2 b'B' 101 7
    ∷ message b'N' 3 b'B' 101 2
    ∷ message b'N' 4 b'S' 103 9
    ∷ []

empty-Represents : Represents (assoc_list SimpleOrder) empty []
unfolding find find_order lookup level_at count_at
empty-Represents = record {
  valid = tt;
  ledger = tt;
  finds = λ id _. refl;
  buys = record { sorted = tt; levels = λ p. refl };
  sells = record { sorted = tt; levels = λ p. refl };
}

feed-Represents :
    Represents
      (assoc_list SimpleOrder)
      (run (assoc_list SimpleOrder) feed empty)
      (ledger_run (assoc_list SimpleOrder) feed [])
feed-Represents =
    run-Represents (assoc_list SimpleOrder) feed empty [] empty-Represents (omega arith)

run-Represents_example :
    Represents
      (assoc_list SimpleOrder)
      (run (assoc_list SimpleOrder) feed empty)
      (ledger_run (assoc_list SimpleOrder) feed [])
run-Represents_example =
    run-Represents (assoc_list SimpleOrder) feed empty [] empty-Represents (omega arith)

abbrev book : Book (assoc_list SimpleOrder)
book = run (assoc_list SimpleOrder) feed empty

abbrev resting : List SimpleOrder
resting = ledger_run (assoc_list SimpleOrder) feed []

two_orders : count_at true (pos 101) resting ≢ 0
unfolding ledger_run ledger_step find_order drop_order count_at
two_orders = omega arith

one_ask : count_at false (pos 103) resting ≢ 0
unfolding ledger_run ledger_step find_order drop_order count_at
one_ask = omega arith

best_bid_example :
    let best = get_best_price (assoc_list SimpleOrder) book in
    (pos 101 ≤ℤ best.bid)
    × (count_at true best.bid resting ≢ 0)
    × (best.bidqty ≡ qty_at true best.bid resting)
best_bid_example =
    best_bid (assoc_list SimpleOrder) book resting feed-Represents (pos 101) two_orders

best_ask_example :
    let best = get_best_price (assoc_list SimpleOrder) book in
    (best.ask ≤ℤ pos 103)
    × (count_at false best.ask resting ≢ 0)
    × (best.askqty ≡ qty_at false best.ask resting)
best_ask_example = best_ask (assoc_list SimpleOrder) book resting feed-Represents (pos 103) one_ask

-- the feed as the code runs it
best_price_runs :
    get_best_price (assoc_list SimpleOrder) book
    ≡ record { bidqty = pos 9; bid = pos 101; ask = pos 103; askqty = pos 9 }
unfolding run process_order find emplace erase FlatMap.find FlatMap.insert FlatMap.insert_pos
    FlatMap.update_at get_best_price grow_level ◌+ℤ◌ neg_ℤ
best_price_runs = refl

abbrev moved : SimpleOrder
moved = message b'M' 1 b'B' 102 5

found_one : find_order 1 resting ≡ some (message b'N' 1 b'B' 100 5)
unfolding ledger_run ledger_step find_order drop_order
found_one = refl

process_order-IsModified_example :
    IsModified
      (assoc_list SimpleOrder)
      moved
      resting
      (process_order (assoc_list SimpleOrder) moved book).0
process_order-IsModified_example =
    process_order-IsModified (assoc_list SimpleOrder) moved (message b'N' 1 b'B' 100 5) book resting
      feed-Represents tt found_one refl (omega arith) refl

prices_apart : (moved.price ≡ pos 100) → ⊥
prices_apart e = omega (arith, ap pos_part e)

moved_order_stays_example :
    let D = assoc_list SimpleOrder in
    let b' = (process_order D (message b'X' 1 b'B' 102 5) (process_order D moved book).0).0 in
    (find 1 b'.orders ≡ none)
    × (lookup (prio_of true (pos 102)) b'.buy
        ≡ level_at true (pos 102) (moved ∷ drop_order 1 resting))
    × (count_at true (pos 102) (moved ∷ drop_order 1 resting) ≢ 0)
moved_order_stays_example =
    moved_order_stays (assoc_list SimpleOrder) moved (message b'N' 1 b'B' 100 5)
      (message b'X' 1 b'B' 102 5) book resting feed-Represents tt found_one refl (omega arith)
      prices_apart refl refl refl

abbrev trade : ℕ → SimpleTrade
trade id = record {
  header = header;
  msg_type = b'T';
  timestamp = 1;
  buy_order_id = id;
  sell_order_id = 4;
  token_no = 7;
  price = pos 101;
  qty = pos 7;
}

unknown_nine : find 9 book.orders ≡ none
unfolding run process_order find emplace
unknown_nine = refl

found_two : find_order 2 resting ≡ some (message b'N' 2 b'B' 101 7)
unfolding ledger_run ledger_step find_order drop_order
found_two = refl

process_trade-filled_example :
    Represents
      (assoc_list SimpleOrder)
      (process_trade (assoc_list SimpleOrder) (trade 2) book).0
      (drop_order 2 resting)
process_trade-filled_example =
    process_trade-filled (assoc_list SimpleOrder) (message b'N' 2 b'B' 101 7) (trade 2) book resting
      feed-Represents tt (omega arith) found_two refl refl refl
