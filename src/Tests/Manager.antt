-- ===== src/Tests/Manager.antt =====
-- OrderBookManagerType2 with two tokens.
use order_book_sketch.Common.{ℕ, pos, List, [], ◌∷◌, some, ◌≡◌, refl, arith}
use order_book_sketch.Dictionary.Assoc.{assoc_list}
use order_book_sketch.Messages.{SimpleOrder, SimpleTrade}
use order_book_sketch.OrderBookType2.{Book}
use order_book_sketch.OrderBookType2.Refine.{Represents}
use order_book_sketch.OrderBookType2.Feed.{ledger_run}
use order_book_sketch.OrderBookManager.Type2.{Manager, new_manager, init}
use order_book_sketch.OrderBookManager.Routing.{book_of, IsRouted}
use order_book_sketch.OrderBookManager.Feed.{
  of_token, listed, run_orders, init-book_of, new_manager-IsRouted, session-Represents,
}

abbrev order : ℕ → ℕ → ℕ → SimpleOrder
order id token price = record {
  header = record { len = 38; stream_id = 1; seq_no = 1 };
  msg_type = b'N';
  timestamp = 0;
  order_id = id;
  token_no = token;
  order_type = b'B';
  price = pos price;
  qty = pos 5;
}

abbrev trade : SimpleTrade
trade = record {
  header = record { len = 38; stream_id = 1; seq_no = 2 };
  msg_type = b'T';
  timestamp = 1;
  buy_order_id = 1;
  sell_order_id = 0;
  token_no = 7;
  price = pos 100;
  qty = pos 5;
}

abbrev tokens : List ℕ
tokens = 7 ∷ 8 ∷ []

abbrev feed : List SimpleOrder
feed = order 1 7 100 ∷ order 1 8 200 ∷ order 2 7 101 ∷ []

abbrev started : Manager (assoc_list SimpleOrder) (assoc_list ℕ)
started =
    (init (assoc_list SimpleOrder) (assoc_list ℕ) tokens
      (new_manager (assoc_list SimpleOrder) (assoc_list ℕ))).0

started-IsRouted : IsRouted (assoc_list SimpleOrder) (assoc_list ℕ) started
started-IsRouted =
    (init-book_of (assoc_list SimpleOrder) (assoc_list ℕ) tokens
      (new_manager (assoc_list SimpleOrder) (assoc_list ℕ))
      (new_manager-IsRouted (assoc_list SimpleOrder) (assoc_list ℕ)) (tt, (tt, tt)) (omega arith)).1

session-Represents_example :
    (b : Book (assoc_list SimpleOrder)) × (book_of
        (assoc_list SimpleOrder)
        (assoc_list ℕ)
        7
        (run_orders (assoc_list SimpleOrder) (assoc_list ℕ) feed started)
      ≡ some b)
    × Represents
        (assoc_list SimpleOrder)
        b
        (ledger_run (assoc_list SimpleOrder) (of_token 7 feed) [])
unfolding listed
session-Represents_example =
    session-Represents (assoc_list SimpleOrder) (assoc_list ℕ) tokens feed 7 (tt, (tt, tt))
      (omega arith) (tt, (tt, (tt, tt))) (omega arith) tt refl
