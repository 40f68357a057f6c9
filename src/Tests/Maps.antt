-- ===== src/Tests/Maps.antt =====
-- OrderBookManagerImproved with two tokens.
use order_book_sketch.Common.{pos, [], ◌∷◌, none, ◌≡◌, refl}
use order_book_sketch.Dictionary.Assoc
use order_book_sketch.Messages.{SimpleOrder, SimpleTrade}
use order_book_sketch.OrderBookManager.Improved.{Manager, init, add_trade}

abbrev order : SimpleOrder
order = record {
  header = record { len = 38; stream_id = 1; seq_no = 1 };
  msg_type = b'N';
  timestamp = 0;
  order_id = 1;
  token_no = 7;
  order_type = b'B';
  price = pos 100;
  qty = pos 5;
}

abbrev trade : SimpleTrade
trade = record {
  header = record { len = 38; stream_id = 1; seq_no = 2 };
  msg_type = b'T';
  timestamp = 1;
  buy_order_id = 1;
  sell_order_id = 0;
  token_no = 9;
  price = pos 100;
  qty = pos 5;
}

abbrev started : Manager
started = init (7 ∷ 8 ∷ []) []

trade_is_unknown : (add_trade trade started).1 ≡ none
unfolding init Assoc.emplace Assoc.find add_trade
trade_is_unknown = refl
