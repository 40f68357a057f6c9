-- ===== src/OrderBookType2/Trade.antt =====
-- Trades in OrderBookType2: `processTrade` looks up the buy order's id for both halves.
use order_book_sketch.Common.{
  ℕ, Bool, true, false, List, none, some, ◌==◌, ◌≡◌, ◌≢◌, arith, Bool-cases, Option-cases, inl, inr,
  leb_ℤ, ap, ◌∙◌, ne→==,
}
use order_book_sketch.FlatMap
use order_book_sketch.Dictionary.{Dictionary}
use order_book_sketch.Messages.{SimpleOrder, SimpleTrade, is_buy, prio_of}
use order_book_sketch.OrderBookType2.{
  Book, drop_filled, do_trade, cancel_order, trade_buy, trade_sell, process_trade,
}
use order_book_sketch.OrderBookType2.Ledger.{find_order, drop_order, find-drop}
use order_book_sketch.OrderBookType2.Refine.{Represents}
use order_book_sketch.OrderBookType2.Feed.{
  cancel_order-eq, cancel_order-none, cancel_order-Represents,
}
use order_book_sketch.OrderBookType2.Ghost.{orders-cancel_order}

module _ (D : Dictionary SimpleOrder) where
  trade_sell-none :
      (t : SimpleTrade) (r : Bool) (b : Book D)
      → D.find t.buy_order_id b.orders ≡ none
      → trade_sell D t r b ≡ (b, r)
  unfolding trade_sell
  trade_sell-none t r b e = elim (Bool-cases (t.sell_order_id == 0)) [
    | inl z ↦ rw z
    | inr z ↦ rw z (rw (e, trade_sell))
  ]

  trade_buy-none :
      (t : SimpleTrade) (b : Book D)
      → D.find t.buy_order_id b.orders ≡ none
      → trade_buy D t b ≡ (b, false)
  unfolding trade_buy
  trade_buy-none t b e = elim (Bool-cases (t.buy_order_id == 0)) [
    | inl z ↦ rw z
    | inr z ↦ rw z (rw (e, trade_buy))
  ]

  process_trade-eq :
      (t : SimpleTrade) (b : Book D) (r : Book D × Bool)
      → trade_buy D t b ≡ r
      → process_trade D t b ≡ trade_sell D t r.1 r.0
  unfolding process_trade
  process_trade-eq t b r e = ap (λ (p : Book D × Bool). trade_sell D t p.1 p.0) e

  -- A trade whose buy order the order map does not have changes nothing at all, the sell order's
  -- level and the order map included, and gives false.
  pub trade_needs_buy :
      (t : SimpleTrade) (b : Book D)
      → D.find t.buy_order_id b.orders ≡ none
      → process_trade D t b ≡ (b, false)
  trade_needs_buy t b e =
      process_trade-eq t b _ (trade_buy-none t b e) ∙ trade_sell-none t false b e

  do_trade-cancel_order :
      (o : SimpleOrder) (t : SimpleTrade) (b : Book D)
      → is_buy o ≡ true
      → o.price ≡ t.price
      → o.qty ≡ t.qty
      → do_trade D true t.price t.qty b ≡ cancel_order D o b
  unfolding do_trade
  do_trade-cancel_order o t b e p q =
      rw (← p, ← q)
        (elim (Option-cases (FlatMap.find (prio_of true o.price) b.buy)) [
          | inl gone ↦ rw (cancel_order-none D o b true e gone) (rw (gone, do_trade))
          | inr (it, at) ↦ rw (cancel_order-eq D o b true it e at) (rw (at, do_trade))
        ])

  trade_buy-filled :
      (o : SimpleOrder) (t : SimpleTrade) (b : Book D)
      → t.buy_order_id ≢ 0
      → D.find t.buy_order_id b.orders ≡ some o
      → is_buy o ≡ true
      → o.price ≡ t.price
      → o.qty ≡ t.qty
      → trade_buy D t b ≡ cancel_order D o (record b { orders = D.erase t.buy_order_id b.orders })
  unfolding trade_buy drop_filled
  trade_buy-filled o t b id found e p q =
      let filled : leb_ℤ o.qty t.qty ≡ true = ground (arith, q) in
      rw (ne→== t.buy_order_id 0 id)
        (rw (found, trade_buy) (rw filled (do_trade-cancel_order o t _ e p q)))

  -- A trade for the whole quantity of a resting buy order, at its price, takes that order out of a
  -- represented book and changes nothing else, whatever the sell order's id.
  pub process_trade-filled :
      (o : SimpleOrder) (t : SimpleTrade) (b : Book D) (os : List SimpleOrder)
      → Represents D b os
      → D.IsKey t.buy_order_id
      → t.buy_order_id ≢ 0
      → find_order t.buy_order_id os ≡ some o
      → is_buy o ≡ true
      → o.price ≡ t.price
      → o.qty ≡ t.qty
      → Represents D (process_trade D t b).0 (drop_order t.buy_order_id os)
  process_trade-filled o t b os h key id rests e p q =
      let found : D.find t.buy_order_id b.orders ≡ some o = h.finds t.buy_order_id key ∙ rests in
      let erased =
        λ (k : ℕ) (kk : D.IsKey k). D.find-erase t.buy_order_id k b.orders o h.valid key kk found in
      let b' : Book D = record b { orders = D.erase t.buy_order_id b.orders } in
      let gone : D.find t.buy_order_id (cancel_order D o b').0.orders ≡ none =
        rw (orders-cancel_order D) (erased t.buy_order_id key ∙ ground arith) in
      let trade =
        process_trade-eq t b _ (trade_buy-filled o t b id found e p q)
        ∙ trade_sell-none t (cancel_order D o b').1 (cancel_order D o b').0 gone in
      rw trade (
        cancel_order-Represents D o b' os t.buy_order_id
          (D.erase-IsValid t.buy_order_id b.orders o h.valid key found) h.ledger rests
          (λ k kk.
            erased k kk ∙ ground (arith, h.finds k kk, find-drop t.buy_order_id k os h.ledger))
          h.buys h.sells)
