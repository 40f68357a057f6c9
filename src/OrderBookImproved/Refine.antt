-- ===== src/OrderBookImproved/Refine.antt =====
-- A side of the book, and the book, against plain lists of resting orders, best price first and at
-- one price in order of arrival: the iterators and the hash map do not show.
use order_book_sketch.Common.{
  ℕ, Bool, true, false, not, ℤ, pos, ◌-ℤ◌, ltb_ℤ, ◌==ℤ◌, List, none, some, ◌==◌, if◌then◌else◌, ◌≡◌,
  refl, Bool-cases, Option-cases, inl, inr, ◌∙◌, ==→eq, ◌⊎◌,
}
use order_book_sketch.Messages.{SimpleOrder, SimpleTrade, is_buy}
use order_book_sketch.OrderBookType2.Ledger.{find_order, drop_order, drop_absent}
use order_book_sketch.OrderBookImproved.{
  Node, Half, Book, Outcome, done, duplicate_order, trade_too_large, node_at, modify_order,
  cancel_order, process_half, process_order, trade_half, process_trade,
}
use order_book_sketch.OrderBookImproved.Nodes.{
  it_of, place, set_qty, it_of-find_order-none, it_of-none_of_find, node_at-it_of,
}
use order_book_sketch.OrderBookImproved.Sides.{
  Holds, new_order-Holds, remove_order-Holds, change_qty-Holds, change_order-Holds,
}

-- the orders of a side after a modification
unfoldable pub modified : Bool → SimpleOrder → List SimpleOrder → List SimpleOrder
modified buy o os = elim (find_order o.order_id os) [
  | none ↦ place buy (record o { msg_type = b'N' }) os
  | some w ↦
      if not (w.price ==ℤ o.price)
      then place buy o (drop_order o.order_id os)
      else set_qty o.order_id o.qty os
]

-- the orders of a side after a message
unfoldable pub after_order : Bool → SimpleOrder → List SimpleOrder → List SimpleOrder
unfolding modified
after_order buy o os =
    if o.msg_type == b'N'
    then place buy o os
    else if o.msg_type == b'M'
    then modified buy o os
    else if o.msg_type == b'X'
    then drop_order o.order_id os
    else os

-- the orders of a side after a trade, and what the call gives
unfoldable pub after_trade : ℕ → ℤ → List SimpleOrder → List SimpleOrder × Outcome
after_trade id qty os = if id == 0 then (os, done) else elim (find_order id os) [
  | none ↦ (os, done)
  | some w ↦
      if ltb_ℤ (pos 0) (w.qty -ℤ qty)
      then (set_qty id (w.qty -ℤ qty) os, done)
      else if ltb_ℤ (w.qty -ℤ qty) (pos 0)
      then (os, trade_too_large)
      else (drop_order id os, done)
]

module _ (buy : Bool) (h : Half) (os : List SimpleOrder) (H : Holds h os) where
  -- Where the hash map leads for an id: nowhere, or to the node of the resting order.
  found_node :
      (id : ℕ)
      → ((it_of id h.nodes ≡ none) × (find_order id os ≡ none))
        ⊎ ((i : ℕ) × (n : Node) × (it_of id h.nodes ≡ some i)
            × (node_at i h.nodes ≡ some n)
            × (find_order id os ≡ some n.order))
  found_node id = elim (Option-cases (it_of id h.nodes)) [
    | inl e ↦ inl (e, rw (← H.orders) (it_of-find_order-none id h.nodes e))
    | inr (i, e) ↦
        let (n, at, found) = node_at-it_of id i h.nodes H.valid.distinct e in
        inr (i, n, e, at, rw (← H.orders) found)
  ]

  modify_order-Holds :
      (o : SimpleOrder)
      → Holds (modify_order buy o h).0 (modified buy o os) × ((modify_order buy o h).1 ≡ done)
  unfolding modified modify_order
  modify_order-Holds o = elim (found_node o.order_id) [
    | inl (e, f) ↦
        rw (H.valid.finds o.order_id ∙ e, f, modify_order, modified)
          (new_order-Holds buy (record o { msg_type = b'N' }) h os H e)
    | inr (i, n, e, at, f) ↦
        rw (H.valid.finds o.order_id ∙ e, f, modify_order, modified)
          (rw (at, modify_order) (change_order-Holds buy o h os H i n e, refl))
  ]

  cancel_order-Holds : (o : SimpleOrder) → Holds (cancel_order o h) (drop_order o.order_id os)
  unfolding cancel_order
  cancel_order-Holds o = elim (found_node o.order_id) [
    | inl (e, f) ↦
        rw (H.valid.finds o.order_id ∙ e, cancel_order) (rw (drop_absent o.order_id os f) H)
    | inr (i, n, e, at, f) ↦
        rw (H.valid.finds o.order_id ∙ e, cancel_order)
          (remove_order-Holds buy o h os H o.order_id i e)
  ]

  -- A message takes the side to the specified orders and throws nothing, if a new order's id does
  -- not rest on the side.
  pub process_half-Holds :
      (o : SimpleOrder)
      → (o.msg_type ≡ b'N' → find_order o.order_id os ≡ none)
      → Holds (process_half buy o h).0 (after_order buy o os) × ((process_half buy o h).1 ≡ done)
  unfolding process_half after_order
  process_half-Holds o fresh = elim (Bool-cases (o.msg_type == b'N')) [
    | inl n ↦
        let free =
          it_of-none_of_find o.order_id h.nodes (rw H.orders (fresh (==→eq o.msg_type b'N' n))) in
        rw n (new_order-Holds buy o h os H free)
    | inr n ↦ elim (Bool-cases (o.msg_type == b'M')) [
      | inl m ↦ rw (n, m) (modify_order-Holds o)
      | inr m ↦ elim (Bool-cases (o.msg_type == b'X')) [
        | inl x ↦ rw (n, m, x) (cancel_order-Holds o, refl)
        | inr x ↦ rw (n, m, x) (H, refl)
      ]
    ]
  ]

  -- A trade on one side: a larger order keeps the rest, an equal one leaves, a smaller one is an
  -- error that changes nothing, and an unknown id, or 0, is ignored.
  pub trade_half-Holds :
      (id : ℕ) (qty : ℤ)
      → Holds (trade_half id qty h).0 (after_trade id qty os).0
        × ((trade_half id qty h).1 ≡ (after_trade id qty os).1)
  unfolding trade_half after_trade
  trade_half-Holds id qty = elim (Bool-cases (id == 0)) [
    | inl z ↦ rw z (H, refl)
    | inr z ↦ elim (found_node id) [
      | inl (e, f) ↦ rw z (rw (H.valid.finds id ∙ e, f, trade_half, after_trade) (H, refl))
      | inr (i, n, e, at, f) ↦ rw z (
          rw (H.valid.finds id ∙ e, f, trade_half, after_trade)
            (rw (at, trade_half)
              (elim (Bool-cases (ltb_ℤ (pos 0) (n.order.qty -ℤ qty))) [
                | inl p ↦
                    rw p (change_qty-Holds buy n.order h os H id i (n.order.qty -ℤ qty) e, refl)
                | inr p ↦ elim (Bool-cases (ltb_ℤ (n.order.qty -ℤ qty) (pos 0))) [
                  | inl l ↦ rw (p, l) (H, refl)
                  | inr l ↦ rw (p, l) (remove_order-Holds buy n.order h os H id i e, refl)
                ]
              ])))
    ]
  ]

pub record BookHolds (b : Book) (bids asks : List SimpleOrder) : Type 0 where
  pub bids_hold : Holds b.bids bids
  pub asks_hold : Holds b.asks asks

-- `processOrder` acts on the side of the order as specified, leaves the other side, and throws
-- nothing, if a new order's id does not rest on its side.
pub process_order-BookHolds :
    (o : SimpleOrder) (b : Book) (xs ys : List SimpleOrder)
    → BookHolds b xs ys
    → (o.msg_type ≡ b'N' → find_order o.order_id (if is_buy o then xs else ys) ≡ none)
    → BookHolds
        (process_order o b).0
        (if is_buy o then after_order true o xs else xs)
        (if is_buy o then ys else after_order false o ys)
      × ((process_order o b).1 ≡ done)
unfolding process_order
process_order-BookHolds o b xs ys h fresh = elim (Bool-cases (is_buy o)) [
  | inl e ↦
      let r = process_half-Holds true b.bids xs h.bids_hold o (λ n. rw e at (fresh n)) in
      rw e (record { bids_hold = r.0; asks_hold = h.asks_hold }, r.1)
  | inr e ↦
      let r = process_half-Holds false b.asks ys h.asks_hold o (λ n. rw e at (fresh n)) in
      rw e (record { bids_hold = h.bids_hold; asks_hold = r.0 }, r.1)
]

-- the orders of both sides after a trade: an error on the buy side stops the call
unfoldable pub after_both :
    SimpleTrade
    → List SimpleOrder
    → List SimpleOrder
    → List SimpleOrder × List SimpleOrder × Outcome
unfolding after_trade
after_both t xs ys =
    let (xs', r) = after_trade t.buy_order_id t.qty xs in
    let (ys', r') = after_trade t.sell_order_id t.qty ys in
    elim r [ done ↦ (xs', ys', r') | e ↦ (xs', ys, e) ]

outcome_cases : (r : Outcome) → (r ≡ done) ⊎ ((r ≡ duplicate_order) ⊎ (r ≡ trade_too_large))
outcome_cases done = inl refl
outcome_cases duplicate_order = inr (inl refl)
outcome_cases trade_too_large = inr (inr refl)

-- `processTrade` takes the traded quantity off both resting orders, as `after_both` specifies, and
-- gives its result.
pub process_trade-BookHolds :
    (t : SimpleTrade) (b : Book) (xs ys : List SimpleOrder)
    → BookHolds b xs ys
    → BookHolds (process_trade t b).0 (after_both t xs ys).0 (after_both t xs ys).1
      × ((process_trade t b).1 ≡ (after_both t xs ys).2)
unfolding process_trade after_both
process_trade-BookHolds t b xs ys h =
    let r = trade_half-Holds true b.bids xs h.bids_hold t.buy_order_id t.qty in
    let r' = trade_half-Holds false b.asks ys h.asks_hold t.sell_order_id t.qty in
    elim (outcome_cases (after_trade t.buy_order_id t.qty xs).1) [
      | inl e ↦
          rw (r.1 ∙ e, e, process_trade, after_both)
            (record { bids_hold = r.0; asks_hold = r'.0 }, r'.1)
      | inr (inl e) ↦
          rw (r.1 ∙ e, e, process_trade, after_both)
            (record { bids_hold = r.0; asks_hold = h.asks_hold }, refl)
      | inr (inr e) ↦
          rw (r.1 ∙ e, e, process_trade, after_both)
            (record { bids_hold = r.0; asks_hold = h.asks_hold }, refl)
    ]
