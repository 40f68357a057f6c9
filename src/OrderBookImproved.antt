-- ===== src/OrderBookImproved.antt =====
-- OrderBookStore/include/OrderBookImproved.hpp and src/OrderBookImproved.cpp: each side is a
-- `std::multimap` from prices to orders, best price first and, at one price, in order of arrival, and
-- an `unordered_map` from order ids to the multimap's iterators. An iterator is a number that no
-- other node of its multimap has or had; a node holds the order that its pointer leads to. The
-- subscriber makes an order object for each message, so no two nodes share one. A method
-- returns the new book, also when it throws, since the caller catches the exception and goes on.
pub mod Nodes
pub mod Placing
pub mod Sides
pub mod Refine
pub mod Priority
pub mod Shown
use order_book_sketch.Common.{
  ℕ, suc, Bool, true, false, not, ℤ, pos, ◌-ℤ◌, ltb_ℤ, ◌==ℤ◌, List, [], ◌∷◌, Option, none, some,
  ◌==◌, if◌then◌else◌,
}
use order_book_sketch.Dictionary.Assoc
use order_book_sketch.Messages.{SimpleOrder, SimpleTrade, is_buy}

pub record Node : Type 0 where
  pub it : ℕ
  pub key : ℤ
  pub order : SimpleOrder

-- One side: the multimap, the hash map and the supply of iterators.
pub record Half : Type 0 where
  pub nodes : List Node
  pub hash : List (ℕ × ℕ)
  pub next : ℕ

pub record Book : Type 0 where
  pub bids : Half
  pub asks : Half

pub data Outcome : Type 0 where
  done duplicate_order trade_too_large : Outcome

-- `std::greater<Price>` for the bids, `std::less<Price>` for the asks
abbrev pub before : Bool → ℤ → ℤ → Bool
before true a b = ltb_ℤ b a
before false a b = ltb_ℤ a b

-- `multimap::emplace`: behind the nodes whose key is not after
unfoldable pub emplace_node : Bool → Node → List Node → List Node
emplace_node buy n [] = n ∷ []
emplace_node buy n (m ∷ ns) =
    if before buy n.key m.key then n ∷ m ∷ ns else m ∷ emplace_node buy n ns

-- `it->second`
unfoldable pub node_at : ℕ → List Node → Option Node
node_at i [] = none
node_at i (n ∷ ns) = if n.it == i then some n else node_at i ns

-- `multimap::erase(it)`
unfoldable pub erase_node : ℕ → List Node → List Node
erase_node i [] = []
erase_node i (n ∷ ns) = if n.it == i then ns else n ∷ erase_node i ns

-- `it->second->order_qty(qty)`
unfoldable pub set_node_qty : ℕ → ℤ → List Node → List Node
set_node_qty i q [] = []
set_node_qty i q (n ∷ ns) =
    if n.it == i
    then record n { order = record n.order { qty = q } } ∷ ns
    else n ∷ set_node_qty i q ns

-- `it->second = ...` in the hash map, at an id that it holds
unfoldable pub assign : ℕ → ℕ → List (ℕ × ℕ) → List (ℕ × ℕ)
assign k v [] = []
assign k v ((j, w) ∷ m) = if j == k then (j, v) ∷ m else (j, w) ∷ assign k v m

-- `_bids.emplace(orderPtr->price(), orderPtr)`, and the iterator's number is used up
unfoldable pub insert_order : Bool → SimpleOrder → Half → Half
insert_order buy o h = record h {
  nodes = emplace_node buy (record { it = h.next; key = o.price; order = o }) h.nodes;
  next = suc h.next;
}

-- `case 'N'`: the order is in the multimap before the hash map refuses a duplicate.
unfoldable pub new_order : Bool → SimpleOrder → Half → Half × Outcome
unfolding insert_order
new_order buy o h =
    let (hash, _, inserted) = Assoc.emplace o.order_id h.next h.hash in
    let h' = record (insert_order buy o h) { hash = hash } in
    if inserted then (h', done) else (h', duplicate_order)

-- `case 'M'` for an order that the hash map leads to
unfoldable pub change_order : Bool → SimpleOrder → ℕ → Node → Half → Half
unfolding insert_order
change_order buy o it n h =
    if not (n.order.price ==ℤ o.price)
    then record (insert_order buy o (record h { nodes = erase_node it h.nodes })) {
      hash = assign o.order_id h.next h.hash;
    }
    else record h { nodes = set_node_qty it o.qty h.nodes }

-- `case 'M'`; an unknown order is treated as new, with its type set.
unfoldable pub modify_order : Bool → SimpleOrder → Half → Half × Outcome
unfolding change_order new_order
modify_order buy o h = elim (Assoc.find o.order_id h.hash) [
  | none ↦ new_order buy (record o { msg_type = b'N' }) h
  | some it ↦ elim (node_at it h.nodes) [
    | none ↦ (h, done)
    | some n ↦ (change_order buy o it n h, done)
  ]
]

-- `_bids.erase(it->second); _bidsHash.erase(it)`
unfoldable pub remove_order : ℕ → ℕ → Half → Half
remove_order id it h = record h { nodes = erase_node it h.nodes; hash = Assoc.erase id h.hash }

-- `case 'X'`
unfoldable pub cancel_order : SimpleOrder → Half → Half
unfolding remove_order
cancel_order o h = elim (Assoc.find o.order_id h.hash) [
  | none ↦ h
  | some it ↦ remove_order o.order_id it h
]

unfoldable pub process_half : Bool → SimpleOrder → Half → Half × Outcome
unfolding new_order modify_order cancel_order
process_half buy o h =
    if o.msg_type == b'N'
    then new_order buy o h
    else if o.msg_type == b'M'
    then modify_order buy o h
    else if o.msg_type == b'X'
    then (cancel_order o h, done)
    else (h, done)

-- `processOrder`: the same code for the one side and for the other
unfoldable pub process_order : SimpleOrder → Book → Book × Outcome
unfolding process_half
process_order o b =
    let (bids, r) = process_half true o b.bids in
    let (asks, r') = process_half false o b.asks in
    if is_buy o then (record b { bids = bids }, r) else (record b { asks = asks }, r')

-- one half of `processTrade`: an order id of 0 stands for no order
unfoldable pub trade_half : ℕ → ℤ → Half → Half × Outcome
unfolding remove_order
trade_half id qty h = if id == 0 then (h, done) else elim (Assoc.find id h.hash) [
  | none ↦ (h, done)
  | some it ↦ elim (node_at it h.nodes) [
    | none ↦ (h, done)
    | some n ↦
        let delta = n.order.qty -ℤ qty in
        if ltb_ℤ (pos 0) delta
        then (record h { nodes = set_node_qty it delta h.nodes }, done)
        else if ltb_ℤ delta (pos 0)
        then (h, trade_too_large)
        else (remove_order id it h, done)
  ]
]

-- An exception in the first half leaves the second half undone.
unfoldable pub process_trade : SimpleTrade → Book → Book × Outcome
unfolding trade_half
process_trade t b =
    let (bids, r) = trade_half t.buy_order_id t.qty b.bids in
    let (asks, r') = trade_half t.sell_order_id t.qty b.asks in
    elim r [
      | done ↦ (record b { bids = bids; asks = asks }, r')
      | e ↦ (record b { bids = bids }, e)
    ]
