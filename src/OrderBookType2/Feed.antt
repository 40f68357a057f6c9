-- ===== src/OrderBookType2/Feed.antt =====
-- `processOrder` on new orders and cancels refines the ledger of resting orders.
use order_book_sketch.Common.{
  ℕ, Bool, true, false, pos, ◌<ℤ◌, List, [], ◌∷◌, none, some, if◌then◌else◌, ◌==◌, ◌≡◌, ◌≢◌, arith,
  Bool-cases, Option-cases, inl, inr, ◌∙◌, refl, subst, ne→==,
}
use order_book_sketch.FlatMap
use order_book_sketch.FlatMap.{is_begin}
use order_book_sketch.FlatMap.Laws.{find-none}
use order_book_sketch.Dictionary.{Dictionary}
use order_book_sketch.Messages.{SimpleOrder, is_buy, prio_of}
use order_book_sketch.OrderBookType2.{
  duplicate_order, reduce_level, Book, side_of, set_side, add_new_order, cancel_order, process_new,
  process_cancel, process_order,
}
use order_book_sketch.OrderBookType2.Ledger.{
  find_order, drop_order, IsLedger, find-drop, drop_absent, drop_order-IsLedger,
}
use order_book_sketch.OrderBookType2.Refine.{
  IsSide, grow-IsSide, reduce-IsSide, lookup-own, Represents, IsSide-cons_other, IsSide-drop_other,
}

-- What a message does to the resting orders, a modification left aside.
unfoldable pub ledger_step : SimpleOrder → List SimpleOrder → List SimpleOrder
ledger_step o os =
    if o.msg_type == b'N'
    then elim (find_order o.order_id os) [ none ↦ o ∷ os | some _ ↦ os ]
    else if o.msg_type == b'X'
    then drop_order o.order_id os
    else os

module _ (D : Dictionary SimpleOrder) where
  add_new_order-Represents :
      (o : SimpleOrder) (b : Book D) (os : List SimpleOrder)
      → D.IsValid b.orders
      → IsLedger (o ∷ os)
      → ((id : ℕ) → D.IsKey id → D.find id b.orders ≡ find_order id (o ∷ os))
      → IsSide true b.buy os
      → IsSide false b.sell os
      → Represents D (add_new_order D o b).0 (o ∷ os)
  unfolding add_new_order
  add_new_order-Represents o b os v l f hb hs = elim (Bool-cases (is_buy o)) [
    | inl e ↦ rw e (record {
      valid = v;
      ledger = l;
      finds = f;
      buys = grow-IsSide true b.buy o os e hb;
      sells = IsSide-cons_other false b.sell o os e hs;
    })
    | inr e ↦ rw e (record {
      valid = v;
      ledger = l;
      finds = f;
      buys = IsSide-cons_other true b.buy o os e hb;
      sells = grow-IsSide false b.sell o os e hs;
    })
  ]

  module _ (o : SimpleOrder) (b : Book D) (os : List SimpleOrder) (h : Represents D b os)
      (key : D.IsKey o.order_id) where
    new-Represents :
        pos 0 <ℤ o.qty
        → find_order o.order_id os ≡ none
        → Represents D (process_new D o b).0 (o ∷ os)
    unfolding process_new find_order
    new-Represents positive fresh =
        let absent : D.find o.order_id b.orders ≡ none = h.finds o.order_id key ∙ fresh in
        rw (D.emplace_new o.order_id o b.orders h.valid key absent).1 (
          add_new_order-Represents o (record b { orders = (D.emplace o.order_id o b.orders).0 }) os
            (D.emplace-IsValid o.order_id o b.orders h.valid key) (positive, fresh, h.ledger)
            (λ q kq.
              D.find-emplace_new o.order_id q o b.orders h.valid key kq absent
              ∙ ground (arith, h.finds q kq))
            h.buys h.sells)

    duplicate-Represents :
        (w : SimpleOrder)
        → find_order o.order_id os ≡ some w
        → Represents D (process_new D o b).0 os × ((process_new D o b).1 ≡ duplicate_order)
    unfolding process_new
    duplicate-Represents w old =
        let present : D.find o.order_id b.orders ≡ some w = h.finds o.order_id key ∙ old in
        rw (D.emplace_old o.order_id o b.orders w h.valid key present).1 (
          record {
            valid = D.emplace-IsValid o.order_id o b.orders h.valid key;
            ledger = h.ledger;
            finds = λ q kq.
                D.find-emplace_old o.order_id q o b.orders w h.valid key kq present ∙ h.finds q kq;
            buys = h.buys;
            sells = h.sells;
          },
          refl,
        )

  pub cancel_order-eq :
      (o : SimpleOrder) (b : Book D) (buy : Bool) (it : ℕ)
      → is_buy o ≡ buy
      → FlatMap.find (prio_of buy o.price) (side_of D buy b) ≡ some it
      → cancel_order D o b
        ≡ (set_side D buy (reduce_level it o.qty (pos 1) (side_of D buy b)) b, is_begin it)
  unfolding cancel_order
  cancel_order-eq o b buy it e =
      subst
        (λ x.
          FlatMap.find (prio_of x o.price) (side_of D x b) ≡ some it
          → cancel_order D o b
            ≡ (set_side D x (reduce_level it o.qty (pos 1) (side_of D x b)) b, is_begin it))
        e (λ at. rw (at, cancel_order))

  pub cancel_order-none :
      (o : SimpleOrder) (b : Book D) (buy : Bool)
      → is_buy o ≡ buy
      → FlatMap.find (prio_of buy o.price) (side_of D buy b) ≡ none
      → cancel_order D o b ≡ (b, false)
  unfolding cancel_order
  cancel_order-none o b buy e =
      subst
        (λ x.
          FlatMap.find (prio_of x o.price) (side_of D x b) ≡ none → cancel_order D o b ≡ (b, false))
        e (λ at. rw (at, cancel_order))

  pub cancel_order-Represents :
      (o : SimpleOrder) (b : Book D) (os : List SimpleOrder) (id : ℕ)
      → D.IsValid b.orders
      → IsLedger os
      → find_order id os ≡ some o
      → ((q : ℕ) → D.IsKey q → D.find q b.orders ≡ find_order q (drop_order id os))
      → IsSide true b.buy os
      → IsSide false b.sell os
      → Represents D (cancel_order D o b).0 (drop_order id os)
  cancel_order-Represents o b os id v l found f hb hs = elim (Bool-cases (is_buy o)) [
    | inl e ↦ elim (Option-cases (FlatMap.find (prio_of true o.price) b.buy)) [
      | inl gone ↦ cc (
        find-none (prio_of true o.price) b.buy gone,
        lookup-own true b.buy o os e hb id 0 l found,
      )
      | inr (it, at) ↦ rw (cancel_order-eq o b true it e at) (record {
        valid = v;
        ledger = drop_order-IsLedger id os l;
        finds = f;
        buys = reduce-IsSide true b.buy o os e hb id it l found at;
        sells = IsSide-drop_other false b.sell o os id e found hs;
      })
    ]
    | inr e ↦ elim (Option-cases (FlatMap.find (prio_of false o.price) b.sell)) [
      | inl gone ↦ cc (
        find-none (prio_of false o.price) b.sell gone,
        lookup-own false b.sell o os e hs id 0 l found,
      )
      | inr (it, at) ↦ rw (cancel_order-eq o b false it e at) (record {
        valid = v;
        ledger = drop_order-IsLedger id os l;
        finds = f;
        buys = IsSide-drop_other true b.buy o os id e found hb;
        sells = reduce-IsSide false b.sell o os e hs id it l found at;
      })
    ]
  ]

  module _ (o : SimpleOrder) (b : Book D) (os : List SimpleOrder) (h : Represents D b os)
      (key : D.IsKey o.order_id) where
    cancel-Represents : Represents D (process_cancel D o b).0 (drop_order o.order_id os)
    unfolding process_cancel
    cancel-Represents = elim (Option-cases (find_order o.order_id os)) [
      | inl e ↦ rw (h.finds o.order_id key ∙ e, process_cancel) (rw (drop_absent o.order_id os e) h)
      | inr (w, e) ↦
          let found : D.find o.order_id b.orders ≡ some w = h.finds o.order_id key ∙ e in
          rw (found, process_cancel)
            (cancel_order-Represents w (record b { orders = D.erase o.order_id b.orders }) os
              o.order_id (D.erase-IsValid o.order_id b.orders w h.valid key found) h.ledger e
              (λ q kq.
                D.find-erase o.order_id q b.orders w h.valid key kq found
                ∙ ground (arith, h.finds q kq, find-drop o.order_id q os h.ledger))
              h.buys h.sells)
    ]

    -- After a new order or a cancel, and after any message of another type but 'M', the book holds
    -- the ledger's orders, and every level what they add up to; the duplicate of a resting order's
    -- id is thrown back and changes nothing.
    pub process_order-Represents :
        o.msg_type ≢ b'M' → pos 0 <ℤ o.qty → Represents D (process_order D o b).0 (ledger_step o os)
    unfolding process_order ledger_step
    process_order-Represents not_m positive = elim (Bool-cases (o.msg_type == b'N')) [
      | inl n ↦ rw n (elim (Option-cases (find_order o.order_id os)) [
        | inl e ↦ rw e (new-Represents o b os h key positive e)
        | inr (w, e) ↦ rw e (duplicate-Represents o b os h key w e).0
      ])
      | inr n ↦
          rw (n, ne→== o.msg_type b'M' not_m)
            (elim (Bool-cases (o.msg_type == b'X')) [
              | inl x ↦ rw x cancel-Represents
              | inr x ↦ rw x h
            ])
    ]

  -- A feed, message after message; an exception is caught and the next message read.
  unfoldable pub run : List SimpleOrder → Book D → Book D
  run [] b = b
  run (o ∷ feed) b = run feed (process_order D o b).0

  unfoldable pub ledger_run : List SimpleOrder → List SimpleOrder → List SimpleOrder
  ledger_run [] os = os
  ledger_run (o ∷ feed) os = ledger_run feed (ledger_step o os)

  -- a feed of new orders and cancels, as the exchange sends them
  abbrev pub IsFeed : List SimpleOrder → Type 0
  IsFeed [] = Unit
  IsFeed (o ∷ feed) = D.IsKey o.order_id × (o.msg_type ≢ b'M') × (pos 0 <ℤ o.qty) × IsFeed feed

  pub run-Represents :
      (feed : List SimpleOrder) (b : Book D) (os : List SimpleOrder)
      → Represents D b os
      → IsFeed feed
      → Represents D (run feed b) (ledger_run feed os)
  unfolding run ledger_run
  run-Represents [] b os h f = h
  run-Represents (o ∷ feed) b os h f =
      run-Represents feed _ _ (process_order-Represents o b os h f.0 f.1 f.2) f.3
