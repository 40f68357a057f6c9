-- ===== src/OrderBookType2/Best.antt =====
-- `GetBestPrice`, and what the flag of `processOrder` tells of the best price.
use order_book_sketch.Common.{
  Bool, true, false, ℤ, ◌≤ℤ◌, List, none, some, ◌==◌, ◌≡◌, ◌≢◌, arith, ◌∙◌, refl, sym, last?,
  neg_ℤ_parts, neg_ℤ-neg_ℤ, ap, ==→eq, ◌↔◌, Bool-cases, inl, inr,
}
use order_book_sketch.FlatMap
use order_book_sketch.FlatMap.Laws.{
  lookup, last?-least, last?-nonempty, insert_pos-begin, insert_pos-not_begin,
}
use order_book_sketch.Dictionary.{Dictionary}
use order_book_sketch.Messages.{SimpleOrder, is_buy, prio_of}
use order_book_sketch.OrderBookType2.{Level, Side, Book, side_of, add_new_order, get_best_price}
use order_book_sketch.OrderBookType2.Ledger.{qty_at, count_at, level_at}
use order_book_sketch.OrderBookType2.Refine.{IsSide, Represents}

prio_of-onto : (buy : Bool) (k : ℤ) → prio_of buy (prio_of buy k) ≡ k
prio_of-onto true k = neg_ℤ-neg_ℤ k
prio_of-onto false k = refl

level_at-none :
    (buy : Bool) (p : ℤ) (os : List SimpleOrder) → count_at buy p os ≢ 0 → level_at buy p os ≢ none
unfolding level_at
level_at-none buy p os n = ground arith

level_at-some :
    (buy : Bool) (p : ℤ) (os : List SimpleOrder) (l : Level)
    → level_at buy p os ≡ some l
    → (l.price ≡ p) × (l.qty ≡ qty_at buy p os) × (count_at buy p os ≢ 0)
unfolding level_at
level_at-some buy p os l e = ground arith

level_at-count :
    (buy : Bool) (p : ℤ) (os : List SimpleOrder) → level_at buy p os ≢ none → count_at buy p os ≢ 0
unfolding level_at
level_at-count buy p os n = ground arith

-- the level that `rbegin` gives
best_level :
    (buy : Bool) (s : Side) (os : List SimpleOrder) (p : ℤ)
    → IsSide buy s os
    → count_at buy p os ≢ 0
    → (l : Level) × (last? s ≡ some (prio_of buy l.price, l))
      × (prio_of buy l.price ≤ℤ prio_of buy p)
      × (l.qty ≡ qty_at buy l.price os)
      × (count_at buy l.price os ≢ 0)
best_level buy s os p h n =
    let there =
      λ (e : lookup (prio_of buy p) s ≡ none). level_at-none buy p os n (sym (h.levels p) ∙ e) in
    let (k, l, e) = last?-nonempty (prio_of buy p) s there in
    let (found, least) = last?-least s k (prio_of buy p) l h.sorted e in
    let own =
      level_at-some buy (prio_of buy k) os l
        (sym (h.levels (prio_of buy k)) ∙ ap (λ q. lookup q s) (prio_of-onto buy k) ∙ found) in
    let key : k ≡ prio_of buy l.price = sym (prio_of-onto buy k) ∙ ap (prio_of buy) (sym own.0) in
    (l, rw (← key) e, rw (← key) (least there), rw own.0 own.1, rw own.0 own.2)

-- `it == side.begin()` after an insertion: no resting price has a higher priority number.
begin_iff :
    (buy : Bool) (s : Side) (os : List SimpleOrder) (price : ℤ)
    → IsSide buy s os
    → ((FlatMap.insert_pos (prio_of buy price) s == 0) ≡ true)
      ↔ ((p : ℤ) → count_at buy p os ≢ 0 → prio_of buy p ≤ℤ prio_of buy price)
begin_iff buy s os price h = (
  λ e p n.
      insert_pos-begin (prio_of buy price) (prio_of buy p) s h.sorted (==→eq _ _ e)
        (λ q. level_at-none buy p os n (sym (h.levels p) ∙ q)),
  λ all. elim (Bool-cases (FlatMap.insert_pos (prio_of buy price) s == 0)) [
    | inl e ↦ e
    | inr n ↦
        let (q, there, above) =
          insert_pos-not_begin (prio_of buy price) s h.sorted (ground (arith, n)) in
        let at : lookup q s ≡ level_at buy (prio_of buy q) os =
          ap (λ x. lookup x s) (sym (prio_of-onto buy q)) ∙ h.levels (prio_of buy q) in
        let low =
          all (prio_of buy q) (level_at-count buy (prio_of buy q) os (λ e. there (at ∙ e))) in
        absurd (omega (arith, rw prio_of-onto at low))
  ],
)

module _ (D : Dictionary SimpleOrder) (b : Book D) where
  bid_eq :
      (k : ℤ) (l : Level)
      → last? b.buy ≡ some (k, l)
      → ((get_best_price D b).bid ≡ l.price) × ((get_best_price D b).bidqty ≡ l.qty)
  unfolding get_best_price
  bid_eq k l e = rw (e, get_best_price) (refl, refl)

  ask_eq :
      (k : ℤ) (l : Level)
      → last? b.sell ≡ some (k, l)
      → ((get_best_price D b).ask ≡ l.price) × ((get_best_price D b).askqty ≡ l.qty)
  unfolding get_best_price
  ask_eq k l e = rw (e, get_best_price) (refl, refl)

module _ (D : Dictionary SimpleOrder) (b : Book D) (os : List SimpleOrder)
    (h : Represents D b os) where
  -- With an order resting on the buy side, `GetBestPrice` gives as bid a price that no resting buy
  -- order exceeds and at which one rests, and as quantity the sum of those that rest there.
  pub best_bid :
      (p : ℤ)
      → count_at true p os ≢ 0
      → (p ≤ℤ (get_best_price D b).bid)
        × (count_at true (get_best_price D b).bid os ≢ 0)
        × ((get_best_price D b).bidqty ≡ qty_at true (get_best_price D b).bid os)
  best_bid p n =
      let (l, e, least, qty, some_order) = best_level true b.buy os p h.buys n in
      rw ((bid_eq D b _ l e).0, (bid_eq D b _ l e).1)
        (omega (arith, least, neg_ℤ_parts l.price, neg_ℤ_parts p), some_order, qty)

  -- With an order resting on the sell side, `GetBestPrice` gives as ask a price that no resting sell
  -- order undercuts and at which one rests, and as quantity the sum of those that rest there.
  pub best_ask :
      (p : ℤ)
      → count_at false p os ≢ 0
      → ((get_best_price D b).ask ≤ℤ p)
        × (count_at false (get_best_price D b).ask os ≢ 0)
        × ((get_best_price D b).askqty ≡ qty_at false (get_best_price D b).ask os)
  best_ask p n =
      let (l, e, least, qty, some_order) = best_level false b.sell os p h.sells n in
      rw ((ask_eq D b _ l e).0, (ask_eq D b _ l e).1) (least, some_order, qty)

  side_of-IsSide : (buy : Bool) → IsSide buy (side_of D buy b) os
  side_of-IsSide true = h.buys
  side_of-IsSide false = h.sells

  -- The flag that `processOrder` returns for a new order is true exactly when every resting order of
  -- its side has a price at least as good: it reports the worst price, not the best.
  pub flag_iff_worst :
      (o : SimpleOrder)
      → ((add_new_order D o b).1 ≡ true) ↔ (
          (p : ℤ)
          → count_at (is_buy o) p os ≢ 0
          → prio_of (is_buy o) p ≤ℤ prio_of (is_buy o) o.price)
  unfolding add_new_order
  flag_iff_worst o =
      begin_iff (is_buy o) (side_of D (is_buy o) b) os o.price (side_of-IsSide (is_buy o))
