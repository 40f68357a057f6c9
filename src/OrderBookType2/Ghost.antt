-- ===== src/OrderBookType2/Ghost.antt =====
-- A cancel after a modification works with the order that the map still holds, the old one.
use order_book_sketch.Common.{
  ℕ, Bool, true, false, ℤ, pos, ◌==ℤ◌, ◌<ℤ◌, List, ◌∷◌, none, some, ◌==◌, ◌≡◌, ◌≢◌, arith, ◌∙◌,
  refl, sym, ==ℤ→eq, ==ℤ_refl, Bool-cases, Option-cases, inl, inr,
}
use order_book_sketch.FlatMap
use order_book_sketch.FlatMap.Laws.{lookup, IsDescending, find-some}
use order_book_sketch.Dictionary.{Dictionary}
use order_book_sketch.Messages.{SimpleOrder, is_buy, prio_of}
use order_book_sketch.OrderBookType2.{
  Side, Book, side_of, set_side, cancel_order, process_cancel, process_order,
}
use order_book_sketch.OrderBookType2.Levels.{lookup-reduce_level}
use order_book_sketch.OrderBookType2.Ledger.{find_order, drop_order, count_at, level_at}
use order_book_sketch.OrderBookType2.Refine.{IsSide, prio_of-eq, rests_at-own, Represents}
use order_book_sketch.OrderBookType2.Feed.{cancel_order-eq, cancel_order-none}
use order_book_sketch.OrderBookType2.Modify.{IsModified, process_order-IsModified}

module _ (D : Dictionary SimpleOrder) where
  side_of-set_side : (buy : Bool) (s : Side) (b : Book D) → side_of D buy (set_side D buy s b) ≡ s
  side_of-set_side true s b = refl
  side_of-set_side false s b = refl

  side_of-orders :
      (buy : Bool) (b : Book D) (m : D.Map)
      → side_of D buy (record b { orders = m }) ≡ side_of D buy b
  side_of-orders true b m = refl
  side_of-orders false b m = refl

  pub orders-cancel_order :
      (o : SimpleOrder) (b : Book D) → (cancel_order D o b).0.orders ≡ b.orders
  unfolding cancel_order
  orders-cancel_order o b = ground arith

  -- `cancelOrder` leaves the other levels of its side alone.
  cancel_order-elsewhere :
      (w : SimpleOrder) (b : Book D) (buy : Bool) (q : ℤ)
      → is_buy w ≡ buy
      → IsDescending (side_of D buy b)
      → (w.price ==ℤ q) ≡ false
      → lookup (prio_of buy q) (side_of D buy (cancel_order D w b).0)
        ≡ lookup (prio_of buy q) (side_of D buy b)
  cancel_order-elsewhere w b buy q e sorted n =
      elim (Option-cases (FlatMap.find (prio_of buy w.price) (side_of D buy b))) [
        | inl gone ↦ rw (cancel_order-none D w b buy e gone)
        | inr (it, at) ↦
            let (l, there) = find-some (prio_of buy w.price) (side_of D buy b) it at in
            rw (cancel_order-eq D w b buy it e at) (
              rw side_of-set_side (
                lookup-reduce_level (prio_of buy w.price) (prio_of buy q) (side_of D buy b) sorted
                  it w.qty (pos 1) l at there
                ∙ rw (prio_of-eq buy w.price q, n)))
      ]

  process_cancel-eq :
      (x w : SimpleOrder) (b : Book D) (id : ℕ)
      → x.msg_type ≡ b'X'
      → x.order_id ≡ id
      → D.find id b.orders ≡ some w
      → (process_order D x b).0 ≡ (cancel_order D w (record b { orders = D.erase id b.orders })).0
  unfolding process_order
  process_cancel-eq x w b id m same e =
      let not_new : (x.msg_type == b'N') ≡ false = ground (arith, m) in
      let not_modify : (x.msg_type == b'M') ≡ false = ground (arith, m) in
      let cancel : (x.msg_type == b'X') ≡ true = ground (arith, m) in
      rw (not_new, not_modify, cancel) (rw same (rw (e, process_cancel)))

  price_apart : (a b : ℤ) → a ≢ b → (b ==ℤ a) ≡ false
  price_apart a b n = elim (Bool-cases (b ==ℤ a)) [
    | inl e ↦ absurd (n (sym (==ℤ→eq b a e)))
    | inr e ↦ e
  ]

  side_of-IsModified :
      (buy : Bool) {o : SimpleOrder} {os : List SimpleOrder} {b : Book D}
      → IsModified D o os b
      → IsSide buy (side_of D buy b) (o ∷ drop_order o.order_id os)
  side_of-IsModified true h = h.buys
  side_of-IsModified false h = h.sells

  -- A resting order is moved to another price of its side and then cancelled: its id is gone from
  -- the order map, but the level at the new price still holds it, as before the cancel.
  pub moved_order_stays :
      (o w x : SimpleOrder) (b : Book D) (os : List SimpleOrder)
      → Represents D b os
      → D.IsKey o.order_id
      → find_order o.order_id os ≡ some w
      → is_buy o ≡ is_buy w
      → pos 0 <ℤ o.qty
      → o.price ≢ w.price
      → o.msg_type ≡ b'M'
      → x.msg_type ≡ b'X'
      → x.order_id ≡ o.order_id
      → let b' = (process_order D x (process_order D o b).0).0 in
        (D.find o.order_id b'.orders ≡ none)
        × (lookup (prio_of (is_buy w) o.price) (side_of D (is_buy w) b')
            ≡ level_at (is_buy w) o.price (o ∷ drop_order o.order_id os))
        × (count_at (is_buy w) o.price (o ∷ drop_order o.order_id os) ≢ 0)
  unfolding count_at
  moved_order_stays o w x b os h key found same positive apart m c id =
      let r = process_order-IsModified D o w b os h key found same positive m in
      let b₁ = (process_order D o b).0 in
      let there : D.find o.order_id b₁.orders ≡ some w = r.finds o.order_id key ∙ found in
      let side = side_of-IsModified (is_buy w) r in
      rw (process_cancel-eq x w b₁ o.order_id c id there) (
        rw orders-cancel_order
            (D.find-erase o.order_id o.order_id b₁.orders w r.valid key key there ∙ ground arith),
        cancel_order-elsewhere w (record b₁ { orders = D.erase o.order_id b₁.orders }) (is_buy w)
              o.price refl (rw side_of-orders side.sorted) (price_apart o.price w.price apart)
            ∙ rw side_of-orders (side.levels o.price),
        rw (rests_at-own (is_buy w) o.price o same ∙ ==ℤ_refl o.price) (omega arith),
      )
