-- ===== src/OrderBookType2/Modify.antt =====
-- `modifyOrder`: the levels follow the modification, the order map does not.
use order_book_sketch.Common.{
  ℕ, Bool, true, false, ℤ, pos, ◌+ℤ◌, ◌-ℤ◌, ◌==ℤ◌, ◌<ℤ◌, List, ◌∷◌, some, ◌+◌, ◌≡◌, ◌==◌, ◌≢◌,
  arith, ◌∙◌, refl, sym, Bool-cases, inl, inr, ==ℤ→eq, +ℤ_parts, -ℤ_parts, eq_of_parts,
}
use order_book_sketch.FlatMap
use order_book_sketch.FlatMap.Laws.{insert-present}
use order_book_sketch.Dictionary.{Dictionary}
use order_book_sketch.Messages.{SimpleOrder, is_buy, prio_of}
use order_book_sketch.OrderBookType2.{
  empty_level, Side, reduce_level, grow_level, Book, modify_order, process_order,
}
use order_book_sketch.OrderBookType2.Levels.{
  reduced, lookup-reduce_level, reduce_level-IsDescending,
}
use order_book_sketch.OrderBookType2.Ledger.{
  find_order, drop_order, qty_at, count_at, level_of, level_at, IsLedger, qty_at-pos, qty_at-zero,
  drop_order-IsLedger,
}
use order_book_sketch.OrderBookType2.Refine.{
  IsSide, IsEmptyAt, grow-IsSide, reduce-IsSide, lookup-own, old_level, prio_of-eq, rests_at-own,
  level_at-cons_other, level_at-drop_other, IsSide-cons_other, IsSide-drop_other, Represents,
}

-- A level of `1 + c` orders with `y` in place of `x`.
level_of-swap :
    (p x y q : ℤ) (c : ℕ)
    → IsEmptyAt q c
    → (c ≢ 0 → pos 0 <ℤ q)
    → pos 0 <ℤ y
    → level_of p (y +ℤ q) (1 + c)
      ≡ reduced (x -ℤ y) (pos 0) (record { price = p; qty = x +ℤ q; order_count = pos (1 + c) })
level_of-swap p x y q c z n h = ground (
  arith,
  eq_of_parts (y +ℤ q) (x +ℤ q -ℤ (x -ℤ y)),
  eq_of_parts (pos (1 + c)) (pos (1 + c) -ℤ pos 0),
  +ℤ_parts x q,
  +ℤ_parts y q,
  -ℤ_parts x y,
  -ℤ_parts (x +ℤ q) (x -ℤ y),
  -ℤ_parts (pos (1 + c)) (pos 0),
)

module _ (buy : Bool) (s : Side) (o w : SimpleOrder) (os : List SimpleOrder) (id : ℕ)
    (same : is_buy w ≡ buy) (same' : is_buy o ≡ buy) (h : IsSide buy s os) (l : IsLedger os)
    (found : find_order id os ≡ some w) (positive : pos 0 <ℤ o.qty) where
  abbrev k : ℤ
  k = prio_of buy w.price

  present :
      (FlatMap.insert k empty_level s ≡ s) × (FlatMap.find k s ≡ some (FlatMap.insert_pos k s))
  present = insert-present k empty_level _ s h.sorted (lookup-own buy s w os same h id 0 l found)

  -- the level of the order at its old price, left by it and joined by the new one
  level-swap :
      (o.price ==ℤ w.price) ≡ true
      → level_at buy w.price (o ∷ drop_order id os)
        ≡ reduced (w.qty -ℤ o.qty) (pos 0) (old_level buy w.price w os id found)
  unfolding level_at qty_at count_at
  level-swap e = rw (rests_at-own buy w.price o same' ∙ e) (
      level_of-swap w.price w.qty o.qty (qty_at buy w.price (drop_order id os))
        (count_at buy w.price (drop_order id os)) (qty_at-zero buy w.price (drop_order id os))
        (qty_at-pos buy w.price (drop_order id os) (drop_order-IsLedger id os l)) positive)

  -- away from the common price
  level-apart :
      (p : ℤ)
      → (o.price ==ℤ w.price) ≡ true
      → (w.price ==ℤ p) ≡ false
      → level_at buy p (o ∷ drop_order id os) ≡ level_at buy p os
  level-apart p e n =
      level_at-cons_other buy p o (drop_order id os)
        (rests_at-own buy p o same' ∙ ground (arith, e, n))
      ∙ level_at-drop_other buy p w os id found (rests_at-own buy p w same ∙ n)

  pub move-IsSide :
      let side₁ =
        reduce_level (FlatMap.insert_pos k s) w.qty (pos 1) (FlatMap.insert k empty_level s) in
      let k' = prio_of buy o.price in
      IsSide buy
        (grow_level
          (FlatMap.insert_pos k' side₁)
          o.price
          o.qty
          (FlatMap.insert k' empty_level side₁))
        (o ∷ drop_order id os)
  move-IsSide = rw present.0 (
      grow-IsSide buy _ o (drop_order id os) same'
        (reduce-IsSide buy s w os same h id (FlatMap.insert_pos k s) l found present.1))

  pub change-IsSide :
      (o.price ==ℤ w.price) ≡ true
      → IsSide buy
          (reduce_level
            (FlatMap.insert_pos k s)
            (w.qty -ℤ o.qty)
            (pos 0)
            (FlatMap.insert k empty_level s))
          (o ∷ drop_order id os)
  change-IsSide e = rw present.0 (record {
    sorted = reduce_level-IsDescending _ _ _ s h.sorted;
    levels = λ p.
        lookup-reduce_level k (prio_of buy p) s h.sorted _ (w.qty -ℤ o.qty) (pos 0) _ present.1
          (lookup-own buy s w os same h id 0 l found)
        ∙ rw (prio_of-eq buy w.price p, h.levels p)
            (elim (Bool-cases (w.price ==ℤ p)) [
              | inl at ↦ rw at (rw (← ==ℤ→eq w.price p at) (sym (level-swap e)))
              | inr n ↦ rw n (sym (level-apart p e n))
            ]);
  })

  level-kept :
      (o.price ==ℤ w.price) ≡ true
      → (o.qty ==ℤ w.qty) ≡ true
      → level_at buy w.price (o ∷ drop_order id os) ≡ some (old_level buy w.price w os id found)
  unfolding level_at qty_at count_at
  level-kept e q =
      rw (rests_at-own buy w.price o same' ∙ e) (rw (==ℤ→eq o.qty w.qty q) (ground arith))

  pub keep-IsSide :
      (o.price ==ℤ w.price) ≡ true → (o.qty ==ℤ w.qty) ≡ true → IsSide buy s (o ∷ drop_order id os)
  keep-IsSide e q = record {
    sorted = h.sorted;
    levels = λ p. h.levels p ∙ elim (Bool-cases (w.price ==ℤ p)) [
      | inl at ↦ rw (← ==ℤ→eq w.price p at) (
          sym (h.levels w.price) ∙ lookup-own buy s w os same h id 0 l found ∙ sym (level-kept e q))
      | inr n ↦ sym (level-apart p e n)
    ];
  }

module _ (D : Dictionary SimpleOrder) where
  -- the levels and the order map after a modification of the resting order `w`
  pub record IsModified (o : SimpleOrder) (os : List SimpleOrder) (b' : Book D) : Type 0 where
    pub valid : D.IsValid b'.orders
    pub buys : IsSide true b'.buy (o ∷ drop_order o.order_id os)
    pub sells : IsSide false b'.sell (o ∷ drop_order o.order_id os)
    pub finds : (id : ℕ) → D.IsKey id → D.find id b'.orders ≡ find_order id os

  modify_buy :
      (o w : SimpleOrder) (b : Book D) (os : List SimpleOrder)
      → is_buy w ≡ true
      → is_buy o ≡ true
      → IsLedger os
      → IsSide true b.buy os
      → find_order o.order_id os ≡ some w
      → pos 0 <ℤ o.qty
      → IsSide true (modify_order D o w b).0.buy (o ∷ drop_order o.order_id os)
        × ((modify_order D o w b).0.sell ≡ b.sell)
  unfolding modify_order
  modify_buy o w b os e e' l h found positive = elim (Bool-cases (o.price ==ℤ w.price)) [
    | inl p ↦ rw p (elim (Bool-cases (o.qty ==ℤ w.qty)) [
      | inl q ↦ rw q (keep-IsSide true b.buy o w os o.order_id e e' h l found positive p q, refl)
      | inr q ↦
          rw (q, e) (change-IsSide true b.buy o w os o.order_id e e' h l found positive p, refl)
    ])
    | inr p ↦ rw (p, e, e') (move-IsSide true b.buy o w os o.order_id e e' h l found positive, refl)
  ]

  modify_sell :
      (o w : SimpleOrder) (b : Book D) (os : List SimpleOrder)
      → is_buy w ≡ false
      → is_buy o ≡ false
      → IsLedger os
      → IsSide false b.sell os
      → find_order o.order_id os ≡ some w
      → pos 0 <ℤ o.qty
      → IsSide false (modify_order D o w b).0.sell (o ∷ drop_order o.order_id os)
        × ((modify_order D o w b).0.buy ≡ b.buy)
  unfolding modify_order
  modify_sell o w b os e e' l h found positive = elim (Bool-cases (o.price ==ℤ w.price)) [
    | inl p ↦ rw p (elim (Bool-cases (o.qty ==ℤ w.qty)) [
      | inl q ↦ rw q (keep-IsSide false b.sell o w os o.order_id e e' h l found positive p q, refl)
      | inr q ↦
          rw (q, e) (change-IsSide false b.sell o w os o.order_id e e' h l found positive p, refl)
    ])
    | inr p ↦
        rw (p, e, e') (move-IsSide false b.sell o w os o.order_id e e' h l found positive, refl)
  ]

  orders-modify_order :
      (o w : SimpleOrder) (b : Book D) → (modify_order D o w b).0.orders ≡ b.orders
  unfolding modify_order
  orders-modify_order o w b = ground arith

  module _ (o w : SimpleOrder) (b : Book D) (os : List SimpleOrder) (h : Represents D b os)
      (key : D.IsKey o.order_id) (found : find_order o.order_id os ≡ some w)
      (same : is_buy o ≡ is_buy w) (positive : pos 0 <ℤ o.qty) where
    present-map : D.find o.order_id b.orders ≡ some w
    present-map = h.finds o.order_id key ∙ found

    abbrev b₁ : Book D
    b₁ = record b { orders = (D.emplace o.order_id o b.orders).0 }

    process_order-eq : o.msg_type ≡ b'M' → (process_order D o b).0 ≡ (modify_order D o w b₁).0
    unfolding process_order
    process_order-eq m =
        let r = D.emplace_old o.order_id o b.orders w h.valid key present-map in
        let not_new : (o.msg_type == b'N') ≡ false = ground (arith, m) in
        let modify : (o.msg_type == b'M') ≡ true = ground (arith, m) in
        rw (not_new, modify, r.1, r.0)

    emplaced : (id : ℕ) → D.IsKey id → D.find id (modify_order D o w b₁).0.orders ≡ find_order id os
    emplaced id k =
        rw orders-modify_order
          (D.find-emplace_old o.order_id id o b.orders w h.valid key k present-map ∙ h.finds id k)

    map-IsValid : D.IsValid (modify_order D o w b₁).0.orders
    map-IsValid = rw orders-modify_order (D.emplace-IsValid o.order_id o b.orders h.valid key)

    -- A modification of a resting order, on its side and to a positive quantity, puts the new price
    -- and quantity in place of the old ones: every level is the sum of the resting orders with the
    -- new order for the old one. But the order map still finds the old order under the id.
    pub process_order-IsModified : o.msg_type ≡ b'M' → IsModified o os (process_order D o b).0
    process_order-IsModified m = rw (process_order-eq m) (elim (Bool-cases (is_buy w)) [
      | inl e ↦
          let r = modify_buy o w b₁ os e (same ∙ e) h.ledger h.buys found positive in
          record {
            valid = map-IsValid;
            buys = r.0;
            sells = rw r.1 (
                IsSide-cons_other false b.sell o (drop_order o.order_id os) (same ∙ e)
                  (IsSide-drop_other false b.sell w os o.order_id e found h.sells));
            finds = emplaced;
          }
      | inr e ↦
          let r = modify_sell o w b₁ os e (same ∙ e) h.ledger h.sells found positive in
          record {
            valid = map-IsValid;
            buys = rw r.1 (
                IsSide-cons_other true b.buy o (drop_order o.order_id os) (same ∙ e)
                  (IsSide-drop_other true b.buy w os o.order_id e found h.buys));
            sells = r.0;
            finds = emplaced;
          }
    ])
