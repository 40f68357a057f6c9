-- ===== src/OrderBookType2/Refine.antt =====
-- A book that is driven by new orders and cancels holds, on every level, what its resting orders
-- add up to.
use mathlib.Core.Option
use order_book_sketch.Common.{
  ℕ, Bool, true, false, ℤ, pos, neg_ℤ_parts, ◌+ℤ◌, ◌-ℤ◌, ◌==ℤ◌, ◌<ℤ◌, List, ◌∷◌, some, ◌≡◌, arith,
  Bool-cases, inl, inr, ◌∙◌, refl, pos_part, neg_part, ◌+◌, +ℤ_parts, -ℤ_parts, eq_of_parts,
  zero-+ℤ, ◌≢◌, ==ℤ→eq, ==ℤ_refl, sym, not,
}
use order_book_sketch.FlatMap
use order_book_sketch.FlatMap.Laws.{lookup, IsDescending}
use order_book_sketch.Dictionary.{Dictionary}
use order_book_sketch.Messages.{SimpleOrder, is_buy, prio_of}
use order_book_sketch.OrderBookType2.{
  Level, empty_level, Side, grown, reduce_level, grow_level, Book,
}
use order_book_sketch.OrderBookType2.Levels.{
  reduced, lookup-grow_level, lookup-reduce_level, grow_level-IsDescending,
  reduce_level-IsDescending,
}
use order_book_sketch.OrderBookType2.Ledger.{
  rests_at, find_order, drop_order, qty_at, count_at, level_of, level_at, IsLedger,
  drop_order-IsLedger, qty_at-drop, count_at-drop, qty_at-pos, qty_at-zero,
}

-- one side of a book against the resting orders
pub record IsSide (buy : Bool) (s : Side) (os : List SimpleOrder) : Type 0 where
  pub sorted : IsDescending s
  pub levels : (p : ℤ) → lookup (prio_of buy p) s ≡ level_at buy p os

abbrev pub IsEmptyAt : ℤ → ℕ → Type 0
IsEmptyAt q c = c ≡ 0 → (pos_part q ≡ 0) × (neg_part q ≡ 0)

level_of-add :
    (p x q : ℤ) (c : ℕ)
    → IsEmptyAt q c
    → level_of p (x +ℤ q) (1 + c) ≡ some (grown p x (Option.get_or (level_of p q c) empty_level))
level_of-add p x q c z = ground (
  arith,
  eq_of_parts (x +ℤ q) (pos 0 +ℤ x),
  eq_of_parts (x +ℤ q) (q +ℤ x),
  eq_of_parts (pos (1 + c)) (pos 0 +ℤ pos 1),
  eq_of_parts (pos (1 + c)) (pos c +ℤ pos 1),
  +ℤ_parts x q,
  +ℤ_parts q x,
  +ℤ_parts (pos 0) x,
  +ℤ_parts (pos 0) (pos 1),
  +ℤ_parts (pos c) (pos 1),
)

level_of-sub :
    (p x q : ℤ) (c : ℕ)
    → IsEmptyAt q c
    → (c ≢ 0 → pos 0 <ℤ q)
    → level_of p q c
      ≡ reduced x (pos 1) (record { price = p; qty = x +ℤ q; order_count = pos (1 + c) })
level_of-sub p x q c z n = ground (
  arith,
  eq_of_parts q (x +ℤ q -ℤ x),
  eq_of_parts (pos c) (pos (1 + c) -ℤ pos 1),
  +ℤ_parts x q,
  -ℤ_parts (x +ℤ q) x,
  -ℤ_parts (pos (1 + c)) (pos 1),
)

module _ (buy : Bool) (p : ℤ) (o : SimpleOrder) (os : List SimpleOrder) where
  pub level_at-cons_other : rests_at buy p o ≡ false → level_at buy p (o ∷ os) ≡ level_at buy p os
  unfolding level_at qty_at count_at
  level_at-cons_other h = rw h (rw zero-+ℤ (ground arith))

  level_at-cons :
      rests_at buy p o ≡ true
      → level_at buy p (o ∷ os)
        ≡ some (grown o.price o.qty (Option.get_or (level_at buy p os) empty_level))
  unfolding level_at qty_at count_at
  level_at-cons h =
      let price : o.price ≡ p = ==ℤ→eq o.price p (ground (arith, h)) in
      rw h (
        rw price
          (level_of-add p o.qty (qty_at buy p os) (count_at buy p os) (qty_at-zero buy p os)))

  module _ (id : ℕ) (found : find_order id os ≡ some o) where
    -- `drop_order` of the order that is found leaves the other levels alone.
    pub level_at-drop_other :
        rests_at buy p o ≡ false → level_at buy p (drop_order id os) ≡ level_at buy p os
    unfolding level_at
    level_at-drop_other h =
        rw (qty_at-drop buy p id os o found, count_at-drop buy p id os o found, h, zero-+ℤ)
          (ground arith)

    -- the level of the dropped order
    abbrev pub old_level : Level
    old_level = record {
      price = p;
      qty = o.qty +ℤ qty_at buy p (drop_order id os);
      order_count = pos (1 + count_at buy p (drop_order id os));
    }

    level_at-found : rests_at buy p o ≡ true → level_at buy p os ≡ some old_level
    unfolding level_at
    level_at-found h =
        rw (qty_at-drop buy p id os o found, count_at-drop buy p id os o found, h) (ground arith)

    level_at-drop :
        IsLedger os → level_at buy p (drop_order id os) ≡ reduced o.qty (pos 1) old_level
    unfolding level_at
    level_at-drop l =
        level_of-sub p o.qty _ _ (qty_at-zero buy p (drop_order id os))
          (qty_at-pos buy p (drop_order id os) (drop_order-IsLedger id os l))

-- Two orders or prices of one side have the same priority exactly at the same price.
pub prio_of-eq : (buy : Bool) (a b : ℤ) → (prio_of buy a ==ℤ prio_of buy b) ≡ (a ==ℤ b)
prio_of-eq true a b = ground (arith, neg_ℤ_parts a, neg_ℤ_parts b)
prio_of-eq false a b = refl

pub rests_at-own :
    (buy : Bool) (p : ℤ) (o : SimpleOrder) → is_buy o ≡ buy → rests_at buy p o ≡ (o.price ==ℤ p)
rests_at-own true p o e = ground (arith, e)
rests_at-own false p o e = ground (arith, e)

pub rests_at-other :
    (buy : Bool) (p : ℤ) (o : SimpleOrder) → is_buy o ≡ not buy → rests_at buy p o ≡ false
rests_at-other true p o e = ground (arith, e)
rests_at-other false p o e = ground (arith, e)

module _ (buy : Bool) (s : Side) (o : SimpleOrder) (os : List SimpleOrder) (same : is_buy o ≡ buy)
    (h : IsSide buy s os) where
  -- `addNewOrder` adds the order to its side.
  pub grow-IsSide :
      let k = prio_of buy o.price in
      IsSide buy
        (grow_level (FlatMap.insert_pos k s) o.price o.qty (FlatMap.insert k empty_level s))
        (o ∷ os)
  grow-IsSide = record {
    sorted = grow_level-IsDescending _ s _ o.price o.qty h.sorted;
    levels = λ p.
        lookup-grow_level _ (prio_of buy p) s h.sorted o.price o.qty
        ∙ rw (prio_of-eq buy o.price p, h.levels o.price, h.levels p)
            (elim (Bool-cases (o.price ==ℤ p)) [
              | inl e ↦ rw e (
                  rw (← ==ℤ→eq o.price p e) (
                    sym (
                      level_at-cons buy o.price o os
                        (rests_at-own buy o.price o same ∙ ==ℤ_refl o.price))))
              | inr n ↦ rw n (sym (level_at-cons_other buy p o os (rests_at-own buy p o same ∙ n)))
            ]);
  }

  -- `cancelOrder` takes the order off its side.
  module _ (id it : ℕ) (l : IsLedger os) (found : find_order id os ≡ some o) where
    pub lookup-own : lookup (prio_of buy o.price) s ≡ some (old_level buy o.price o os id found)
    lookup-own =
        h.levels o.price
        ∙ level_at-found buy o.price o os id found
            (rests_at-own buy o.price o same ∙ ==ℤ_refl o.price)

    pub reduce-IsSide :
        FlatMap.find (prio_of buy o.price) s ≡ some it
        → IsSide buy (reduce_level it o.qty (pos 1) s) (drop_order id os)
    reduce-IsSide at = record {
      sorted = reduce_level-IsDescending it o.qty (pos 1) s h.sorted;
      levels = λ p.
          lookup-reduce_level _ (prio_of buy p) s h.sorted it o.qty (pos 1) _ at lookup-own
          ∙ rw (prio_of-eq buy o.price p, h.levels p)
              (elim (Bool-cases (o.price ==ℤ p)) [
                | inl e ↦
                    rw e
                      (rw (← ==ℤ→eq o.price p e) (sym (level_at-drop buy o.price o os id found l)))
                | inr n ↦
                    rw n (
                      sym (level_at-drop_other buy p o os id found (rests_at-own buy p o same ∙ n)))
              ]);
    }

-- An order of the other side changes nothing.
pub IsSide-cons_other :
    (buy : Bool) (s : Side) (o : SimpleOrder) (os : List SimpleOrder)
    → is_buy o ≡ not buy
    → IsSide buy s os
    → IsSide buy s (o ∷ os)
IsSide-cons_other buy s o os ne h = record {
  sorted = h.sorted;
  levels = λ p. h.levels p ∙ sym (level_at-cons_other buy p o os (rests_at-other buy p o ne));
}

pub IsSide-drop_other :
    (buy : Bool) (s : Side) (o : SimpleOrder) (os : List SimpleOrder) (id : ℕ)
    → is_buy o ≡ not buy
    → find_order id os ≡ some o
    → IsSide buy s os
    → IsSide buy s (drop_order id os)
IsSide-drop_other buy s o os id ne found h = record {
  sorted = h.sorted;
  levels =
      λ p. h.levels p ∙ sym (level_at-drop_other buy p o os id found (rests_at-other buy p o ne));
}

module _ (D : Dictionary SimpleOrder) where
  -- A book against its resting orders: the dictionary finds them, and the levels are their sums.
  pub record Represents (b : Book D) (os : List SimpleOrder) : Type 0 where
    pub valid : D.IsValid b.orders
    pub ledger : IsLedger os
    pub finds : (id : ℕ) → D.IsKey id → D.find id b.orders ≡ find_order id os
    pub buys : IsSide true b.buy os
    pub sells : IsSide false b.sell os
