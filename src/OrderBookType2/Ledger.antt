-- ===== src/OrderBookType2/Ledger.antt =====
-- The specification of a book: the resting orders, newest first, and what they add up to.
use order_book_sketch.Common.{
  ℕ, Bool, true, false, not, ◌&&◌, ℤ, pos, ◌+ℤ◌, ◌==ℤ◌, ◌<ℤ◌, List, [], ◌∷◌, Option, none, some,
  if◌then◌else◌, ◌==◌, ◌+◌, ◌≡◌, ◌≢◌, arith, int_laws, +ℤ_parts, zero-+ℤ, refl, Bool-cases, inl,
  inr, ==→eq, pos_part, neg_part,
}
use order_book_sketch.Messages.{SimpleOrder, is_buy}
use order_book_sketch.OrderBookType2.{Level}

abbrev pub same_side : Bool → Bool → Bool
same_side true b = b
same_side false b = not b

-- the order rests on this side at this price
abbrev pub rests_at : Bool → ℤ → SimpleOrder → Bool
rests_at buy p o = same_side buy (is_buy o) && o.price ==ℤ p

-- the first resting order with the id
unfoldable pub find_order : ℕ → List SimpleOrder → Option SimpleOrder
find_order id [] = none
find_order id (o ∷ os) = if o.order_id == id then some o else find_order id os

unfoldable pub drop_order : ℕ → List SimpleOrder → List SimpleOrder
drop_order id [] = []
drop_order id (o ∷ os) = if o.order_id == id then os else o ∷ drop_order id os

unfoldable pub qty_at : Bool → ℤ → List SimpleOrder → ℤ
qty_at buy p [] = pos 0
qty_at buy p (o ∷ os) = (if rests_at buy p o then o.qty else pos 0) +ℤ qty_at buy p os

unfoldable pub count_at : Bool → ℤ → List SimpleOrder → ℕ
count_at buy p [] = 0
count_at buy p (o ∷ os) = (if rests_at buy p o then 1 else 0) + count_at buy p os

-- The level that the orders make up: none without an order.
abbrev pub level_of : ℤ → ℤ → ℕ → Option Level
level_of p qty count =
    if count == 0 then none else some (record { price = p; qty = qty; order_count = pos count })

unfoldable pub level_at : Bool → ℤ → List SimpleOrder → Option Level
level_at buy p os = level_of p (qty_at buy p os) (count_at buy p os)

-- every resting order has a positive quantity, and an id of its own
abbrev pub IsLedger : List SimpleOrder → Type 0
IsLedger [] = Unit
IsLedger (o ∷ os) = (pos 0 <ℤ o.qty) × (find_order o.order_id os ≡ none) × IsLedger os

pub find-drop_self :
    (id : ℕ) (os : List SimpleOrder) → IsLedger os → find_order id (drop_order id os) ≡ none
unfolding find_order drop_order
find-drop_self id [] h = refl
find-drop_self id (o ∷ os) h = ground (arith, find-drop_self id os h.2)

pub find-drop :
    (id q : ℕ) (os : List SimpleOrder)
    → IsLedger os
    → find_order q (drop_order id os) ≡ (if id == q then none else find_order q os)
unfolding find_order drop_order
find-drop id q [] h = ground arith
find-drop id q (o ∷ os) h = ground (arith, find-drop id q os h.2)

pub drop_absent : (id : ℕ) (os : List SimpleOrder) → find_order id os ≡ none → drop_order id os ≡ os
unfolding find_order drop_order
drop_absent id [] h = refl
drop_absent id (o ∷ os) h = elim (Bool-cases (o.order_id == id)) [
  | inl e ↦ absurd (ground (arith, e))
  | inr n ↦ rw n (rw (drop_absent id os (ground (arith, n))))
]

pub drop_order-IsLedger :
    (id : ℕ) (os : List SimpleOrder) → IsLedger os → IsLedger (drop_order id os)
unfolding drop_order
drop_order-IsLedger id [] h = tt
drop_order-IsLedger id (o ∷ os) h =
    ground (arith, drop_order-IsLedger id os h.2, find-drop id o.order_id os h.2)

-- Dropping a found order takes its quantity off its own level, and one off the count.
pub qty_at-drop :
    (buy : Bool) (p : ℤ) (id : ℕ) (os : List SimpleOrder) (o : SimpleOrder)
    → find_order id os ≡ some o
    → qty_at buy p os
      ≡ (if rests_at buy p o then o.qty else pos 0) +ℤ qty_at buy p (drop_order id os)
unfolding find_order drop_order qty_at
qty_at-drop buy p id [] o h = ground arith
qty_at-drop buy p id (x ∷ os) o h = elim (Bool-cases (x.order_id == id)) [
  | inl here ↦ rw here (ground (arith, h, here))
  | inr on ↦ rw on (grind (int_laws, qty_at-drop buy p id os o))
]

pub count_at-drop :
    (buy : Bool) (p : ℤ) (id : ℕ) (os : List SimpleOrder) (o : SimpleOrder)
    → find_order id os ≡ some o
    → count_at buy p os ≡ (if rests_at buy p o then 1 else 0) + count_at buy p (drop_order id os)
unfolding find_order drop_order count_at
count_at-drop buy p id [] o h = ground arith
count_at-drop buy p id (x ∷ os) o h = ground (arith, count_at-drop buy p id os o)

qty_at-empty :
    (buy : Bool) (p : ℤ) (os : List SimpleOrder) → count_at buy p os ≡ 0 → qty_at buy p os ≡ pos 0
unfolding qty_at count_at
qty_at-empty buy p [] c = refl
qty_at-empty buy p (o ∷ os) c = elim (Bool-cases (rests_at buy p o)) [
  | inl here ↦ absurd (ground (arith, here))
  | inr on ↦ rw on (rw (qty_at-empty buy p os (ground (arith, on))) (zero-+ℤ (pos 0)))
]

pub qty_at-zero :
    (buy : Bool) (p : ℤ) (os : List SimpleOrder)
    → count_at buy p os ≡ 0
    → (pos_part (qty_at buy p os) ≡ 0) × (neg_part (qty_at buy p os) ≡ 0)
qty_at-zero buy p os c = ground (arith, qty_at-empty buy p os c)

-- Quantities are positive, so a level with an order is not empty.
pub qty_at-pos :
    (buy : Bool) (p : ℤ) (os : List SimpleOrder)
    → IsLedger os
    → count_at buy p os ≢ 0
    → pos 0 <ℤ qty_at buy p os
unfolding qty_at count_at
qty_at-pos buy p [] h c = absurd (c refl)
qty_at-pos buy p (o ∷ os) h c = elim (Bool-cases (rests_at buy p o)) [
  | inl here ↦ elim (Bool-cases (count_at buy p os == 0)) [
    | inl e ↦
        rw here
          (omega (arith, +ℤ_parts o.qty (qty_at buy p os), qty_at-zero buy p os (==→eq _ _ e)))
    | inr n ↦ rw here (
        omega
          (arith, +ℤ_parts o.qty (qty_at buy p os), qty_at-pos buy p os h.2 (ground (arith, n))))
  ]
  | inr on ↦ rw on (
      omega
        (arith, +ℤ_parts (pos 0) (qty_at buy p os), qty_at-pos buy p os h.2 (ground (arith, on))))
]
