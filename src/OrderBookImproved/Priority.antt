-- ===== src/OrderBookImproved/Priority.antt =====
-- Price-time priority: a side stays in the order of its prices, and a new order goes behind those
-- with a price as good.
use order_book_sketch.Common.{
  ℕ, Bool, true, false, ℤ, ◌==ℤ◌, List, [], ◌∷◌, ◌++◌, none, ◌==◌, ◌≡◌, refl, arith, Bool-cases,
  Option-cases, inl, inr, ap, All,
}
use order_book_sketch.Messages.{SimpleOrder}
use order_book_sketch.OrderBookType2.Ledger.{find_order, drop_order}
use order_book_sketch.OrderBookImproved.{Half, before, process_half}
use order_book_sketch.OrderBookImproved.Nodes.{orders_of, place, set_qty}
use order_book_sketch.OrderBookImproved.Sides.{Holds}
use order_book_sketch.OrderBookImproved.Refine.{modified, after_order, process_half-Holds}

-- no order of the list has a better price than `p`
abbrev pub NoneBefore : Bool → ℤ → List SimpleOrder → Type 0
NoneBefore buy p [] = Unit
NoneBefore buy p (o ∷ os) = (before buy o.price p ≡ false) × NoneBefore buy p os

abbrev pub IsPrior : Bool → List SimpleOrder → Type 0
IsPrior buy [] = Unit
IsPrior buy (o ∷ os) = NoneBefore buy o.price os × IsPrior buy os

before_trans :
    (buy : Bool) (a b c : ℤ)
    → before buy a b ≡ true
    → before buy c b ≡ false
    → before buy c a ≡ false
before_trans true a b c h k = ground arith
before_trans false a b c h k = ground arith

before_asym : (buy : Bool) (a b : ℤ) → before buy a b ≡ true → before buy b a ≡ false
before_asym true a b h = ground arith
before_asym false a b h = ground arith

NoneBefore-trans :
    (buy : Bool) (a b : ℤ) (os : List SimpleOrder)
    → before buy a b ≡ true
    → NoneBefore buy b os
    → NoneBefore buy a os
NoneBefore-trans buy a b [] h n = tt
NoneBefore-trans buy a b (o ∷ os) h n =
    (before_trans buy a b o.price h n.0, NoneBefore-trans buy a b os h n.1)

NoneBefore-place :
    (buy : Bool) (p : ℤ) (o : SimpleOrder) (os : List SimpleOrder)
    → before buy o.price p ≡ false
    → NoneBefore buy p os
    → NoneBefore buy p (place buy o os)
unfolding place
NoneBefore-place buy p o [] h n = (h, tt)
NoneBefore-place buy p o (q ∷ os) h n = elim (Bool-cases (before buy o.price q.price)) [
  | inl y ↦ rw y (h, n)
  | inr x ↦ rw x (n.0, NoneBefore-place buy p o os h n.1)
]

place-IsPrior :
    (buy : Bool) (o : SimpleOrder) (os : List SimpleOrder)
    → IsPrior buy os
    → IsPrior buy (place buy o os)
unfolding place
place-IsPrior buy o [] h = (tt, tt)
place-IsPrior buy o (q ∷ os) h = elim (Bool-cases (before buy o.price q.price)) [
  | inl y ↦
      rw y ((before_asym buy o.price q.price y, NoneBefore-trans buy o.price q.price os y h.0), h)
  | inr x ↦ rw x (NoneBefore-place buy q.price o os x h.0, place-IsPrior buy o os h.1)
]

NoneBefore-drop :
    (buy : Bool) (p : ℤ) (id : ℕ) (os : List SimpleOrder)
    → NoneBefore buy p os
    → NoneBefore buy p (drop_order id os)
unfolding drop_order
NoneBefore-drop buy p id [] n = tt
NoneBefore-drop buy p id (o ∷ os) n = elim (Bool-cases (o.order_id == id)) [
  | inl y ↦ rw y n.1
  | inr x ↦ rw x (n.0, NoneBefore-drop buy p id os n.1)
]

drop-IsPrior :
    (buy : Bool) (id : ℕ) (os : List SimpleOrder) → IsPrior buy os → IsPrior buy (drop_order id os)
unfolding drop_order
drop-IsPrior buy id [] h = tt
drop-IsPrior buy id (o ∷ os) h = elim (Bool-cases (o.order_id == id)) [
  | inl y ↦ rw y h.1
  | inr x ↦ rw x (NoneBefore-drop buy o.price id os h.0, drop-IsPrior buy id os h.1)
]

NoneBefore-set_qty :
    (buy : Bool) (p : ℤ) (id : ℕ) (q : ℤ) (os : List SimpleOrder)
    → NoneBefore buy p os
    → NoneBefore buy p (set_qty id q os)
unfolding set_qty
NoneBefore-set_qty buy p id q [] n = tt
NoneBefore-set_qty buy p id q (o ∷ os) n = elim (Bool-cases (o.order_id == id)) [
  | inl y ↦ rw y n
  | inr x ↦ rw x (n.0, NoneBefore-set_qty buy p id q os n.1)
]

set_qty-IsPrior :
    (buy : Bool) (id : ℕ) (q : ℤ) (os : List SimpleOrder)
    → IsPrior buy os
    → IsPrior buy (set_qty id q os)
unfolding set_qty
set_qty-IsPrior buy id q [] h = tt
set_qty-IsPrior buy id q (o ∷ os) h = elim (Bool-cases (o.order_id == id)) [
  | inl y ↦ rw y h
  | inr x ↦ rw x (NoneBefore-set_qty buy o.price id q os h.0, set_qty-IsPrior buy id q os h.1)
]

modified-IsPrior :
    (buy : Bool) (o : SimpleOrder) (os : List SimpleOrder)
    → IsPrior buy os
    → IsPrior buy (modified buy o os)
unfolding modified
modified-IsPrior buy o os h = elim (Option-cases (find_order o.order_id os)) [
  | inl e ↦ rw (e, modified) (place-IsPrior buy (record o { msg_type = b'N' }) os h)
  | inr (w, e) ↦
      rw (e, modified)
        (elim (Bool-cases (w.price ==ℤ o.price)) [
          | inl y ↦ rw y (set_qty-IsPrior buy o.order_id o.qty os h)
          | inr x ↦
              rw x
                (place-IsPrior buy o (drop_order o.order_id os) (drop-IsPrior buy o.order_id os h))
        ])
]

after_order-IsPrior :
    (buy : Bool) (o : SimpleOrder) (os : List SimpleOrder)
    → IsPrior buy os
    → IsPrior buy (after_order buy o os)
unfolding after_order
after_order-IsPrior buy o os h = elim (Bool-cases (o.msg_type == b'N')) [
  | inl n ↦ rw n (place-IsPrior buy o os h)
  | inr n ↦ elim (Bool-cases (o.msg_type == b'M')) [
    | inl m ↦ rw (n, m) (modified-IsPrior buy o os h)
    | inr m ↦ elim (Bool-cases (o.msg_type == b'X')) [
      | inl x ↦ rw (n, m, x) (drop-IsPrior buy o.order_id os h)
      | inr x ↦ rw (n, m, x) h
    ]
  ]
]

-- A message leaves a valid side in price order, best price first.
pub process_half-IsPrior :
    (buy : Bool) (o : SimpleOrder) (h : Half) (os : List SimpleOrder)
    → Holds h os
    → (o.msg_type ≡ b'N' → find_order o.order_id os ≡ none)
    → IsPrior buy (orders_of h.nodes)
    → IsPrior buy (orders_of (process_half buy o h).0.nodes)
process_half-IsPrior buy o h os H fresh p =
    let r = process_half-Holds buy h os H o fresh in
    rw r.0.orders (after_order-IsPrior buy o os (rw H.orders at p))

before_through :
    (buy : Bool) (a b c : ℤ)
    → before buy a b ≡ true
    → before buy c b ≡ false
    → before buy a c ≡ true
before_through true a b c h k = ground arith
before_through false a b c h k = ground arith

NoneBefore-rest :
    (buy : Bool) (a b : ℤ) (os : List SimpleOrder)
    → before buy a b ≡ true
    → NoneBefore buy b os
    → All (λ (p : SimpleOrder). before buy a p.price ≡ true) os
NoneBefore-rest buy a b [] h n = tt
NoneBefore-rest buy a b (o ∷ os) h n =
    (before_through buy a b o.price h n.0, NoneBefore-rest buy a b os h n.1)

-- where a new order comes to stand
pub record IsSplit (buy : Bool) (o : SimpleOrder) (os after : List SimpleOrder) : Type 0 where
  pub front : List SimpleOrder
  pub back : List SimpleOrder
  pub old : os ≡ front ++ back
  pub new : after ≡ front ++ (o ∷ back)
  pub behind : All (λ (p : SimpleOrder). before buy o.price p.price ≡ false) front
  pub ahead : All (λ (p : SimpleOrder). before buy o.price p.price ≡ true) back

place-IsSplit :
    (buy : Bool) (o : SimpleOrder) (os : List SimpleOrder)
    → IsPrior buy os
    → IsSplit buy o os (place buy o os)
unfolding place
place-IsSplit buy o [] h = record {
  front = [];
  back = [];
  old = refl;
  new = refl;
  behind = tt;
  ahead = tt;
}
place-IsSplit buy o (q ∷ os) h = elim (Bool-cases (before buy o.price q.price)) [
  | inl y ↦ rw y record {
    front = [];
    back = q ∷ os;
    old = refl;
    new = refl;
    behind = tt;
    ahead = (y, NoneBefore-rest buy o.price q.price os y h.0);
  }
  | inr x ↦
      let s = place-IsSplit buy o os h.1 in
      rw x record {
        front = q ∷ s.front;
        back = s.back;
        old = ap (λ xs. q ∷ xs) s.old;
        new = ap (λ xs. q ∷ xs) s.new;
        behind = (x, s.behind);
        ahead = s.ahead;
      }
]

after_order-new :
    (buy : Bool) (o : SimpleOrder) (os : List SimpleOrder)
    → (o.msg_type == b'N') ≡ true
    → after_order buy o os ≡ place buy o os
unfolding after_order
after_order-new buy o os n = rw n refl

-- A new order whose id does not rest on a valid side in price order comes to stand behind every
-- order with a price as good or better and before every order with a worse price, and these keep
-- their order.
pub new_order-IsSplit :
    (buy : Bool) (o : SimpleOrder) (h : Half) (os : List SimpleOrder)
    → Holds h os
    → (o.msg_type == b'N') ≡ true
    → find_order o.order_id os ≡ none
    → IsPrior buy os
    → IsSplit buy o os (orders_of (process_half buy o h).0.nodes)
new_order-IsSplit buy o h os H n fresh p =
    let r = process_half-Holds buy h os H o (λ _. fresh) in
    rw (r.0.orders, after_order-new buy o os n) (place-IsSplit buy o os p)
