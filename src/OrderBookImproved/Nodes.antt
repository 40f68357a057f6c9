-- ===== src/OrderBookImproved/Nodes.antt =====
-- The nodes of one multimap: what the operations do to the orders in it and to the iterators.
use order_book_sketch.Common.{
  ℕ, Bool, false, ℤ, List, [], ◌∷◌, Option, none, some, ◌==◌, if◌then◌else◌, ◌≡◌, ◌≢◌, ◌<◌, refl,
  map, arith, Bool-cases, inl, inr, ◌∙◌,
}
use order_book_sketch.Messages.{SimpleOrder}
use order_book_sketch.OrderBookImproved.{Node, before, node_at, erase_node, set_node_qty}
use order_book_sketch.OrderBookType2.Ledger.{find_order, drop_order}

abbrev pub orders_of : List Node → List SimpleOrder
orders_of ns = map (λ n. n.order) ns

-- the iterator of the first order with the id
unfoldable pub it_of : ℕ → List Node → Option ℕ
it_of id [] = none
it_of id (n ∷ ns) = if n.order.order_id == id then some n.it else it_of id ns

abbrev pub FreshIt : ℕ → List Node → Type 0
FreshIt i [] = Unit
FreshIt i (n ∷ ns) = (i ≢ n.it) × FreshIt i ns

-- iterators and ids are distinct
abbrev pub IsDistinct : List Node → Type 0
IsDistinct [] = Unit
IsDistinct (n ∷ ns) = FreshIt n.it ns × (it_of n.order.order_id ns ≡ none) × IsDistinct ns

abbrev pub IsBelow : ℕ → List Node → Type 0
IsBelow k [] = Unit
IsBelow k (n ∷ ns) = (n.it < k) × IsBelow k ns

-- every node stands under its order's price
abbrev pub IsKeyed : List Node → Type 0
IsKeyed [] = Unit
IsKeyed (n ∷ ns) = (n.key ≡ n.order.price) × IsKeyed ns

-- A new order goes behind the orders with a price at least as good.
unfoldable pub place : Bool → SimpleOrder → List SimpleOrder → List SimpleOrder
place buy o [] = o ∷ []
place buy o (p ∷ os) = if before buy o.price p.price then o ∷ p ∷ os else p ∷ place buy o os

unfoldable pub set_qty : ℕ → ℤ → List SimpleOrder → List SimpleOrder
set_qty id q [] = []
set_qty id q (o ∷ os) = if o.order_id == id then record o { qty = q } ∷ os else o ∷ set_qty id q os

pub FreshIt-IsBelow : (k : ℕ) (ns : List Node) → IsBelow k ns → FreshIt k ns
FreshIt-IsBelow k [] h = tt
FreshIt-IsBelow k (n ∷ ns) h = (omega arith, FreshIt-IsBelow k ns h.1)

it_of-FreshIt : (i id j : ℕ) (ns : List Node) → FreshIt i ns → it_of id ns ≡ some j → i ≢ j
unfolding it_of
it_of-FreshIt i id j [] h e = cc
it_of-FreshIt i id j (n ∷ ns) h e = ground (arith, it_of-FreshIt i id j ns h.1)

pub it_of-find_order-none :
    (id : ℕ) (ns : List Node) → it_of id ns ≡ none → find_order id (orders_of ns) ≡ none
unfolding it_of find_order
it_of-find_order-none id [] e = refl
it_of-find_order-none id (n ∷ ns) e = ground (arith, it_of-find_order-none id ns)

-- The node that the iterator leads to holds the order of the id.
pub node_at-it_of :
    (id i : ℕ) (ns : List Node)
    → IsDistinct ns
    → it_of id ns ≡ some i
    → (n : Node) × (node_at i ns ≡ some n) × (find_order id (orders_of ns) ≡ some n.order)
unfolding node_at it_of find_order
node_at-it_of id i [] h e = cc
node_at-it_of id i (n ∷ ns) h e = elim (Bool-cases (n.order.order_id == id)) [
  | inl y ↦ (n, ground (arith, y, e), rw y)
  | inr x ↦
      let e' : it_of id ns ≡ some i = ground (arith, x, e) in
      let (m, f, g) = node_at-it_of id i ns h.2 e' in
      (m, ground (arith, f, it_of-FreshIt n.it id i ns h.0 e'), rw x g)
]

-- At the node before the end of the search, the iterator and the id agree.
test-it_of :
    (id i : ℕ) (n : Node) (ns : List Node)
    → IsDistinct (n ∷ ns)
    → it_of id (n ∷ ns) ≡ some i
    → ((n.it == i) ≡ (n.order.order_id == id))
      × ((n.order.order_id == id) ≡ false → it_of id ns ≡ some i)
unfolding it_of
test-it_of id i n ns h e = elim (Bool-cases (n.order.order_id == id)) [
  | inl y ↦ (ground (arith, y, e), ground arith)
  | inr x ↦
      let e' : it_of id ns ≡ some i = ground (arith, x, e) in
      (ground (arith, x, it_of-FreshIt n.it id i ns h.0 e'), λ _. e')
]

-- `erase(it)` drops the order of the id, and the iterators of the others stay.
pub orders_of-erase_node :
    (id i : ℕ) (ns : List Node)
    → IsDistinct ns
    → it_of id ns ≡ some i
    → orders_of (erase_node i ns) ≡ drop_order id (orders_of ns)
unfolding erase_node drop_order
orders_of-erase_node id i [] h e = refl
orders_of-erase_node id i (n ∷ ns) h e =
    let t = test-it_of id i n ns h e in
    elim (Bool-cases (n.order.order_id == id)) [
      | inl y ↦ rw (t.0 ∙ y, y)
      | inr x ↦ rw (t.0 ∙ x, x) (rw (orders_of-erase_node id i ns h.2 (t.1 x)))
    ]

pub it_of-erase_node :
    (id i q : ℕ) (ns : List Node)
    → IsDistinct ns
    → it_of id ns ≡ some i
    → it_of q (erase_node i ns) ≡ (if id == q then none else it_of q ns)
unfolding erase_node it_of
it_of-erase_node id i q [] h e = ground arith
it_of-erase_node id i q (n ∷ ns) h e =
    let t = test-it_of id i n ns h e in
    elim (Bool-cases (n.order.order_id == id)) [
      | inl y ↦ rw (t.0 ∙ y) (ground (arith, y, h.1))
      | inr x ↦ rw (t.0 ∙ x) (ground (arith, x, it_of-erase_node id i q ns h.2 (t.1 x)))
    ]

FreshIt-erase_node : (j i : ℕ) (ns : List Node) → FreshIt j ns → FreshIt j (erase_node i ns)
unfolding erase_node
FreshIt-erase_node j i [] h = tt
FreshIt-erase_node j i (n ∷ ns) h = ground (arith, FreshIt-erase_node j i ns h.1)

it_of-erase_node-none :
    (q i : ℕ) (ns : List Node) → it_of q ns ≡ none → it_of q (erase_node i ns) ≡ none
unfolding erase_node it_of
it_of-erase_node-none q i [] e = refl
it_of-erase_node-none q i (n ∷ ns) e = elim (Bool-cases (n.it == i)) [
  | inl y ↦ rw y (ground (arith, e))
  | inr x ↦ rw x (ground (arith, e, it_of-erase_node-none q i ns))
]

pub erase_node-IsDistinct : (i : ℕ) (ns : List Node) → IsDistinct ns → IsDistinct (erase_node i ns)
unfolding erase_node
erase_node-IsDistinct i [] h = tt
erase_node-IsDistinct i (n ∷ ns) h = elim (Bool-cases (n.it == i)) [
  | inl y ↦ rw y h.2
  | inr x ↦ rw x (
    FreshIt-erase_node n.it i ns h.0,
    it_of-erase_node-none n.order.order_id i ns h.1,
    erase_node-IsDistinct i ns h.2,
  )
]

pub erase_node-IsBelow : (k i : ℕ) (ns : List Node) → IsBelow k ns → IsBelow k (erase_node i ns)
unfolding erase_node
erase_node-IsBelow k i [] h = tt
erase_node-IsBelow k i (n ∷ ns) h = ground (arith, erase_node-IsBelow k i ns h.1)

pub erase_node-IsKeyed : (i : ℕ) (ns : List Node) → IsKeyed ns → IsKeyed (erase_node i ns)
unfolding erase_node
erase_node-IsKeyed i [] h = tt
erase_node-IsKeyed i (n ∷ ns) h = elim (Bool-cases (n.it == i)) [
  | inl y ↦ rw y h.1
  | inr x ↦ rw x (h.0, erase_node-IsKeyed i ns h.1)
]

-- `order_qty(q)` through the iterator changes the quantity of the order of the id, and no place.
pub orders_of-set_node_qty :
    (id i : ℕ) (q : ℤ) (ns : List Node)
    → IsDistinct ns
    → it_of id ns ≡ some i
    → orders_of (set_node_qty i q ns) ≡ set_qty id q (orders_of ns)
unfolding set_node_qty set_qty
orders_of-set_node_qty id i q [] h e = refl
orders_of-set_node_qty id i q (n ∷ ns) h e =
    let t = test-it_of id i n ns h e in
    elim (Bool-cases (n.order.order_id == id)) [
      | inl y ↦ rw (t.0 ∙ y, y)
      | inr x ↦ rw (t.0 ∙ x, x) (rw (orders_of-set_node_qty id i q ns h.2 (t.1 x)))
    ]

pub it_of-set_node_qty :
    (id i : ℕ) (q : ℤ) (ns : List Node) → it_of id (set_node_qty i q ns) ≡ it_of id ns
unfolding set_node_qty it_of
it_of-set_node_qty id i q [] = refl
it_of-set_node_qty id i q (n ∷ ns) = elim (Bool-cases (n.it == i)) [
  | inl y ↦ rw y
  | inr x ↦ rw x (rw (it_of-set_node_qty id i q ns))
]

FreshIt-set_node_qty :
    (j i : ℕ) (q : ℤ) (ns : List Node) → FreshIt j ns → FreshIt j (set_node_qty i q ns)
unfolding set_node_qty
FreshIt-set_node_qty j i q [] h = tt
FreshIt-set_node_qty j i q (n ∷ ns) h = elim (Bool-cases (n.it == i)) [
  | inl y ↦ rw y h
  | inr x ↦ rw x (h.0, FreshIt-set_node_qty j i q ns h.1)
]

pub set_node_qty-IsDistinct :
    (i : ℕ) (q : ℤ) (ns : List Node) → IsDistinct ns → IsDistinct (set_node_qty i q ns)
unfolding set_node_qty
set_node_qty-IsDistinct i q [] h = tt
set_node_qty-IsDistinct i q (n ∷ ns) h = elim (Bool-cases (n.it == i)) [
  | inl y ↦ rw y h
  | inr x ↦ rw x (
    FreshIt-set_node_qty n.it i q ns h.0,
    it_of-set_node_qty n.order.order_id i q ns ∙ h.1,
    set_node_qty-IsDistinct i q ns h.2,
  )
]

pub set_node_qty-IsBelow :
    (k i : ℕ) (q : ℤ) (ns : List Node) → IsBelow k ns → IsBelow k (set_node_qty i q ns)
unfolding set_node_qty
set_node_qty-IsBelow k i q [] h = tt
set_node_qty-IsBelow k i q (n ∷ ns) h = elim (Bool-cases (n.it == i)) [
  | inl y ↦ rw y h
  | inr x ↦ rw x (h.0, set_node_qty-IsBelow k i q ns h.1)
]

pub set_node_qty-IsKeyed :
    (i : ℕ) (q : ℤ) (ns : List Node) → IsKeyed ns → IsKeyed (set_node_qty i q ns)
unfolding set_node_qty
set_node_qty-IsKeyed i q [] h = tt
set_node_qty-IsKeyed i q (n ∷ ns) h = elim (Bool-cases (n.it == i)) [
  | inl y ↦ rw y h
  | inr x ↦ rw x (h.0, set_node_qty-IsKeyed i q ns h.1)
]

pub it_of-none_of_find :
    (id : ℕ) (ns : List Node) → find_order id (orders_of ns) ≡ none → it_of id ns ≡ none
unfolding it_of find_order
it_of-none_of_find id [] e = refl
it_of-none_of_find id (n ∷ ns) e = ground (arith, it_of-none_of_find id ns)
