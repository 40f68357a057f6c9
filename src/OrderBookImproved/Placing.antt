-- ===== src/OrderBookImproved/Placing.antt =====
-- A node put into its multimap.
use order_book_sketch.Common.{
  ℕ, Bool, List, [], ◌∷◌, none, some, ◌==◌, if◌then◌else◌, ◌≡◌, ◌≢◌, ◌<◌, suc, refl, arith,
  Bool-cases, inl, inr, ◌∙◌, sym,
}
use order_book_sketch.OrderBookImproved.{Node, before, emplace_node}
use order_book_sketch.OrderBookImproved.Nodes.{
  orders_of, it_of, FreshIt, IsDistinct, IsBelow, IsKeyed, place,
}

-- `emplace` places the order by its price, and gives its id the new iterator.
pub orders_of-emplace_node :
    (buy : Bool) (n : Node) (ns : List Node)
    → n.key ≡ n.order.price
    → IsKeyed ns
    → orders_of (emplace_node buy n ns) ≡ place buy n.order (orders_of ns)
unfolding emplace_node place
orders_of-emplace_node buy n [] e h = refl
orders_of-emplace_node buy n (m ∷ ns) e h =
    rw (e, h.0)
      (elim (Bool-cases (before buy n.order.price m.order.price)) [
        | inl y ↦ rw y
        | inr x ↦ rw x (rw (orders_of-emplace_node buy n ns e h.1))
      ])

pub it_of-emplace_node :
    (buy : Bool) (n : Node) (q : ℕ) (ns : List Node)
    → it_of n.order.order_id ns ≡ none
    → it_of q (emplace_node buy n ns) ≡ (if n.order.order_id == q then some n.it else it_of q ns)
unfolding emplace_node it_of
it_of-emplace_node buy n q [] e = refl
it_of-emplace_node buy n q (m ∷ ns) e = elim (Bool-cases (before buy n.key m.key)) [
  | inl y ↦ rw y
  | inr x ↦ rw x (ground (arith, e, it_of-emplace_node buy n q ns))
]

FreshIt-emplace_node :
    (j : ℕ) (buy : Bool) (n : Node) (ns : List Node)
    → j ≢ n.it
    → FreshIt j ns
    → FreshIt j (emplace_node buy n ns)
unfolding emplace_node
FreshIt-emplace_node j buy n [] ne h = (ne, tt)
FreshIt-emplace_node j buy n (m ∷ ns) ne h = elim (Bool-cases (before buy n.key m.key)) [
  | inl y ↦ rw y (ne, h)
  | inr x ↦ rw x (h.0, FreshIt-emplace_node j buy n ns ne h.1)
]

pub emplace_node-IsDistinct :
    (buy : Bool) (n : Node) (ns : List Node)
    → FreshIt n.it ns
    → it_of n.order.order_id ns ≡ none
    → IsDistinct ns
    → IsDistinct (emplace_node buy n ns)
unfolding emplace_node it_of
emplace_node-IsDistinct buy n [] f e h = (tt, refl, tt)
emplace_node-IsDistinct buy n (m ∷ ns) f e h = elim (Bool-cases (before buy n.key m.key)) [
  | inl y ↦ rw y (f, e, h)
  | inr x ↦
      let e' : it_of n.order.order_id ns ≡ none = ground (arith, e) in
      rw x (
        FreshIt-emplace_node m.it buy n ns (λ s. f.0 (sym s)) h.0,
        it_of-emplace_node buy n m.order.order_id ns e' ∙ ground (arith, e, h.1),
        emplace_node-IsDistinct buy n ns f.1 e' h.2,
      )
]

pub emplace_node-IsBelow :
    (k : ℕ) (buy : Bool) (n : Node) (ns : List Node)
    → n.it < k
    → IsBelow k ns
    → IsBelow k (emplace_node buy n ns)
unfolding emplace_node
emplace_node-IsBelow k buy n [] l h = (l, tt)
emplace_node-IsBelow k buy n (m ∷ ns) l h = elim (Bool-cases (before buy n.key m.key)) [
  | inl y ↦ rw y (l, h)
  | inr x ↦ rw x (h.0, emplace_node-IsBelow k buy n ns l h.1)
]

pub IsBelow-suc : (k : ℕ) (ns : List Node) → IsBelow k ns → IsBelow (suc k) ns
IsBelow-suc k [] h = tt
IsBelow-suc k (n ∷ ns) h = (omega arith, IsBelow-suc k ns h.1)

pub emplace_node-IsKeyed :
    (buy : Bool) (n : Node) (ns : List Node)
    → n.key ≡ n.order.price
    → IsKeyed ns
    → IsKeyed (emplace_node buy n ns)
unfolding emplace_node
emplace_node-IsKeyed buy n [] e h = (e, tt)
emplace_node-IsKeyed buy n (m ∷ ns) e h = elim (Bool-cases (before buy n.key m.key)) [
  | inl y ↦ rw y (e, h)
  | inr x ↦ rw x (h.0, emplace_node-IsKeyed buy n ns e h.1)
]
