-- ===== src/OrderBookImproved/Shown/Keys.antt =====
-- The keys of a multimap's nodes: which there are, their order, and where `upper_bound` leads.
use order_book_sketch.Common.{
  Bool, true, false, ◌||◌, ℤ, ◌==ℤ◌, List, [], ◌∷◌, ◌≡◌, ◌≢◌, refl, arith, Bool-cases, inl, inr,
  ◌∙◌, All, ==ℤ→eq, ==ℤ_refl,
}
use order_book_sketch.OrderBookType2.{Level}
use order_book_sketch.OrderBookType2.Ledger.{rests_at, count_at}
use order_book_sketch.OrderBookType2.Refine.{rests_at-own}
use order_book_sketch.OrderBookImproved.{Node, before}
use order_book_sketch.OrderBookImproved.Nodes.{orders_of, IsKeyed}
use order_book_sketch.OrderBookImproved.Priority.{NoneBefore, IsPrior}
use order_book_sketch.OrderBookImproved.Shown.{upper_bound, count_orders, AreOn}

-- some node has the key
unfoldable pub has_key : ℤ → List Node → Bool
has_key p [] = false
has_key p (n ∷ ns) = n.key ==ℤ p || has_key p ns

-- some level has the price
unfoldable pub has_price : ℤ → List Level → Bool
has_price p [] = false
has_price p (l ∷ ls) = l.price ==ℤ p || has_price p ls

abbrev pub IsSorted : Bool → List Node → Type 0
IsSorted buy [] = Unit
IsSorted buy (n ∷ ns) = All (λ (m : Node). before buy m.key n.key ≡ false) ns × IsSorted buy ns

none_before :
    (buy : Bool) (p : ℤ) (ns : List Node)
    → IsKeyed ns
    → NoneBefore buy p (orders_of ns)
    → All (λ (m : Node). before buy m.key p ≡ false) ns
none_before buy p [] k h = tt
none_before buy p (n ∷ ns) k h = (rw k.0 h.0, none_before buy p ns k.1 h.1)

pub nodes-IsSorted :
    (buy : Bool) (ns : List Node) → IsKeyed ns → IsPrior buy (orders_of ns) → IsSorted buy ns
nodes-IsSorted buy [] k h = tt
nodes-IsSorted buy (n ∷ ns) k h =
    (rw k.0 (none_before buy n.order.price ns k.1 h.0), nodes-IsSorted buy ns k.1 h.1)

pub upper_bound-IsSorted :
    (buy : Bool) (k : ℤ) (ns : List Node) → IsSorted buy ns → IsSorted buy (upper_bound buy k ns)
unfolding upper_bound
upper_bound-IsSorted buy k [] h = tt
upper_bound-IsSorted buy k (n ∷ ns) h = elim (Bool-cases (before buy k n.key)) [
  | inl y ↦ rw y h
  | inr x ↦ rw x (upper_bound-IsSorted buy k ns h.1)
]

pub upper_bound-has_key :
    (buy : Bool) (k p : ℤ) (ns : List Node)
    → before buy k p ≡ true
    → has_key p ns ≡ true
    → has_key p (upper_bound buy k ns) ≡ true
unfolding upper_bound has_key
upper_bound-has_key buy k p [] b h = h
upper_bound-has_key buy k p (n ∷ ns) b h = elim (Bool-cases (before buy k n.key)) [
  | inl y ↦ rw y h
  | inr x ↦ elim (Bool-cases (n.key ==ℤ p)) [
    | inl e ↦ absurd (cc (b, x, ==ℤ→eq n.key p e))
    | inr n' ↦ rw x (upper_bound-has_key buy k p ns b (ground (arith, h, n')))
  ]
]

pub best_before :
    (buy : Bool) (k p : ℤ) → before buy p k ≡ false → (k ==ℤ p) ≡ false → before buy k p ≡ true
best_before true k p h n = ground arith
best_before false k p h n = ground arith

pub key_after :
    (buy : Bool) (k p : ℤ) (ns : List Node)
    → All (λ (m : Node). before buy m.key k ≡ false) ns
    → has_key p ns ≡ true
    → before buy p k ≡ false
unfolding has_key
key_after buy k p [] a h = cc
key_after buy k p (n ∷ ns) a h = elim (Bool-cases (n.key ==ℤ p)) [
  | inl e ↦ rw (← ==ℤ→eq n.key p e) a.0
  | inr x ↦ key_after buy k p ns a.1 (ground (arith, h, x))
]

-- an order at the price makes a node with the key
pub has_key-count_at :
    (buy : Bool) (p : ℤ) (ns : List Node)
    → IsKeyed ns
    → AreOn buy (orders_of ns)
    → count_at buy p (orders_of ns) ≢ 0
    → has_key p ns ≡ true
unfolding has_key count_at
has_key-count_at buy p [] k a c = absurd (c refl)
has_key-count_at buy p (n ∷ ns) k a c = elim (Bool-cases (n.key ==ℤ p)) [
  | inl e ↦ rw e
  | inr x ↦
      let other : rests_at buy p n.order ≡ false = rests_at-own buy p n.order a.0 ∙ rw (← k.0) x in
      rw x (has_key-count_at buy p ns k.1 a.1 (λ z. c (rw (other, z))))
]

HasKeys-cons :
    (n : Node) (all it : List Node)
    → All (λ (m : Node). has_key m.key all ≡ true) it
    → All (λ (m : Node). has_key m.key (n ∷ all) ≡ true) it
unfolding has_key
HasKeys-cons n all [] h = tt
HasKeys-cons n all (m ∷ it) h = (ground (arith, h.0), HasKeys-cons n all it h.1)

pub own_keys : (all : List Node) → All (λ (m : Node). has_key m.key all ≡ true) all
unfolding has_key
own_keys [] = tt
own_keys (n ∷ all) = (rw ==ℤ_refl refl, HasKeys-cons n all all (own_keys all))

pub upper_bound-HasKeys :
    (buy : Bool) (k : ℤ) (all it : List Node)
    → All (λ (m : Node). has_key m.key all ≡ true) it
    → All (λ (m : Node). has_key m.key all ≡ true) (upper_bound buy k it)
unfolding upper_bound
upper_bound-HasKeys buy k all [] h = tt
upper_bound-HasKeys buy k all (n ∷ it) h = elim (Bool-cases (before buy k n.key)) [
  | inl y ↦ rw y h
  | inr x ↦ rw x (upper_bound-HasKeys buy k all it h.1)
]

pub count_orders-has_key : (k : ℤ) (ns : List Node) → has_key k ns ≡ true → count_orders k ns ≢ 0
unfolding has_key count_orders
count_orders-has_key k [] h = cc
count_orders-has_key k (n ∷ ns) h = ground (arith, count_orders-has_key k ns)
