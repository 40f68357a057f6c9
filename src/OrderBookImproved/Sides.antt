-- ===== src/OrderBookImproved/Sides.antt =====
-- One side of the book: the hash map leads each id to the node of its order, and every operation
-- keeps that and acts on the list of orders as the specification says.
use order_book_sketch.Common.{
  ℕ, suc, Bool, not, ℤ, ◌==ℤ◌, List, [], ◌∷◌, none, some, ◌==◌, if◌then◌else◌, ◌≡◌, refl, arith,
  Bool-cases, inl, inr, ◌∙◌, sym,
}
use order_book_sketch.Dictionary.Assoc
use order_book_sketch.Messages.{SimpleOrder}
use order_book_sketch.OrderBookType2.Ledger.{drop_order}
use order_book_sketch.OrderBookImproved.{
  Node, Half, done, duplicate_order, erase_node, set_node_qty, assign, insert_order, new_order,
  change_order, remove_order,
}
use order_book_sketch.OrderBookImproved.Nodes.{
  orders_of, it_of, IsDistinct, IsBelow, IsKeyed, place, set_qty, FreshIt-IsBelow,
  orders_of-erase_node, it_of-erase_node, erase_node-IsDistinct, erase_node-IsBelow,
  erase_node-IsKeyed, orders_of-set_node_qty, it_of-set_node_qty, set_node_qty-IsDistinct,
  set_node_qty-IsBelow, set_node_qty-IsKeyed,
}
use order_book_sketch.OrderBookImproved.Placing.{
  orders_of-emplace_node, it_of-emplace_node, emplace_node-IsDistinct, emplace_node-IsBelow,
  IsBelow-suc, emplace_node-IsKeyed,
}

pub record IsValid (h : Half) : Type 0 where
  pub finds : (id : ℕ) → Assoc.find id h.hash ≡ it_of id h.nodes
  pub distinct : IsDistinct h.nodes
  pub below : IsBelow h.next h.nodes
  pub keyed : IsKeyed h.nodes

-- The side is valid, and holds these orders in this order.
pub record Holds (h : Half) (os : List SimpleOrder) : Type 0 where
  pub valid : IsValid h
  pub orders : orders_of h.nodes ≡ os

find-assign :
    (k v q w : ℕ) (m : List (ℕ × ℕ))
    → Assoc.find k m ≡ some w
    → Assoc.find q (assign k v m) ≡ (if k == q then some v else Assoc.find q m)
unfolding Assoc.find assign
find-assign k v q w [] e = cc
find-assign k v q w ((j, u) ∷ m) e = ground (arith, find-assign k v q w m)

-- With the id of the order free, `insert_order` and an entry for it in the hash map keep the side.
insert-Holds :
    (buy : Bool) (o : SimpleOrder) (h : Half) (hash : List (ℕ × ℕ)) (os : List SimpleOrder)
    → IsDistinct h.nodes
    → IsBelow h.next h.nodes
    → IsKeyed h.nodes
    → orders_of h.nodes ≡ os
    → it_of o.order_id h.nodes ≡ none
    → ((q : ℕ) → Assoc.find q hash ≡ (if o.order_id == q then some h.next else it_of q h.nodes))
    → Holds (record (insert_order buy o h) { hash = hash }) (place buy o os)
unfolding insert_order
insert-Holds buy o h hash os d b k e free f =
    let n : Node = record { it = h.next; key = o.price; order = o } in
    record {
      valid = record {
        finds = λ q. f q ∙ sym (it_of-emplace_node buy n q h.nodes free);
        distinct = emplace_node-IsDistinct buy n h.nodes (FreshIt-IsBelow h.next h.nodes b) free d;
        below =
            emplace_node-IsBelow (suc h.next) buy n h.nodes (omega arith)
              (IsBelow-suc h.next h.nodes b);
        keyed = emplace_node-IsKeyed buy n h.nodes refl k;
      };
      orders = rw (← e) (orders_of-emplace_node buy n h.nodes refl k);
    }

module _ (buy : Bool) (o : SimpleOrder) (h : Half) (os : List SimpleOrder) (H : Holds h os) where
  pub new_order-Holds :
      it_of o.order_id h.nodes ≡ none
      → Holds (new_order buy o h).0 (place buy o os) × ((new_order buy o h).1 ≡ done)
  unfolding new_order
  new_order-Holds free =
      let v = H.valid in
      let e = Assoc.emplace_new o.order_id h.next h.hash (v.finds o.order_id ∙ free) in
      rw e (
        insert-Holds buy o h _ os v.distinct v.below v.keyed H.orders free
            (λ q. Assoc.find-cons o.order_id q h.next h.hash ∙ ground (arith, v.finds q)),
        refl,
      )

  -- A duplicate is refused by the hash map, which stays as it was, but the order is already in the
  -- multimap.
  pub new_order-duplicate :
      (i : ℕ)
      → it_of o.order_id h.nodes ≡ some i
      → ((new_order buy o h).1 ≡ duplicate_order)
        × ((new_order buy o h).0.hash ≡ h.hash)
        × (orders_of (new_order buy o h).0.nodes ≡ place buy o os)
  unfolding new_order
  new_order-duplicate i taken =
      let v = H.valid in
      let e = Assoc.emplace_old o.order_id h.next i h.hash (v.finds o.order_id ∙ taken) in
      rw e (refl, refl, rw (← H.orders) (orders_of-emplace_node buy _ h.nodes refl v.keyed))

  pub remove_order-Holds :
      (id i : ℕ) → it_of id h.nodes ≡ some i → Holds (remove_order id i h) (drop_order id os)
  unfolding remove_order
  remove_order-Holds id i at =
      let v = H.valid in
      record {
        valid = record {
          finds = λ q.
              Assoc.find-erase id q h.hash
              ∙ ground (arith, v.finds q, it_of-erase_node id i q h.nodes v.distinct at);
          distinct = erase_node-IsDistinct i h.nodes v.distinct;
          below = erase_node-IsBelow h.next i h.nodes v.below;
          keyed = erase_node-IsKeyed i h.nodes v.keyed;
        };
        orders = rw (← H.orders) (orders_of-erase_node id i h.nodes v.distinct at);
      }

  pub change_qty-Holds :
      (id i : ℕ) (q : ℤ)
      → it_of id h.nodes ≡ some i
      → Holds (record h { nodes = set_node_qty i q h.nodes }) (set_qty id q os)
  change_qty-Holds id i q at =
      let v = H.valid in
      record {
        valid = record {
          finds = λ r. v.finds r ∙ sym (it_of-set_node_qty r i q h.nodes);
          distinct = set_node_qty-IsDistinct i q h.nodes v.distinct;
          below = set_node_qty-IsBelow h.next i q h.nodes v.below;
          keyed = set_node_qty-IsKeyed i q h.nodes v.keyed;
        };
        orders = rw (← H.orders) (orders_of-set_node_qty id i q h.nodes v.distinct at);
      }

  -- a modification of the order that the hash map leads to
  pub change_order-Holds :
      (i : ℕ) (n : Node)
      → it_of o.order_id h.nodes ≡ some i
      → Holds (change_order buy o i n h) (
          if not (n.order.price ==ℤ o.price)
          then place buy o (drop_order o.order_id os)
          else set_qty o.order_id o.qty os)
  unfolding change_order
  change_order-Holds i n at =
      let v = H.valid in
      elim (Bool-cases (n.order.price ==ℤ o.price)) [
        | inl e ↦ rw e (change_qty-Holds o.order_id i o.qty at)
        | inr ne ↦ rw ne (
            insert-Holds buy o (record h { nodes = erase_node i h.nodes }) _
              (drop_order o.order_id os) (erase_node-IsDistinct i h.nodes v.distinct)
              (erase_node-IsBelow h.next i h.nodes v.below) (erase_node-IsKeyed i h.nodes v.keyed)
              (rw (← H.orders) (orders_of-erase_node o.order_id i h.nodes v.distinct at))
              (it_of-erase_node o.order_id i o.order_id h.nodes v.distinct at ∙ ground arith)
              (λ q.
                find-assign o.order_id h.next q i h.hash (v.finds o.order_id ∙ at)
                ∙ ground (arith, v.finds q, it_of-erase_node o.order_id i q h.nodes v.distinct at)))
      ]
