-- ===== src/OrderPool.antt =====
-- OrderManagementSystem/src/BaseOrderManager.cpp: the pool of orders, linked from `_orderList` on, with
-- the orders of OrderManagementSystem/include/NSEOrder.hpp. Of an order there is its link and its buffer,
-- a shared pointer. Memory is the orders by their addresses, the latest write first; an address is a
-- number, and 0 is the null pointer. What `new` returns is an argument. The result is `none` where the
-- code would follow a pointer to no order.
pub mod Buffers
use order_book_sketch.Common.{
  ℕ, zero, suc, List, [], ◌∷◌, Option, none, some, ◌==◌, ◌-◌, if◌then◌else◌, ◌≡◌,
}
use order_book_sketch.Dictionary.Assoc.{find}

-- `BaseOrder` with the buffer of `NSEOrder`
pub record BaseOrder : Type 0 where
  pub next : ℕ
  pub buffer : ℕ

pub record BaseOrderManager : Type 0 where
  pub memory : List (ℕ × BaseOrder)
  pub order_list : ℕ

-- `BaseOrderManager::putOrder`
unfoldable pub put_found : ℕ → BaseOrderManager → Option BaseOrder → Option BaseOrderManager
put_found p m none = none
put_found p m (some o) =
    some (record { memory = (p, record o { next = m.order_list }) ∷ m.memory; order_list = p })

unfoldable pub put_order : ℕ → BaseOrderManager → Option BaseOrderManager
put_order p m = put_found p m (find p m.memory)

module _ (new : List (ℕ × BaseOrder) → ℕ) where
  -- `NSEOrder::clone`, which copies every member
  abbrev pub clone : BaseOrder → BaseOrderManager → BaseOrderManager × ℕ
  clone o m = (record m { memory = (new m.memory, o) ∷ m.memory }, new m.memory)

  -- `NSEOrderManager::createOrder`, with the buffer that the constructor makes
  abbrev pub create_order : ℕ → BaseOrderManager → BaseOrderManager × ℕ
  create_order buffer m = (
    record m { memory = (new m.memory, record { next = 0; buffer = buffer }) ∷ m.memory },
    new m.memory,
  )

  -- `BaseOrderManager::getOrder`
  unfoldable pub get_found : BaseOrderManager → Option BaseOrder → Option (BaseOrderManager × ℕ)
  get_found m none = none
  get_found m (some o) =
      if o.next == 0
      then some (clone o m)
      else some (record m { order_list = o.next }, m.order_list)

  unfoldable pub get_order : BaseOrderManager → Option (BaseOrderManager × ℕ)
  get_order m = get_found m (find m.order_list m.memory)

  -- the loop of `initOrderPool`, with the order that is cloned
  unfoldable pub put_clone : BaseOrderManager → Option BaseOrder → Option BaseOrderManager
  put_clone m none = none
  put_clone m (some o) = let (m', p) = clone o m in put_order p m'

  unfoldable pub put_clones : ℕ → ℕ → BaseOrderManager → Option BaseOrderManager
  put_clones zero p m = some m
  put_clones (suc n) p m = elim (put_clone m (find p m.memory)) [
    | none ↦ none
    | some m' ↦ put_clones n p m'
  ]

  -- `initOrderPool` for the orders, from the constructor on; one order is there even for a size of 0.
  unfoldable pub init_order_pool : ℕ → ℕ → Option BaseOrderManager
  init_order_pool buffer size =
      let (m, p) = create_order buffer (record { memory = []; order_list = 0 }) in
      elim (put_order p m) [ none ↦ none | some m' ↦ put_clones (size - 1) p m' ]

  -- What the calls of the manager reach.
  pub data Reached (start : BaseOrderManager) : BaseOrderManager → Type 0 where
    at_start : Reached start start
    on_get :
        {m m' : BaseOrderManager} (p : ℕ)
        → Reached start m
        → get_order m ≡ some (m', p)
        → Reached start m'
    on_put :
        {m m' : BaseOrderManager} (p : ℕ)
        → Reached start m
        → put_order p m ≡ some m'
        → Reached start m'
