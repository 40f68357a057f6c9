-- ===== src/Tests/Orders.antt =====
-- The pool of orders.
use order_book_sketch.Common.{ℕ, ◌+◌, List, [], ◌∷◌, some, ◌≡◌, refl, arith}
use order_book_sketch.Dictionary.Assoc.{find}
use order_book_sketch.OrderPool.{
  BaseOrder, BaseOrderManager, put_order, get_order, init_order_pool, Reached,
}
use order_book_sketch.OrderPool.Buffers.{get_order-shared, put_order-twice}

-- a `new` that counts
abbrev new : List (ℕ × BaseOrder) → ℕ
new [] = 1
new (e ∷ m) = 1 + new m

get_order-shared_example :
    (start : BaseOrderManager) × (init_order_pool new 77 3 ≡ some start)
    × ((m : BaseOrderManager)
        → Reached new start m
        → (m' : BaseOrderManager) × (p : ℕ) × (o : BaseOrder) × (get_order new m ≡ some (m', p))
          × (find p m'.memory ≡ some o)
          × (o.buffer ≡ 77))
get_order-shared_example = get_order-shared new 77 3

-- a pool of one order, with another that has been given out
abbrev pool : BaseOrderManager
pool = record {
  memory = (1, record { next = 0; buffer = 77 }) ∷ (2, record { next = 1; buffer = 77 }) ∷ [];
  order_list = 1;
}

two_lives : find 2 pool.memory ≡ some (record { next = 1; buffer = 77 })
unfolding find
two_lives = refl

put_order-twice_example :
    (m1 : BaseOrderManager) × (m2 : BaseOrderManager) × (put_order 2 pool ≡ some m1)
    × (put_order 2 m1 ≡ some m2)
    × (get_order new m2 ≡ some (m2, 2))
put_order-twice_example =
    put_order-twice new 2 pool (omega arith) (record { next = 1; buffer = 77 }, two_lives)
