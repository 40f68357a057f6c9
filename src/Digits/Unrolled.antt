-- ===== src/Digits/Unrolled.antt =====
-- The unrolled templates of `fast_i2a`.
use order_book_sketch.Common.{ℕ, List, set, ◌+◌, ◌/◌, ◌%◌, ◌≡◌, sym, ◌∙◌}
use order_book_sketch.Digits.{fast_l2a, fast_i2a_3, fast_i2a_2}
use order_book_sketch.Digits.Values.{fast_suc}

-- `fast_i2a<2>` and `fast_i2a<3>` leave in any buffer what the loop leaves there for two and three
-- characters.
pub fast_i2a-fast_l2a :
    (buf : List ℕ) (i : ℕ)
    → (fast_i2a_2 buf i ≡ fast_l2a buf 2 i) × (fast_i2a_3 buf i ≡ fast_l2a buf 3 i)
unfolding fast_l2a fast_i2a_2 fast_i2a_3
fast_i2a-fast_l2a buf i =
    let d0 = set buf 1 (48 + i % 10) in
    let e0 = set buf 2 (48 + i % 10) in
    let e1 = set e0 1 (48 + i / 10 % 10) in
    (
      sym (fast_suc buf 1 i ∙ fast_suc d0 0 (i / 10)),
      sym (fast_suc buf 2 i ∙ (fast_suc e0 1 (i / 10) ∙ fast_suc e1 0 (i / 10 / 10))),
    )
