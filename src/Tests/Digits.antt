-- ===== src/Tests/Digits.antt =====
-- Digits.
use order_book_sketch.Common.{[], ◌∷◌, replicate, ◌%◌, ◌^◌, some, ◌≡◌, refl, arith}
use order_book_sketch.Digits.{fast_l2a, check_sum, fast_i2a_2, fast_i2a_3}
use order_book_sketch.Digits.Values.{decimal, decimal-fast_l2a}
use order_book_sketch.Digits.Unrolled.{fast_i2a-fast_l2a}

-- "0042"
writes_42 : fast_l2a (replicate 4 0) 4 42 ≡ 48 ∷ 48 ∷ 52 ∷ 50 ∷ []
unfolding fast_l2a
writes_42 = refl

decimal-fast_l2a_example : decimal 4 (fast_l2a (replicate 4 0) 4 42) ≡ some (42 % 10 ^ 4)
decimal-fast_l2a_example = decimal-fast_l2a 4 (replicate 4 0) 42 (omega arith)

sums : check_sum (65 ∷ 66 ∷ 67 ∷ []) 3 ≡ 198
unfolding check_sum
sums = refl

fast_i2a-fast_l2a_example :
    (fast_i2a_2 (replicate 3 0) 407 ≡ fast_l2a (replicate 3 0) 2 407)
    × (fast_i2a_3 (replicate 3 0) 407 ≡ fast_l2a (replicate 3 0) 3 407)
fast_i2a-fast_l2a_example = fast_i2a-fast_l2a (replicate 3 0) 407
