-- ===== src/Digits.antt =====
-- Common/include/Common.hpp: decimal digits of a fixed width. A character is its code.
pub mod Values
pub mod Unrolled
use order_book_sketch.Common.{
  ℕ, zero, suc, Bool, true, false, List, [], ◌∷◌, get_or, set, ◌+◌, ◌/◌, ◌%◌, ◌^◌, ◌==◌,
  if◌then◌else◌,
}

-- `fast_l2a`, `fast_i2a` and the template of it, whose loops are the same: from the last character of
-- the width to the first. `i` is a word of 64 or of 32 bits; it only gets smaller.
unfoldable pub fast_l2a : List ℕ → ℕ → ℕ → List ℕ
fast_l2a buf zero i = buf
fast_l2a buf (suc len) i =
    let zeros = fast_l2a (set buf len 48) len i in
    let digits = fast_l2a (set buf len (48 + i % 10)) len (i / 10) in
    if i == 0 then zeros else digits

-- `fast_i2a<3>` and `fast_i2a<2>`
unfoldable pub fast_i2a_3 : List ℕ → ℕ → List ℕ
fast_i2a_3 buf i =
    set (set (set buf 2 (48 + i % 10)) 1 (48 + i / 10 % 10)) 0 (48 + i / 10 / 10 % 10)

unfoldable pub fast_i2a_2 : List ℕ → ℕ → List ℕ
fast_i2a_2 buf i = set (set buf 1 (48 + i % 10)) 0 (48 + i / 10 % 10)

-- `computeFixCheckSum`, with characters below 128: the sum of the first `len`, in a word of 32 bits
unfoldable pub check_sum : List ℕ → ℕ → ℕ
check_sum buf zero = 0
check_sum buf (suc len) = (check_sum buf len + get_or buf len 0) % 2 ^ 32
