-- ===== src/Digits/Values.antt =====
-- The digits that are written read as the number, modulo the power of ten of their width.
use native.Mathlib.Nat.{
  div-add-mod, mod-lt, mod-eq_of_lt, add-mul-mod_self_left, pow-suc, mul_assoc, mul_comm, mod-one,
}
use order_book_sketch.Common.{
  ℕ, zero, suc, true, ◌&&◌, leb, if◌then◌else◌, Option, none, some, List, length, get_or, set, ◌+◌,
  ◌-◌, ◌*◌, ◌/◌, ◌%◌, ◌^◌, ◌<◌, ◌≤◌, ◌==◌, ◌≡◌, refl, arith, ◌∙◌, sym, ap, Bool-cases, inl, inr,
  ==→eq, get_or-set_self, get_or-set_ne, length-set,
}
use order_book_sketch.Digits.{fast_l2a}

-- what a digit is worth; `none` for any other character
unfoldable pub digit : ℕ → Option ℕ
digit c = if leb 48 c && leb c 57 then some (c - 48) else none

abbrev pub shifted : Option ℕ → Option ℕ → Option ℕ
shifted none d = none
shifted (some n) none = none
shifted (some n) (some d) = some (n * 10 + d)

-- the number that the first `len` characters write in decimal, if all of them are digits
unfoldable pub decimal : ℕ → List ℕ → Option ℕ
decimal zero buf = some 0
decimal (suc len) buf = shifted (decimal len buf) (digit (get_or buf len 0))

digit_of_mod : (i : ℕ) → digit (48 + i % 10) ≡ some (i % 10)
unfolding digit
digit_of_mod i =
    let low : leb 48 (48 + i % 10) ≡ true = ground arith in
    let high : leb (48 + i % 10) 57 ≡ true = ground arith in
    let worth : 48 + i % 10 - 48 ≡ i % 10 = omega arith in rw (low, high, worth) refl

-- Zeros are written the same way.
pub fast_suc :
    (buf : List ℕ) (len i : ℕ)
    → fast_l2a buf (suc len) i ≡ fast_l2a (set buf len (48 + i % 10)) len (i / 10)
unfolding fast_l2a
fast_suc buf len i = elim (Bool-cases (i == 0)) [
  | inl z ↦ rw (==→eq i 0 z) refl
  | inr n ↦ rw n refl
]

pub fast_l2a_above :
    (len : ℕ) (buf : List ℕ) (i j : ℕ) → len ≤ j → get_or (fast_l2a buf len i) j 0 ≡ get_or buf j 0
unfolding fast_l2a
fast_l2a_above zero buf i j h = refl
fast_l2a_above (suc len) buf i j h =
    ap (λ b. get_or b j 0) (fast_suc buf len i)
    ∙ (fast_l2a_above len (set buf len (48 + i % 10)) (i / 10) j (omega arith)
        ∙ get_or-set_ne buf len j (48 + i % 10) 0 (omega arith))

product : (p q m i : ℕ) → p * q + m ≡ i / 10 → i ≡ m * 10 + i % 10 + p * 10 * q
product p q m i e =
    let f : p * 10 * q ≡ 10 * (p * q) = ap (λ x. x * q) (mul_comm p 10) ∙ mul_assoc 10 p q in
    omega (arith, e, f)

mod_step : (i p : ℕ) → 0 < p → i / 10 % p * 10 + i % 10 ≡ i % (p * 10)
mod_step i p pos =
    let m = i / 10 % p in
    let whole : i ≡ m * 10 + i % 10 + p * 10 * (i / 10 / p) =
      product p (i / 10 / p) m i (div-add-mod (i / 10) p) in
    let small : m * 10 + i % 10 < p * 10 = omega (arith, mod-lt (i / 10) pos) in
    sym (
      ap (λ n. n % (p * 10)) whole
      ∙ (add-mul-mod_self_left (m * 10 + i % 10) (p * 10) (i / 10 / p) ∙ mod-eq_of_lt small))

pow_pos : (n : ℕ) → 0 < 10 ^ n
pow_pos zero = omega arith
pow_pos (suc n) = rw pow-suc (omega (arith, pow_pos n))

-- The characters that `fast_l2a` and `fast_i2a` write into a buffer with room for their width are all
-- digits and read in decimal as the number modulo the power of ten of the width.
pub decimal-fast_l2a :
    (len : ℕ) (buf : List ℕ) (i : ℕ)
    → len ≤ length buf
    → decimal len (fast_l2a buf len i) ≡ some (i % 10 ^ len)
unfolding decimal
decimal-fast_l2a zero buf i h = ap some (sym (mod-one i))
decimal-fast_l2a (suc len) buf i h =
    let buf' = set buf len (48 + i % 10) in
    let rest = decimal-fast_l2a len buf' (i / 10) (rw length-set (omega (arith, h))) in
    let last =
      fast_l2a_above len buf' (i / 10) len (omega arith)
      ∙ get_or-set_self buf len (48 + i % 10) 0 (omega (arith, h)) in
    ap (decimal (suc len)) (fast_suc buf len i)
    ∙ (rw (rest, last, digit_of_mod i) refl
        ∙ ap some (mod_step i (10 ^ len) (pow_pos len) ∙ ap (λ p. i % p) (sym (pow-suc 10 len))))

pub length-fast_l2a : (len : ℕ) (buf : List ℕ) (i : ℕ) → length (fast_l2a buf len i) ≡ length buf
unfolding fast_l2a
length-fast_l2a zero buf i = refl
length-fast_l2a (suc len) buf i =
    ap length (fast_suc buf len i)
    ∙ (length-fast_l2a len (set buf len (48 + i % 10)) (i / 10) ∙ length-set buf len (48 + i % 10))
