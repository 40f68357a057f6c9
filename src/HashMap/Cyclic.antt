-- ===== src/HashMap/Cyclic.antt =====
-- Positions in a ring of `n` buckets: the bits that the code masks are remainders.
use Prim.Native.Nat.{bit_and, bit_and-bitwise, digits, min}
use native.Mathlib.Nat.{
  div-add-mod, mod-lt, mod-eq_of_lt, mod-eq-sub-mod, mod_self, add-mul-mod_self_left, pow-suc,
  mul_assoc, mul_comm,
}
use order_book_sketch.Common.{
  ℕ, zero, suc, ◌==◌, leb, ◌+◌, ◌-◌, ◌*◌, ◌/◌, ◌%◌, ◌^◌, ◌<◌, ◌≤◌, if◌then◌else◌, ◌≡◌, ◌≢◌, arith,
  ◌∙◌, sym, ap,
}

pub pow_pos : (w : ℕ) → 0 < 2 ^ w
pow_pos zero = omega arith
pow_pos (suc w) = rw pow-suc (omega (arith, pow_pos w))

half_step : (i p : ℕ) → 0 < p → i / 2 % p * 2 + i % 2 ≡ i % (p * 2)
half_step i p pos =
    let q = i / 2 / p in
    let f : p * 2 * q ≡ 2 * (p * q) = ap (λ x. x * q) (mul_comm p 2) ∙ mul_assoc 2 p q in
    let whole : i ≡ i / 2 % p * 2 + i % 2 + p * 2 * q = omega (arith, div-add-mod (i / 2) p, f) in
    let small : i / 2 % p * 2 + i % 2 < p * 2 = omega (arith, mod-lt (i / 2) pos) in
    sym (
      ap (λ n. n % (p * 2)) whole
      ∙ (add-mul-mod_self_left (i / 2 % p * 2 + i % 2) (p * 2) q ∙ mod-eq_of_lt small))

half_mask : (w : ℕ) → (2 ^ suc w - 1) / 2 ≡ 2 ^ w - 1 × (2 ^ suc w - 1) % 2 ≡ 1
half_mask w =
    let double : 2 ^ suc w ≡ 2 ^ w * 2 = pow-suc 2 w in
    (omega (arith, double, pow_pos w), omega (arith, double, pow_pos w))

-- the digits that the native conjunction stands for, with `n` digits to go
masked_digits : (n w a : ℕ) → a ≤ n → digits (λ b. zero) min n a (2 ^ w - 1) ≡ a % 2 ^ w
masked_digits zero w zero h = sym (mod-eq_of_lt (pow_pos w))
masked_digits zero w (suc a) h = absurd (omega arith)
masked_digits (suc n) w zero h = sym (mod-eq_of_lt (pow_pos w))
masked_digits (suc n) zero (suc a) h = omega (arith, masked_digits n zero (suc a / 2) (omega arith))
masked_digits (suc n) (suc w) (suc a) h =
    let (half, odd) = half_mask w in
    let rest = masked_digits n w (suc a / 2) (omega arith) in
    rw half (
      omega (
        arith,
        rest,
        odd,
        half_step (suc a) (2 ^ w) (pow_pos w),
        ap (λ p. suc a % p) (pow-suc 2 w),
      ))

-- Masking by a power of two less one is the remainder.
pub bit_and-mask : (w a : ℕ) → bit_and a (2 ^ w - 1) ≡ a % 2 ^ w
bit_and-mask w a = bit_and-bitwise a (2 ^ w - 1) ∙ masked_digits a w a (omega arith)

abbrev pub next : ℕ → ℕ → ℕ
next n i = if suc i == n then 0 else suc i

-- how many buckets after `a` the bucket `b` comes
abbrev pub dist : ℕ → ℕ → ℕ → ℕ
dist n a b = if leb a b then b - a else b + n - a

pub mod-next : (n i : ℕ) → i < n → (i + 1) % n ≡ next n i
mod-next n i h = ground (arith, mod-eq_of_lt {n = i + 1} {m = n}, mod_self n)

pub mod-dist : (n a b : ℕ) → a < n → b < n → (n + a - b) % n ≡ dist n b a
mod-dist n a b ha hb = ground (
  arith,
  mod-eq_of_lt {n = n + a - b} {m = n},
  mod-eq-sub-mod {n = n + a - b} {m = n},
  mod-eq_of_lt {n = n + a - b - n} {m = n},
)

-- The difference of two positions as the code computes it with words, `_size + (a - b)`.
pub word_diff :
    (n a b : ℕ) → n ≤ 2 ^ 63 → a < n → b < n → (n + (a + 2 ^ 64 - b) % 2 ^ 64) % 2 ^ 64 ≡ n + a - b
word_diff n a b small ha hb = omega arith

pub dist-next :
    (n h i : ℕ) → h < n → i < n → suc (dist n h i) < n → dist n h (next n i) ≡ suc (dist n h i)
dist-next n h i hh hi lt = ground arith

pub dist-below : (n h i : ℕ) → h < n → i < n → dist n h i < n
dist-below n h i hh hi = ground arith

pub dist_same : (n h : ℕ) → dist n h h ≡ 0
dist_same n h = ground arith

pub dist-eq : (n h i j : ℕ) → h < n → i < n → j < n → dist n h i ≡ dist n h j → i ≡ j
dist-eq n h i j hh hi hj e = ground arith

pub next-below : (n i : ℕ) → i < n → next n i < n
next-below n i h = ground arith

pub dist_pos : (n a b : ℕ) → a < n → b < n → a ≢ b → 0 < dist n a b
dist_pos n a b ha hb ne = ground arith

pub dist-suc : (n i z : ℕ) → i < n → z < n → i ≢ z → suc (dist n (next n i) z) ≡ dist n i z
dist-suc n i z hi hz ne = ground arith

pub dist_one : (n i z : ℕ) → i < n → z < n → i ≢ z → dist n i (next n i) ≡ 1
dist_one n i z hi hz ne = ground arith

-- What comes between two places of a walk is on the walk.
pub dist_between :
    (n h b i x : ℕ)
    → h < n
    → b < n
    → i < n
    → x < n
    → dist n h b < dist n h x
    → dist n b i < dist n b x
    → dist n h i < dist n h x
dist_between n h b i x hh hb hi hx p q = ground arith
