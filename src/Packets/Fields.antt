-- ===== src/Packets/Fields.antt =====
-- Numbers as bytes, the low byte first, and fields in a row.
use native.Mathlib.Nat.{pow-suc}
use order_book_sketch.Common.{
  ℕ, zero, suc, ℤ, pos, negsuc, pos_part, neg_part, List, [], ◌∷◌, length, ◌-◌, ◌*◌, ◌/◌, ◌%◌, ◌^◌,
  ◌<◌, ◌≤◌, ◌≡◌, refl, arith, ap,
}
use order_book_sketch.Packets.{load, int_of}

-- the `n` bytes that store a number
abbrev pub store : ℕ → ℕ → List ℕ
store zero v = []
store (suc n) v = v % 256 ∷ store n (v / 256)

pub load-store : (n v : ℕ) → v < 256 ^ n → load (store n v) ≡ v
unfolding load
load-store zero v h = omega arith
load-store (suc n) v h =
    let p : 256 ^ suc n ≡ 256 ^ n * 256 = pow-suc 256 n in
    omega (arith, load-store n (v / 256) (omega (arith, p, h)))

pub length-store : (n v : ℕ) → length (store n v) ≡ n
length-store zero v = refl
length-store (suc n) v = ap suc (length-store n (v / 256))

-- the bits of an `int32_t`
abbrev pub bits_of : ℤ → ℕ
bits_of (pos n) = n
bits_of (negsuc n) = 2 ^ 32 - suc n

abbrev pub IsInt32 : ℤ → Type 0
IsInt32 x = (pos_part x < 2 ^ 31) × (neg_part x ≤ 2 ^ 31)

pub bits_of-below : (x : ℤ) → IsInt32 x → bits_of x < 256 ^ 4
bits_of-below x h = ground arith

pub int_of-bits_of : (x : ℤ) → IsInt32 x → int_of (bits_of x) ≡ x
int_of-bits_of (pos n) h = ground arith
int_of-bits_of (negsuc n) h = ground arith
