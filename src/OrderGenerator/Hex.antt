-- ===== src/OrderGenerator/Hex.antt =====
-- Bytes that are written as hexadecimal digits are read again.
use order_book_sketch.Common.{
  ℕ, zero, suc, false, List, [], ◌∷◌, some, ◌==◌, ◌+◌, ◌*◌, ◌/◌, ◌%◌, ◌<◌, length, get_or, ◌≡◌,
  refl, arith, All,
}
use order_book_sketch.OrderGenerator.{hex_digits, digit_of, push_back, hex_from, hex_to_string}

-- the two digits of each byte
abbrev pub hex_of : List ℕ → List ℕ
hex_of [] = []
hex_of (b ∷ bs) = get_or hex_digits (b / 16) 0 ∷ get_or hex_digits (b % 16) 0 ∷ hex_of bs

digit_of-digit : (i : ℕ) → i < 16 → digit_of (get_or hex_digits i 0) ≡ some i
unfolding digit_of
digit_of-digit zero lt = refl
digit_of-digit (suc zero) lt = refl
digit_of-digit (suc (suc zero)) lt = refl
digit_of-digit (suc (suc (suc zero))) lt = refl
digit_of-digit (suc (suc (suc (suc zero)))) lt = refl
digit_of-digit (suc (suc (suc (suc (suc zero))))) lt = refl
digit_of-digit (suc (suc (suc (suc (suc (suc zero)))))) lt = refl
digit_of-digit (suc (suc (suc (suc (suc (suc (suc zero))))))) lt = refl
digit_of-digit (suc (suc (suc (suc (suc (suc (suc (suc zero)))))))) lt = refl
digit_of-digit (suc (suc (suc (suc (suc (suc (suc (suc (suc zero))))))))) lt = refl
digit_of-digit (suc (suc (suc (suc (suc (suc (suc (suc (suc (suc zero)))))))))) lt = refl
digit_of-digit (suc (suc (suc (suc (suc (suc (suc (suc (suc (suc (suc zero))))))))))) lt = refl
digit_of-digit (suc (suc (suc (suc (suc (suc (suc (suc (suc (suc (suc (suc zero)))))))))))) lt =
    refl
digit_of-digit (suc (suc (suc (suc (suc (suc (suc (suc (suc (suc (suc (suc (suc zero)))))))))))))
      lt =
    refl
digit_of-digit
      (suc (suc (suc (suc (suc (suc (suc (suc (suc (suc (suc (suc (suc (suc zero)))))))))))))) lt =
    refl
digit_of-digit
      (suc (suc (suc (suc (suc (suc (suc (suc (suc (suc (suc (suc (suc (suc (suc zero)))))))))))))))
      lt =
    refl
digit_of-digit
      (suc
        (suc (suc (suc (suc (suc (suc (suc (suc (suc (suc (suc (suc (suc (suc (suc i))))))))))))))))
      lt =
    absurd (omega (arith, lt))

hex_from-hex_of : (bs : List ℕ) → All (λ b. b < 256) bs → hex_from (hex_of bs) ≡ some bs
unfolding hex_from push_back
hex_from-hex_of [] h = refl
hex_from-hex_of (b ∷ bs) (lt, h) =
    let high = digit_of-digit (b / 16) (omega (arith, lt)) in
    let low = digit_of-digit (b % 16) (omega arith) in
    let whole : 16 * (b / 16) + b % 16 ≡ b = omega arith in
    rw (high, low, hex_from-hex_of bs h, whole) refl

length-hex_of : (bs : List ℕ) → length (hex_of bs) ≡ 2 * length bs
length-hex_of [] = refl
length-hex_of (b ∷ bs) = omega (arith, length-hex_of bs)

pub hex_to_string-hex_of :
    (bs : List ℕ) → All (λ b. b < 256) bs → hex_to_string (hex_of bs) ≡ some bs
unfolding hex_to_string
hex_to_string-hex_of bs h =
    let even : (length (hex_of bs) % 2 == 1) ≡ false = ground (arith, length-hex_of bs) in
    rw even (hex_from-hex_of bs h)
