-- ===== src/Tests/Bytes.antt =====
-- LocalBuffer with four bytes.
use order_book_sketch.Common.{ℕ, true, List, [], ◌∷◌, some, ◌≡◌, refl, arith}
use order_book_sketch.LocalBuffer.{LocalBuffer, local_buffer, put8, set_position}
use order_book_sketch.LocalBuffer.RoundTrip.{IsValid, put_all, get_all, get_all-put_all}

abbrev bytes : List ℕ
bytes = 65 ∷ 66 ∷ 67 ∷ []

abbrev buffer : LocalBuffer
buffer = record { buffer = 0 ∷ 0 ∷ 0 ∷ 0 ∷ []; buffer_size = 4; position = 1 }

buffer-IsValid : IsValid buffer
buffer-IsValid = record { whole = refl; inside = omega arith }

put_runs :
    put_all bytes buffer ≡ (record { buffer = 0 ∷ bytes; buffer_size = 4; position = 4 }, true)
unfolding put_all put8
put_runs = refl

new_buffer : local_buffer 2 ≡ record { buffer = 0 ∷ 0 ∷ []; buffer_size = 2; position = 0 }
unfolding local_buffer
new_buffer = refl

get_all-put_all_example :
    ((put_all bytes buffer).1 ≡ true)
    × ((set_position 1 (put_all bytes buffer).0).1 ≡ true)
    × (get_all 3 (set_position 1 (put_all bytes buffer).0).0 ≡ some bytes)
get_all-put_all_example = get_all-put_all bytes buffer buffer-IsValid (omega arith)
