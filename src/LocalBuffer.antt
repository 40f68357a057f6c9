-- ===== src/LocalBuffer.antt =====
-- OrderManagementSystem/include/LocalBuffer.hpp: a buffer of bytes with one position for writing and
-- reading. A byte is its bit pattern, a number below 256, for the signed and the unsigned methods.
pub mod RoundTrip
use order_book_sketch.Common.{
  ℕ, suc, Bool, true, false, List, get_or, set, replicate, Option, none, some, leb, ltb,
  if◌then◌else◌,
}

pub record LocalBuffer : Type 0 where
  pub buffer : List ℕ
  pub buffer_size : ℕ
  pub position : ℕ

-- the constructor, where the allocation succeeds
unfoldable pub local_buffer : ℕ → LocalBuffer
local_buffer size = record { buffer = replicate size 0; buffer_size = size; position = 0 }

-- `put8`
unfoldable pub put8 : ℕ → LocalBuffer → LocalBuffer × Bool
put8 byte b =
    if ltb b.position b.buffer_size
    then (record b { buffer = set b.buffer b.position byte; position = suc b.position }, true)
    else (b, false)

-- `get8`: the byte, none where the call gives false
unfoldable pub get8 : LocalBuffer → LocalBuffer × Option ℕ
get8 b =
    if ltb b.position b.buffer_size
    then (record b { position = suc b.position }, some (get_or b.buffer b.position 0))
    else (b, none)

-- `setPosition`: false for the exception
unfoldable pub set_position : ℕ → LocalBuffer → LocalBuffer × Bool
set_position pos b =
    if leb pos b.buffer_size then (record b { position = pos }, true) else (b, false)
