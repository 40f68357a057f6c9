-- ===== src/LocalBuffer/RoundTrip.antt =====
-- What is written is read back, and nothing is written outside the buffer.
use order_book_sketch.Common.{
  ℕ, zero, suc, Bool, true, false, ◌&&◌, List, [], ◌∷◌, length, get_or, set, Option, none, some,
  ltb, leb, ◌+◌, ◌-◌, ◌<◌, ◌≤◌, if◌then◌else◌, ◌≡◌, refl, arith, ◌∙◌, ap, length-set,
  get_or-set_self, get_or-set_ne,
}
use order_book_sketch.LocalBuffer.{LocalBuffer, put8, get8, set_position}

pub record IsValid (b : LocalBuffer) : Type 0 where
  pub whole : length b.buffer ≡ b.buffer_size
  pub inside : b.position ≤ b.buffer_size

-- byte after byte, until a call gives false
unfoldable pub put_all : List ℕ → LocalBuffer → LocalBuffer × Bool
put_all [] b = (b, true)
put_all (x ∷ bytes) b =
    let (b', ok) = put8 x b in let rest = put_all bytes b' in if ok then rest else (b', false)

abbrev pub joined : Option ℕ → Option (List ℕ) → Option (List ℕ)
joined none rest = none
joined (some byte) none = none
joined (some byte) (some bytes) = some (byte ∷ bytes)

unfoldable pub get_all : ℕ → LocalBuffer → Option (List ℕ)
get_all zero b = some []
get_all (suc n) b = joined (get8 b).1 (get_all n (get8 b).0)

put8_room :
    (x : ℕ) (b : LocalBuffer)
    → b.position < b.buffer_size
    → put8 x b ≡ (record b { buffer = set b.buffer b.position x; position = suc b.position }, true)
unfolding put8
put8_room x b room = let y : ltb b.position b.buffer_size ≡ true = ground arith in rw y refl

get8_room :
    (b : LocalBuffer)
    → b.position < b.buffer_size
    → get8 b ≡ (record b { position = suc b.position }, some (get_or b.buffer b.position 0))
unfolding get8
get8_room b room = let y : ltb b.position b.buffer_size ≡ true = ground arith in rw y refl

cons_here : (x i p : ℕ) (bytes : List ℕ) → i ≡ p → get_or (x ∷ bytes) (i - p) 0 ≡ x
cons_here x i p bytes e = let z : i - p ≡ 0 = omega (arith, e) in rw z refl

cons_after :
    (x i p : ℕ) (bytes : List ℕ) → p < i → get_or (x ∷ bytes) (i - p) 0 ≡ get_or bytes (i - suc p) 0
cons_after x i p bytes h = let z : i - p ≡ suc (i - suc p) = omega arith in rw z refl

-- one byte, then the others behind it
written :
    (x i p : ℕ) (bytes old : List ℕ)
    → p < length old
    → (if leb (suc p) i && ltb i (suc p + length bytes)
        then get_or bytes (i - suc p) 0
        else get_or (set old p x) i 0)
      ≡ (if leb p i && ltb i (p + suc (length bytes))
          then get_or (x ∷ bytes) (i - p) 0
          else get_or old i 0)
written x i p bytes old room = ground (
  arith,
  cons_here x i p bytes,
  cons_after x i p bytes,
  get_or-set_self old p x 0 room,
  get_or-set_ne old p i x 0,
)

-- With room for all bytes, every `put8` succeeds: the bytes stand where the position was, the
-- position is behind them, and no other byte has changed.
pub put_all_lem :
    (bytes : List ℕ) (b : LocalBuffer)
    → IsValid b
    → b.position + length bytes ≤ b.buffer_size
    → ((put_all bytes b).1 ≡ true)
      × ((put_all bytes b).0.buffer_size ≡ b.buffer_size)
      × ((put_all bytes b).0.position ≡ b.position + length bytes)
      × ((i : ℕ)
          → get_or (put_all bytes b).0.buffer i 0 ≡ (
              if leb b.position i && ltb i (b.position + length bytes)
              then get_or bytes (i - b.position) 0
              else get_or b.buffer i 0))
unfolding put_all
put_all_lem [] b h room = (refl, refl, omega arith, λ i. ground arith)
put_all_lem (x ∷ bytes) b h room =
    let e = put8_room x b (omega arith) in
    let b' : LocalBuffer = record b {
      buffer = set b.buffer b.position x;
      position = suc b.position;
    } in
    let valid : IsValid b' = record { whole = rw length-set h.whole; inside = omega arith } in
    let r = put_all_lem bytes b' valid (omega arith) in
    rw e (
      r.0,
      r.1,
      omega (arith, r.2),
      λ i. r.3 i ∙ written x i b.position bytes b.buffer (omega (arith, h.whole)),
    )

read_at :
    (p i : ℕ) (bytes old : List ℕ)
    → i < length bytes
    → (if leb p (p + i) && ltb (p + i) (p + length bytes)
        then get_or bytes (p + i - p) 0
        else get_or old (p + i) 0)
      ≡ get_or bytes i 0
read_at p i bytes old h = let e : p + i - p ≡ i = omega arith in rw e (ground arith)

-- the bytes from the position on are read
get_all_lem :
    (bytes : List ℕ) (b : LocalBuffer)
    → b.position + length bytes ≤ b.buffer_size
    → ((i : ℕ) → i < length bytes → get_or b.buffer (b.position + i) 0 ≡ get_or bytes i 0)
    → get_all (length bytes) b ≡ some bytes
unfolding get_all
get_all_lem [] b room same = refl
get_all_lem (x ∷ bytes) b room same =
    let first : get_or b.buffer b.position 0 ≡ x =
      ap (λ i. get_or b.buffer i 0) (omega arith) ∙ same 0 (omega arith) in
    let rest =
      get_all_lem bytes (record b { position = suc b.position }) (omega arith)
        (λ i hi. ap (λ j. get_or b.buffer j 0) (omega arith) ∙ same (suc i) (omega arith)) in
    ap (λ (r : LocalBuffer × Option ℕ). joined r.1 (get_all (length bytes) r.0))
      (get8_room b (omega arith))
    ∙ (ap (λ y. joined (some y) (get_all (length bytes) (record b { position = suc b.position })))
          first
        ∙ ap (joined (some x)) rest)

-- Bytes that fit are written, and read back from the position where the writing began, which
-- `setPosition` accepts.
pub get_all-put_all :
    (bytes : List ℕ) (b : LocalBuffer)
    → IsValid b
    → b.position + length bytes ≤ b.buffer_size
    → ((put_all bytes b).1 ≡ true)
      × ((set_position b.position (put_all bytes b).0).1 ≡ true)
      × (get_all (length bytes) (set_position b.position (put_all bytes b).0).0 ≡ some bytes)
unfolding set_position
get_all-put_all bytes b h room =
    let r = put_all_lem bytes b h room in
    let accepted : leb b.position (put_all bytes b).0.buffer_size ≡ true =
      ground (arith, r.1, h.inside) in
    rw accepted (
      r.0,
      refl,
      get_all_lem bytes (record (put_all bytes b).0 { position = b.position }) (omega (arith, r.1))
          (λ i hi. r.3 (b.position + i) ∙ read_at b.position i bytes b.buffer hi),
    )
