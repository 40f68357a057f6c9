-- ===== src/Elements.antt =====
-- Common/include/containers/allocator.hpp: the elements that the message queues link together, and the
-- free list that gets each from `new` and gives it back to `delete`. Memory is a list of the elements
-- that live in it by their addresses, the latest write first; an address is a number, and 0 is the null
-- pointer. What `new` returns is a parameter: the address of nothing that lives.
use order_book_sketch.Common.{
  ℕ, List, [], ◌∷◌, Option, none, some, ◌==◌, if◌then◌else◌, ◌≡◌, ◌≢◌, refl, arith,
}

-- `_value` is a pointer to the message.
pub record MsgElement : Type 0 where
  pub value : ℕ
  pub next : ℕ
  pub key : ℕ

-- `MsgElement()` without storage
abbrev pub new_element : MsgElement
new_element = record { value = 0; next = 0; key = 0 }

abbrev pub Memory : Type 0
Memory = List (ℕ × MsgElement)

-- what a pointer leads to
unfoldable pub at : ℕ → Memory → Option MsgElement
at p [] = none
at p ((q, e) ∷ m) = if q == p then some e else at p m

abbrev pub write : ℕ → MsgElement → Memory → Memory
write p e m = (p, e) ∷ m

-- `delete`
unfoldable pub free : ℕ → Memory → Memory
free p [] = []
free p ((q, e) ∷ m) = if q == p then free p m else (q, e) ∷ free p m

-- `new` gives an address that is not null and at which nothing lives.
abbrev pub IsNew : (Memory → ℕ) → Type 0
IsNew new = (m : Memory) → (new m ≢ 0) × (at (new m) m ≡ none)

-- `getElement` of `DummyFreeListBase`
abbrev pub get_element : (Memory → ℕ) → Memory → Memory × ℕ
get_element new m = (write (new m) new_element m, new m)

-- `releaseElement` of `DummyFreeListBase`
abbrev pub release_element : ℕ → Memory → Memory
release_element p m = free p m

pub at-write :
    (p q : ℕ) (e : MsgElement) (m : Memory)
    → at q (write p e m) ≡ (if p == q then some e else at q m)
unfolding at
at-write p q e m = refl

pub at-write_same : (p : ℕ) (e : MsgElement) (m : Memory) → at p (write p e m) ≡ some e
at-write_same p e m = ground (arith, at-write p p e m)

pub at-write_other : (p q : ℕ) (e : MsgElement) (m : Memory) → q ≢ p → at q (write p e m) ≡ at q m
at-write_other p q e m ne = ground (arith, at-write p q e m)

pub at-free_other : (p q : ℕ) (m : Memory) → q ≢ p → at q (free p m) ≡ at q m
unfolding at free
at-free_other p q [] ne = refl
at-free_other p q ((r, e) ∷ m) ne = ground (arith, at-free_other p q m ne)
