-- ===== src/Dictionary.antt =====
-- What OrderBookType2 and OrderBookManagerType2 need of their hash map: the operations that they
-- call, and the laws that these follow on a well-formed map at keys other than the empty key.
pub mod Assoc
use order_book_sketch.Common.{ℕ, Bool, true, false, Option, none, some, ◌≡◌, ◌==◌, if◌then◌else◌}

pub record Dictionary (V : Type 0) : Type 1 where
  pub Map : Type 0
  pub IsValid : Map → Type 0
  pub IsKey : ℕ → Type 0
  -- the map as it is constructed
  pub empty : Map
  -- `find(key)->second`, where `none` is `end()`
  pub find : ℕ → Map → Option V
  -- the map after `emplace(key, v)`, `first->second` and `second` of what it returns
  pub emplace : ℕ → V → Map → Map × V × Bool
  -- `erase(find(key))`
  pub erase : ℕ → Map → Map
  pub emplace_new :
      (k : ℕ) (v : V) (m : Map)
      → IsValid m
      → IsKey k
      → find k m ≡ none
      → ((emplace k v m).1 ≡ v) × ((emplace k v m).2 ≡ true)
  pub emplace_old :
      (k : ℕ) (v : V) (m : Map) (w : V)
      → IsValid m
      → IsKey k
      → find k m ≡ some w
      → ((emplace k v m).1 ≡ w) × ((emplace k v m).2 ≡ false)
  pub find-emplace_new :
      (k q : ℕ) (v : V) (m : Map)
      → IsValid m
      → IsKey k
      → IsKey q
      → find k m ≡ none
      → find q (emplace k v m).0 ≡ (if k == q then some v else find q m)
  pub find-emplace_old :
      (k q : ℕ) (v : V) (m : Map) (w : V)
      → IsValid m
      → IsKey k
      → IsKey q
      → find k m ≡ some w
      → find q (emplace k v m).0 ≡ find q m
  pub find-erase :
      (k q : ℕ) (m : Map) (w : V)
      → IsValid m
      → IsKey k
      → IsKey q
      → find k m ≡ some w
      → find q (erase k m) ≡ (if k == q then none else find q m)
  pub emplace-IsValid : (k : ℕ) (v : V) (m : Map) → IsValid m → IsKey k → IsValid (emplace k v m).0
  pub erase-IsValid :
      (k : ℕ) (m : Map) (w : V) → IsValid m → IsKey k → find k m ≡ some w → IsValid (erase k m)
  pub empty-IsValid : IsValid empty
  pub find-empty : (k : ℕ) → IsKey k → find k empty ≡ none
