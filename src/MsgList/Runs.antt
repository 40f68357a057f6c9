-- ===== src/MsgList/Runs.antt =====
-- The list does what a queue of messages does, call after call.
use order_book_sketch.Common.{
  ℕ, suc, ℤ, pos, negsuc, List, [], ◌∷◌, ◌++◌, length, get_or, Option, none, some, ◌==◌,
  if◌then◌else◌, ◌≡◌, refl, arith, Bool-cases, inl, inr,
}
use order_book_sketch.Elements.{Memory, IsNew}
use order_book_sketch.MsgList.{MsgList, get, peek, new_list, put}
use order_book_sketch.MsgList.Fifo.{
  Holds, new_list-Holds, put-Holds, get-Holds, get_empty, peek-Holds,
}

pub data Call : Type 0 where
  put_call : ℕ → Call
  get_call : Call
  peek_call : Call

-- A call on a queue gives the queue afterwards, a message or a null pointer, and a number.
unfoldable pub queue_call : Call → List ℕ → List ℕ × ℕ × ℤ
queue_call (put_call x) xs =
    if x == 0 then (xs, 0, negsuc 0) else (xs ++ (x ∷ []), 0, pos (suc (length xs)))
queue_call get_call [] = ([], 0, pos 0)
queue_call get_call (x ∷ xs) = (xs, x, pos (length xs))
queue_call peek_call xs = (xs, get_or xs 0 0, pos (length xs))

unfoldable pub queue_run : List Call → List ℕ → List (ℕ × ℤ)
queue_run [] xs = []
queue_run (c ∷ cs) xs = let r = queue_call c xs in (r.1, r.2) ∷ queue_run cs r.0

-- the same on a list
unfoldable pub put_answer : Option (MsgList × ℤ) → Option (MsgList × ℕ × ℤ)
put_answer none = none
put_answer (some (l, n)) = some (l, 0, n)

unfoldable pub peek_answer : MsgList → Option (ℕ × ℤ) → Option (MsgList × ℕ × ℤ)
peek_answer l none = none
peek_answer l (some (x, n)) = some (l, x, n)

unfoldable pub add_answer : ℕ × ℤ → Option (List (ℕ × ℤ)) → Option (List (ℕ × ℤ))
add_answer a none = none
add_answer a (some answers) = some (a ∷ answers)

module _ (new : Memory → ℕ) where
  unfoldable pub call : Call → MsgList → Option (MsgList × ℕ × ℤ)
  call (put_call x) l = put_answer (put new x l)
  call get_call l = get l
  call peek_call l = peek_answer l (peek l)

  unfoldable pub run : List Call → MsgList → Option (List (ℕ × ℤ))
  run [] l = some []
  run (c ∷ cs) l = elim (call c l) [ none ↦ none | some (l', x, n) ↦ add_answer (x, n) (run cs l') ]

  put_null : (l : MsgList) → put new 0 l ≡ some (l, negsuc 0)
  unfolding put
  put_null l = refl

  call-Holds :
      (c : Call) (l : MsgList) (xs : List ℕ)
      → IsNew new
      → Holds l xs
      → (l' : MsgList) × (call c l ≡ some (l', (queue_call c xs).1, (queue_call c xs).2))
        × Holds l' (queue_call c xs).0
  unfolding call queue_call put_answer peek_answer
  call-Holds (put_call x) l xs is_new h = elim (Bool-cases (x == 0)) [
    | inl z ↦ let null : x ≡ 0 = ground (arith, z) in (l, rw (null, put_null l) refl, rw null h)
    | inr n ↦
        let (l', done, holds) = put-Holds new is_new x l xs (ground (arith, n)) h in
        (l', rw (done, n) refl, rw n holds)
  ]
  call-Holds get_call l [] is_new h = (l, get_empty l h, h)
  call-Holds get_call l (x ∷ xs) is_new h = get-Holds x l xs h
  call-Holds peek_call l xs is_new h = (l, rw (peek-Holds l xs h) refl, h)

  run-Holds :
      (cs : List Call) (l : MsgList) (xs : List ℕ)
      → IsNew new
      → Holds l xs
      → run cs l ≡ some (queue_run cs xs)
  unfolding run queue_run add_answer
  run-Holds [] l xs is_new h = refl
  run-Holds (c ∷ cs) l xs is_new h =
      let (l', done, holds) = call-Holds c l xs is_new h in
      rw (done, run, run-Holds cs l' (queue_call c xs).0 is_new holds) refl

  -- With a `new` that gives the address of nothing that lives, and not the null pointer, a new list
  -- answers every sequence of `put`, `get` and `peek` as an empty queue does, and no call follows a
  -- pointer to nothing that lives.
  pub run-new_list :
      (cs : List Call) (m : Memory) → IsNew new → run cs (new_list new m) ≡ some (queue_run cs [])
  run-new_list cs m is_new = run-Holds cs (new_list new m) [] is_new (new_list-Holds new is_new m)
