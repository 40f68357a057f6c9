-- ===== src/MsgList/Fifo.antt =====
-- What each call does to a list that holds messages.
use order_book_sketch.Common.{
  ℕ, suc, pos, ◌+ℤ◌, ◌-ℤ◌, false, List, [], ◌∷◌, ◌++◌, length, some, ◌==◌, ◌≡◌, ◌≢◌, refl, arith,
  sym, ◌∙◌, ap, length-append, get_or,
}
use order_book_sketch.Elements.{MsgElement, new_element, Memory, write, free, IsNew, at-write_same}
use order_book_sketch.MsgList.{
  MsgList, append, advance, get_at, get, peek_next, peek_at, peek, new_list, put,
}
use order_book_sketch.MsgList.Chain.{
  Link, values, last_of, IsChain, IsChain-push, IsChain-pop, values-append, last_of-append,
  with_element,
}

-- The list links elements with these messages after its head, ends in its tail and counts them.
pub record Holds (l : MsgList) (xs : List ℕ) : Type 0 where
  pub links : List Link
  pub messages : values links ≡ xs
  pub chain : IsChain l.memory l.head links
  pub ends : l.tail ≡ last_of l.head links
  pub counted : l.size ≡ pos (length xs)

size_grown : (xs : List ℕ) (x : ℕ) → pos (length xs) +ℤ pos 1 ≡ pos (length (xs ++ (x ∷ [])))
unfolding ◌+ℤ◌
size_grown xs x = ground (arith, length-append xs (x ∷ []))

size_shrunk : (n : ℕ) → pos (suc n) -ℤ pos 1 ≡ pos n
unfolding ◌-ℤ◌
size_shrunk n = ground arith

module _ (new : Memory → ℕ) (is_new : IsNew new) where
  pub new_list-Holds : (m : Memory) → Holds (new_list new m) []
  new_list-Holds m = record {
    links = [];
    messages = refl;
    chain = (new_element, at-write_same (new m) new_element m, refl);
    ends = refl;
    counted = refl;
  }

  pub put-Holds :
      (x : ℕ) (l : MsgList) (xs : List ℕ)
      → x ≢ 0
      → Holds l xs
      → (l' : MsgList) × (put new x l ≡ some (l', pos (suc (length xs))))
        × Holds l' (xs ++ (x ∷ []))
  unfolding put append
  put-Holds x l xs ne h =
      let e : MsgElement = record new_element { value = x } in
      let (t, found, chain) =
        IsChain-push new l.memory l.head l.tail h.links e is_new h.chain h.ends ne refl in
      let nonzero : (x == 0) ≡ false = ground (arith, ne) in
      let more : l.size +ℤ pos 1 ≡ pos (length (xs ++ (x ∷ []))) =
        rw (h.counted) (size_grown xs x) in
      let size : l.size +ℤ pos 1 ≡ pos (suc (length xs)) =
        more ∙ ap pos (omega (arith, length-append xs (x ∷ []))) in
      (
        record {
          memory = write l.tail (record t { next = new l.memory }) (with_element new e l.memory);
          head = l.head;
          tail = new l.memory;
          size = l.size +ℤ pos 1;
        },
        rw (nonzero, found, ← size) refl,
        record {
          links = h.links ++ ((new l.memory, x) ∷ []);
          messages = values-append h.links (new l.memory) x ∙ ap (λ r. r ++ (x ∷ [])) h.messages;
          chain = chain;
          ends = sym (last_of-append l.head h.links (new l.memory) x);
          counted = more;
        },
      )

get_first :
    (p x : ℕ) (l : MsgList) (xs : List ℕ) (ls : List Link)
    → values ls ≡ xs
    → IsChain l.memory l.head ((p, x) ∷ ls)
    → l.tail ≡ last_of p ls
    → l.size ≡ pos (suc (length xs))
    → (l' : MsgList) × (get l ≡ some (l', x, pos (length xs))) × Holds l' xs
unfolding get get_at advance
get_first p x l xs ls vs whole ends counted =
    let ((m, tm, n), p0, x0, (e, te, v), _, _) = whole in
    let less : l.size -ℤ pos 1 ≡ pos (length xs) = rw counted (size_shrunk (length xs)) in
    let nonzero : (p == 0) ≡ false = ground (arith, p0) in
    let loaded : (x == 0) ≡ false = ground (arith, x0) in
    let l' : MsgList = record {
      memory = free l.head l.memory;
      head = p;
      tail = l.tail;
      size = pos (length xs);
    } in
    (
      l',
      rw (tm, n, nonzero, te, v, loaded, less) refl,
      record {
        links = ls;
        messages = vs;
        chain = IsChain-pop l.memory l.head p x ls whole;
        ends = ends;
        counted = refl;
      },
    )

get_links :
    (x : ℕ) (l : MsgList) (xs : List ℕ) (ls : List Link)
    → values ls ≡ x ∷ xs
    → IsChain l.memory l.head ls
    → l.tail ≡ last_of l.head ls
    → l.size ≡ pos (suc (length xs))
    → (l' : MsgList) × (get l ≡ some (l', x, pos (length xs))) × Holds l' xs
get_links x l xs [] vs chain ends counted = absurd (cc)
get_links x l xs ((p, y) ∷ ls) vs chain ends counted =
    let same : y ≡ x = cc in
    let rest : values ls ≡ xs = cc in rw (← same) (get_first p y l xs ls rest chain ends counted)

-- The first message is taken, and the rest stays.
pub get-Holds :
    (x : ℕ) (l : MsgList) (xs : List ℕ)
    → Holds l (x ∷ xs)
    → (l' : MsgList) × (get l ≡ some (l', x, pos (length xs))) × Holds l' xs
get-Holds x l xs h = get_links x l xs h.links h.messages h.chain h.ends h.counted

get-none :
    (l : MsgList) (ls : List Link)
    → values ls ≡ []
    → IsChain l.memory l.head ls
    → get l ≡ some (l, 0, pos 0)
unfolding get get_at
get-none l [] vs (m, tm, n) = rw (tm, n) refl
get-none l ((p, y) ∷ ls) vs chain = absurd (cc)

pub get_empty : (l : MsgList) → Holds l [] → get l ≡ some (l, 0, pos 0)
get_empty l h = get-none l h.links h.messages h.chain

peek_links :
    (l : MsgList) (xs : List ℕ) (ls : List Link)
    → values ls ≡ xs
    → IsChain l.memory l.head ls
    → peek l ≡ some (get_or xs 0 0, l.size)
unfolding peek peek_at peek_next
peek_links l [] [] vs (m, tm, n) = rw (tm, n) refl
peek_links l (x ∷ xs) [] vs chain = absurd (cc)
peek_links l [] ((p, y) ∷ ls) vs chain = absurd (cc)
peek_links l (x ∷ xs) ((p, y) ∷ ls) vs ((m, tm, n), p0, y0, (e, te, v), _, _) =
    let same : y ≡ x = cc in
    let nonzero : (p == 0) ≡ false = ground (arith, p0) in rw (tm, n, nonzero, te, v, same) refl

-- `peek` gives the first message, or a null pointer, and how many there are.
pub peek-Holds :
    (l : MsgList) (xs : List ℕ) → Holds l xs → peek l ≡ some (get_or xs 0 0, pos (length xs))
peek-Holds l xs h = rw (← (h.counted)) (peek_links l xs h.links h.messages h.chain)
