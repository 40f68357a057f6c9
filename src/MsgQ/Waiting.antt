-- ===== src/MsgQ/Waiting.antt =====
-- What threads get of a queue that holds messages.
use order_book_sketch.Common.{
  ℕ, suc, ℤ, pos, negsuc, ◌+ℤ◌, ◌==ℤ◌, true, false, List, [], ◌∷◌, ◌++◌, Option, none, some, ◌==◌,
  if◌then◌else◌, ◌≡◌, ◌≢◌, refl, arith, sym, ◌∙◌, ap,
}
use order_book_sketch.Elements.{MsgElement, new_element, Memory, write, free, IsNew, at-write_same}
use order_book_sketch.MsgList.Chain.{
  Link, values, last_of, IsChain, IsChain-push, IsChain-pop, values-append, last_of-append,
  with_element,
}
use order_book_sketch.MsgQ.{
  MsgQ, ended, blocked, take_next, take_at, get, link, wait_from, wait_after, wait, new_queue, post,
}

-- Nobody holds the lock, and the elements from the head to the tail carry the messages.
pub record Holds (q : MsgQ) (xs : List ℕ) : Type 0 where
  pub links : List Link
  pub messages : values links ≡ xs
  pub chain : IsChain q.memory q.head links
  pub ends : q.tail ≡ last_of q.head links
  pub unlocked : q.locked ≡ false

get_links :
    (q : MsgQ) (x : ℕ) (xs : List ℕ) (ls : List Link)
    → values ls ≡ x ∷ xs
    → IsChain q.memory q.head ls
    → q.tail ≡ last_of q.head ls
    → q.locked ≡ false
    → (q' : MsgQ) × (key : Option ℕ) × (x ≢ 0) × (get q ≡ ended q' (x, key)) × Holds q' xs
unfolding get take_at take_next
get_links q x xs [] vs chain ends unlocked = absurd (cc)
get_links q x xs ((p, y) ∷ ls) vs chain ends unlocked =
    let ((m, tm, n), p0, y0, (e, te, v), _, _) = chain in
    let same : y ≡ x = cc in
    let rest : values ls ≡ xs = cc in
    let nonzero : (p == 0) ≡ false = ground (arith, p0) in
    (
      record q { head = p; memory = free q.head q.memory },
      some e.key,
      rw (← same) y0,
      rw (unlocked, tm, n, nonzero, te, v, same) refl,
      record {
        links = ls;
        messages = rest;
        chain = IsChain-pop q.memory q.head p y ls chain;
        ends = ends;
        unlocked = unlocked;
      },
    )

get-none :
    (q : MsgQ) (ls : List Link)
    → values ls ≡ []
    → IsChain q.memory q.head ls
    → q.locked ≡ false
    → get q ≡ ended q (0, none)
unfolding get take_at
get-none q [] vs (m, tm, n) unlocked = rw (unlocked, tm, n) refl
get-none q ((p, y) ∷ ls) vs chain unlocked = absurd (cc)

-- Whatever its timeout, `wait` on a queue that holds messages returns 0 with the first of them at once,
-- and leaves the others.
pub wait-first :
    (n : ℕ) (timeout : ℤ) (q : MsgQ) (x : ℕ) (xs : List ℕ)
    → Holds q (x ∷ xs)
    → (q' : MsgQ) × (wait n timeout q ≡ some (ended q' (pos 0, x))) × Holds q' xs
unfolding wait wait_after
wait-first n timeout q x xs h =
    let (q', key, ne, got, holds) = get_links q x xs h.links h.messages h.chain h.ends h.unlocked in
    let nonzero : (x == 0) ≡ false = ground (arith, ne) in (q', rw (got, nonzero) refl, holds)

wait_from-locked :
    (n : ℕ) (timeout : ℤ) (q : MsgQ) → q.locked ≡ true → wait_from (suc n) timeout q ≡ some blocked
unfolding get wait_from
wait_from-locked n timeout q locked =
    let stuck : get q ≡ blocked = rw locked refl in rw (stuck, wait_from) refl

-- `wait` on a queue without messages returns -1 at once if the timeout is 0, and otherwise spins for
-- ever on the lock that it holds itself: no message that is posted afterwards can end it, since every
-- `post` spins on that lock too.
pub wait-empty :
    (new : Memory → ℕ) (n : ℕ) (timeout : ℤ) (q : MsgQ)
    → Holds q []
    → (wait (suc n) timeout q
        ≡ (if timeout ==ℤ pos 0 then some (ended q (negsuc 0, 0)) else some blocked))
      × ((value key : ℕ) → value ≢ 0 → post new value key (record q { locked = true }) ≡ blocked)
unfolding wait wait_after post
wait-empty new n timeout q h =
    let waiting = record q { waiting_for_take = q.waiting_for_take +ℤ pos 1; locked = true } in
    (
      ap (λ x. wait_after (suc n) timeout x) (get-none q h.links h.messages h.chain h.unlocked)
          ∙ ap
              (λ b.
                if timeout ==ℤ pos 0
                then some (ended q (negsuc 0, 0))
                else if b
                then some blocked
                else wait_from (suc n) timeout waiting)
              h.unlocked
          ∙ ap (λ x. if timeout ==ℤ pos 0 then some (ended q (negsuc 0, 0)) else x)
              (wait_from-locked n timeout waiting refl),
      λ value key ne. let nonzero : (value == 0) ≡ false = ground (arith, ne) in rw nonzero refl,
    )

module _ (new : Memory → ℕ) (is_new : IsNew new) where
  pub new_queue-Holds : (m : Memory) → Holds (new_queue new m) []
  new_queue-Holds m = record {
    links = [];
    messages = refl;
    chain = (new_element, at-write_same (new m) new_element m, refl);
    ends = refl;
    unlocked = refl;
  }

  -- `post` of a message that is not null returns 0 and puts it behind the others.
  pub post-Holds :
      (x key : ℕ) (q : MsgQ) (xs : List ℕ)
      → x ≢ 0
      → Holds q xs
      → (q' : MsgQ) × (post new x key q ≡ ended q' (pos 0)) × Holds q' (xs ++ (x ∷ []))
  unfolding post link
  post-Holds x key q xs ne h =
      let p = new q.memory in
      let e : MsgElement = record new_element { value = x; key = key } in
      let (t, found, chain) =
        IsChain-push new q.memory q.head q.tail h.links e is_new h.chain h.ends ne refl in
      let nonzero : (x == 0) ≡ false = ground (arith, ne) in
      (
        record q {
          memory = write q.tail (record t { next = p }) (with_element new e q.memory);
          tail = p;
        },
        rw (nonzero, h.unlocked, found) refl,
        record {
          links = h.links ++ ((p, x) ∷ []);
          messages = values-append h.links p x ∙ ap (λ r. r ++ (x ∷ [])) h.messages;
          chain = chain;
          ends = sym (last_of-append q.head h.links p x);
          unlocked = h.unlocked;
        },
      )
