-- ===== src/Tests/Queues.antt =====
-- The message list and the Referencer on a few tasks.
use order_book_sketch.Common.{
  ℕ, pos, negsuc, ◌==ℤ◌, true, false, List, [], ◌∷◌, ◌+◌, ◌<◌, ◌≤◌, none, some, ◌==◌, if◌then◌else◌,
  ◌≡◌, ◌≢◌, refl, arith, All, Bool-cases, inl, inr,
}
use order_book_sketch.Elements.{Memory, at, IsNew}
use order_book_sketch.MsgList.{MsgList, put, new_list}
use order_book_sketch.MsgList.Fifo.{Holds, new_list-Holds, put-Holds}
use order_book_sketch.MsgList.Runs.{
  Call, put_call, get_call, peek_call, queue_run, queue_call, run, run-new_list,
}
use order_book_sketch.MsgQ.{ended, blocked, wait, new_queue, post}
use order_book_sketch.MsgQ.Waiting.{wait-empty, new_queue-Holds}
use order_book_sketch.Referencer.{status_inuse}
use order_book_sketch.Referencer.Ready.{IsReady}
use order_book_sketch.Referencer.{
  status_free, Referencer, new_referencer, put_all, get_next, execute,
}
use order_book_sketch.Referencer.Serving.{IsServed}
use order_book_sketch.Referencer.Slices.{IsSliced, execute-turns}
use order_book_sketch.Referencer.Session.{second, rest_of, get_next-second, put_all-execute}

-- a `new` that gives the sum of all addresses and one more
abbrev new : Memory → ℕ
new [] = 1
new ((p, e) ∷ m) = p + new m

new-positive : (m : Memory) → 0 < new m
new-positive [] = omega arith
new-positive ((p, e) ∷ m) = omega (arith, new-positive m)

at-above : (p : ℕ) (m : Memory) → new m ≤ p → at p m ≡ none
unfolding at
at-above p [] le = refl
at-above p ((q, e) ∷ m) le =
    let other : (q == p) ≡ false = ground (arith, le, new-positive m) in
    rw other (at-above p m (omega (arith, le)))

new-IsNew : IsNew new
new-IsNew m = (omega (arith, new-positive m), at-above (new m) m (omega arith))

abbrev calls : List Call
calls = put_call 5 ∷ put_call 0 ∷ put_call 6 ∷ peek_call ∷ get_call ∷ get_call ∷ get_call ∷ []

run-new_list_example : run new calls (new_list new []) ≡ some (queue_run calls [])
run-new_list_example = run-new_list new calls [] new-IsNew

queue_runs :
    queue_run calls []
    ≡ (0, pos 1)
      ∷ (0, negsuc 0)
      ∷ (0, pos 2)
      ∷ (5, pos 2)
      ∷ (5, pos 1)
      ∷ (6, pos 0)
      ∷ (0, pos 0)
      ∷ []
unfolding queue_run queue_call
queue_runs = refl

abbrev meanwhile : ℕ → List ℕ
meanwhile t = if t == 5 then 7 ∷ [] else []

meanwhile-nonzero : (t : ℕ) → All (λ u. u ≢ 0) (meanwhile t)
meanwhile-nonzero t = elim (Bool-cases (t == 5)) [
  | inl y ↦ rw y (omega arith, tt)
  | inr n ↦ rw n tt
]

put_all-execute_example :
    (r : Referencer) × (put_all new
        (λ _. pos 0)
        (5 ∷ 6 ∷ [])
        (new_referencer new (λ _. pos 0) [] (λ _. status_free))
      ≡ some r)
    × (r.posted ≡ 5 ∷ [])
    × IsServed new new-IsNew
        (λ _. pos 0)
        (λ _. 0)
        meanwhile
        r
        (7 ∷ 6 ∷ 5 ∷ [])
        (execute new (λ _. pos 0) (λ _. 0) meanwhile 3 5 r)
put_all-execute_example =
    put_all-execute new new-IsNew (λ _. pos 0) (λ _. 0) meanwhile [] (λ _. status_free) 3 5 (6 ∷ [])
      (7 ∷ 6 ∷ 5 ∷ []) (omega arith) (omega arith, tt) (λ _. (refl, refl, refl, refl))
      meanwhile-nonzero refl

-- a Referencer whose list holds one task
abbrev one : Referencer
one = record (new_referencer new (λ _. pos 0) [] (λ _. status_free)) {
  completion_list =
      (put-Holds new new-IsNew 5 (new_list new []) [] (omega arith)
        (new_list-Holds new new-IsNew [])).0;
}

one-Holds : Holds one.completion_list (5 ∷ [])
one-Holds =
    (put-Holds new new-IsNew 5 (new_list new []) [] (omega arith)
      (new_list-Holds new new-IsNew [])).2

get_next-second_example :
    (r' : Referencer) × (get_next new (λ _. pos 0) one ≡ some (r', second (5 ∷ [])))
    × Holds r'.completion_list (rest_of (5 ∷ []))
get_next-second_example = get_next-second new new-IsNew (λ _. pos 0) one (5 ∷ []) one-Holds

wait-empty_example :
    (wait 10 (pos 5) (new_queue new [])
      ≡ (if pos 5 ==ℤ pos 0 then some (ended (new_queue new []) (negsuc 0, 0)) else some blocked))
    × ((value key : ℕ)
        → value ≢ 0
        → post new value key (record (new_queue new []) { locked = true }) ≡ blocked)
wait-empty_example = wait-empty new 9 (pos 5) (new_queue new []) (new_queue-Holds new new-IsNew [])

two-Holds :
    (l' : MsgList) × (put new 6 one.completion_list ≡ some (l', pos 2)) × Holds l' (5 ∷ 6 ∷ [])
two-Holds = put-Holds new new-IsNew 6 one.completion_list (5 ∷ []) (omega arith) one-Holds

-- a Referencer whose list holds two tasks, with a limit of one call
abbrev limited : Referencer
limited = record {
  completion_list = two-Holds.0;
  priority = pos 1;
  status = λ _. status_inuse;
  called = [];
  posted = 5 ∷ [];
  deleted = [];
}

limited-IsReady : IsReady limited (5 ∷ 6 ∷ [])
limited-IsReady = record { holds = two-Holds.2; in_use = (refl, (refl, tt)) }

execute-turns_example :
    IsSliced new new-IsNew
      (λ _. pos 0)
      (λ _. 0)
      meanwhile
      0
      limited
      (6 ∷ 7 ∷ [], 5 ∷ [])
      (execute new (λ _. pos 0) (λ _. 0) meanwhile 4 5 limited)
execute-turns_example =
    execute-turns new new-IsNew (λ _. pos 0) (λ _. 0) meanwhile 0 4 5 limited (6 ∷ [])
      (λ _. (refl, refl, refl, refl)) meanwhile-nonzero (omega arith) refl limited-IsReady
