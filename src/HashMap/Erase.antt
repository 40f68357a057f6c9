-- ===== src/HashMap/Erase.antt =====
-- `erase`: entries behind the freed bucket move up until no chain is broken.
use order_book_sketch.Common.{
  ℕ, zero, suc, List, [], ◌∷◌, length, get_or, set, ◌==◌, ◌<◌, ◌≤◌, if◌then◌else◌, ◌≡◌, ◌≢◌, refl,
  arith, Bool-cases, inl, inr, ◌∙◌, sym, ap, ==→eq, length-set,
}
use native.Mathlib.Nat.{mod-lt}
use order_book_sketch.HashMap.Cyclic.{
  next, dist, next-below, dist-below, dist-next, dist-eq, dist_pos, dist_one, dist_between,
  dist_same,
}
use order_book_sketch.HashMap.Probing.{key_at, home, IsChained}
use order_book_sketch.HashMap.Insert.{key_at-set}

pub set_twice : {A : Type 0} (es : List A) (b : ℕ) (x z : A) → set (set es b x) b z ≡ set es b z
set_twice [] b x z = refl
set_twice (a ∷ es) zero x z = refl
set_twice (a ∷ es) (suc b) x z = ap (λ l. a ∷ l) (set_twice es b x z)

pub set_over :
    {A : Type 0} (es : List A) (b i : ℕ) (x y z : A)
    → i ≢ b
    → set (set (set es b x) i y) b z ≡ set (set es b z) i y
set_over [] b i x y z ne = refl
set_over (a ∷ es) zero zero x y z ne = absurd (ne refl)
set_over (a ∷ es) zero (suc i) x y z ne = refl
set_over (a ∷ es) (suc b) zero x y z ne = ap (λ l. y ∷ l) (set_twice es b x z)
set_over (a ∷ es) (suc b) (suc i) x y z ne =
    ap (λ l. a ∷ l) (set_over es b i x y z (λ e. ne (ap suc e)))

module _ {V : Type 0} (hash : ℕ → ℕ) (initial : V) where
  -- the buckets with one of them freed
  abbrev pub hole : ℕ → List (ℕ × V) → ℕ → List (ℕ × V)
  hole e es b = set es b (e, (get_or es b (e, initial)).1)

  -- The buckets `es` with `bucket` to be freed and the loop at `i`: a chain is broken at most there,
  -- and only behind `i`; `z` is a free bucket that the loop has not passed.
  pub record IsLoop (e n : ℕ) (es : List (ℕ × V)) (b i z : ℕ) : Type 0 where
    pub size : length es ≡ n
    pub bucket : b < n
    pub at : i < n
    pub end : z < n
    pub not_bucket : z ≢ b
    pub blank : key_at hash initial e es z ≡ e
    pub ahead : dist n b i ≤ dist n b z
    pub behind : 0 < dist n b i
    pub chain :
        (x j : ℕ)
        → x < n
        → j < n
        → x ≢ b
        → j ≢ b
        → key_at hash initial e es x ≢ e
        → dist n (home hash initial n (key_at hash initial e es x)) j
          < dist n (home hash initial n (key_at hash initial e es x)) x
        → key_at hash initial e es j ≢ e
    pub broken :
        (x : ℕ)
        → x < n
        → x ≢ b
        → key_at hash initial e es x ≢ e
        → dist n (home hash initial n (key_at hash initial e es x)) b
          < dist n (home hash initial n (key_at hash initial e es x)) x
        → dist n b i ≤ dist n b x

  module _ (e n : ℕ) (es : List (ℕ × V)) (b i z : ℕ) (pos : 0 < n) (l : IsLoop e n es b i z) where
    abbrev pub key : ℕ → ℕ
    key x = key_at hash initial e es x

    home_lt : (k : ℕ) → home hash initial n k < n
    home_lt k = mod-lt (hash k) pos

    lt_bucket : b < length es
    lt_bucket = rw l.size l.bucket

    key_hole : (x : ℕ) → key_at hash initial e (hole e es b) x ≡ (if b == x then e else key x)
    key_hole x = key_at-set hash initial e es b x e _ lt_bucket

    key_moved :
        (x : ℕ)
        → key_at hash initial e (set es b (get_or es i (e, initial))) x
          ≡ (if b == x then key i else key x)
    key_moved x = key_at-set hash initial e es b x (key i) _ lt_bucket

    pub not_hole : i ≢ b
    not_hole s = omega (arith, l.behind, dist_same n b, ap (λ k. dist n b k) s)

    -- At a free bucket no chain is broken any more.
    pub loop_ends : key i ≡ e → IsChained hash initial e (hole e es b)
    loop_ends free =
        rw (length-set, l.size)
          (λ x j hx hj nx lt. elim (Bool-cases (b == x)) [
            | inl y ↦ absurd (nx (key_hole x ∙ rw y refl))
            | inr n' ↦
                let same : key_at hash initial e (hole e es b) x ≡ key x =
                  key_hole x ∙ rw n' refl in
                rest x j hx hj (ground (arith, n')) (rw same at nx) (rw same at lt)
          ])
      where
        rest :
            (x j : ℕ)
            → x < n
            → j < n
            → x ≢ b
            → key x ≢ e
            → dist n (home hash initial n (key x)) j < dist n (home hash initial n (key x)) x
            → key_at hash initial e (hole e es b) j ≢ e
        rest x j hx hj xb tx lt = elim (Bool-cases (b == j)) [
          | inr n' ↦ rw (key_hole j, n') (l.chain x j hx hj xb (ground (arith, n')) tx lt)
          | inl y ↦
              let over = l.broken x hx xb tx (rw (==→eq b j y) lt) in
              let apart : dist n b i ≡ dist n b x → ⊥ =
                λ s. tx (rw (← dist-eq n b i x l.bucket l.at hx s) free) in
              absurd (
                l.chain x i hx l.at xb not_hole tx
                  (dist_between n (home hash initial n (key x)) b i x (home_lt (key x)) l.bucket
                    l.at hx (rw (==→eq b j y) lt) (omega (arith, over, apart)))
                  free)
        ]

    pub not_end : key i ≢ e → i ≢ z
    not_end taken s = taken (rw s l.blank)

    -- The entry at `i` does not need the bucket.
    pub IsLoop-passes :
        key i ≢ e
        → (dist n (home hash initial n (key i)) b < dist n (home hash initial n (key i)) i → ⊥)
        → IsLoop e n es b (next n i) z
    IsLoop-passes taken stays =
        let nz = not_end taken in
        let strict : dist n b i < dist n b z = omega (
          arith,
          l.ahead,
          λ (s : dist n b i ≡ dist n b z). nz (dist-eq n b i z l.bucket l.at l.end s),
        ) in
        let step =
          dist-next n b i l.bucket l.at (omega (arith, strict, dist-below n b z l.bucket l.end)) in
        record {
          size = l.size;
          bucket = l.bucket;
          at = next-below n i l.at;
          end = l.end;
          not_bucket = l.not_bucket;
          blank = l.blank;
          ahead = omega (arith, step, strict);
          behind = omega (arith, step);
          chain = l.chain;
          broken = λ x hx nx tx lt. passed x hx nx tx lt step;
        }
      where
        passed :
            (x : ℕ)
            → x < n
            → x ≢ b
            → key x ≢ e
            → dist n (home hash initial n (key x)) b < dist n (home hash initial n (key x)) x
            → dist n b (next n i) ≡ suc (dist n b i)
            → dist n b (next n i) ≤ dist n b x
        passed x hx nx tx lt step =
            let over = l.broken x hx nx tx lt in
            let apart : dist n b i ≡ dist n b x → ⊥ =
              λ s. stays (rw (dist-eq n b i x l.bucket l.at hx s) lt) in
            omega (arith, over, apart, step)

    -- The entry at `i` moves up.
    pub IsLoop-moves :
        key i ≢ e
        → dist n (home hash initial n (key i)) b < dist n (home hash initial n (key i)) i
        → IsLoop e n (set es b (get_or es i (e, initial))) i (next n i) z
    IsLoop-moves taken moves =
        let nz = not_end taken in
        record {
          size = length-set es b _ ∙ l.size;
          bucket = l.at;
          at = next-below n i l.at;
          end = l.end;
          not_bucket = λ s. nz (sym s);
          blank = key_moved z ∙ ground (arith, l.blank, l.not_bucket);
          ahead = omega (arith, dist_one n i z l.at l.end nz, dist_pos n i z l.at l.end nz);
          behind = omega (arith, dist_one n i z l.at l.end nz);
          chain = moved_chain;
          broken = λ x hx nx tx lt.
              omega (arith, dist_one n i z l.at l.end nz, dist_pos n i x l.at hx (λ s. nx (sym s)));
        }
      where
        moved_chain :
            (x j : ℕ)
            → x < n
            → j < n
            → x ≢ i
            → j ≢ i
            → key_at hash initial e (set es b (get_or es i (e, initial))) x ≢ e
            → dist n
                (home hash initial n
                  (key_at hash initial e (set es b (get_or es i (e, initial))) x))
                j
              < dist n
                  (home hash initial n
                    (key_at hash initial e (set es b (get_or es i (e, initial))) x))
                  x
            → key_at hash initial e (set es b (get_or es i (e, initial))) j ≢ e
        moved_chain x j hx hj nx nj tx lt = elim (Bool-cases (b == j)) [
          | inl y ↦ rw (key_moved j, y) taken
          | inr m ↦
              rw (key_moved j, m)
                (elim (Bool-cases (b == x)) [
                  | inl y ↦
                      let same : key_at hash initial e (set es b (get_or es i (e, initial))) x
                          ≡ key i =
                        key_moved x ∙ rw y refl in
                      l.chain i j l.at hj not_hole (ground (arith, m)) taken
                        (omega (arith, moves, rw (same, ← ==→eq b x y) at lt))
                  | inr m' ↦
                      let same : key_at hash initial e (set es b (get_or es i (e, initial))) x
                          ≡ key x =
                        key_moved x ∙ rw m' refl in
                      l.chain x j hx hj (ground (arith, m')) (ground (arith, m)) (rw same at tx)
                        (rw same at lt)
                ])
        ]
