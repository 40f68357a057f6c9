-- ===== src/MsgList/Chain.antt =====
-- The elements that a list links from its head on.
use order_book_sketch.Common.{
  ℕ, List, [], ◌∷◌, ◌++◌, none, some, ◌==◌, ◌≡◌, ◌≢◌, refl, arith, sym, ◌∙◌, ap, All, Bool-cases,
  inl, inr,
}
use order_book_sketch.Elements.{
  MsgElement, new_element, Memory, at, write, free, IsNew, at-write_same, at-write_other,
  at-free_other,
}

-- an element by its address and its message
abbrev pub Link : Type 0
Link = ℕ × ℕ

abbrev pub values : List Link → List ℕ
values [] = []
values ((p, x) ∷ ls) = x ∷ values ls

abbrev pub last_of : ℕ → List Link → ℕ
last_of p [] = p
last_of p ((q, x) ∷ ls) = last_of q ls

abbrev pub LeadsTo : Memory → ℕ → ℕ → Type 0
LeadsTo m p q = (e : MsgElement) × (at p m ≡ some e) × (e.next ≡ q)

abbrev pub Carries : Memory → ℕ → ℕ → Type 0
Carries m p x = (e : MsgElement) × (at p m ≡ some e) × (e.value ≡ x)

abbrev pub Avoids : ℕ → List Link → Type 0
Avoids p ls = All (λ l. l.0 ≢ p) ls

-- From `p` on, the elements are linked one to the next, no two are one, and each carries its message.
abbrev pub IsChain : Memory → ℕ → List Link → Type 0
IsChain m p [] = LeadsTo m p 0
IsChain m p ((q, x) ∷ ls) =
    LeadsTo m p q × (q ≢ 0) × (x ≢ 0) × Carries m q x × Avoids p ((q, x) ∷ ls) × IsChain m q ls

-- Memory that is changed only at an address outside the chain.
IsChain-elsewhere :
    (m m' : Memory) (r p : ℕ) (ls : List Link)
    → ((q : ℕ) → q ≢ r → at q m' ≡ at q m)
    → p ≢ r
    → Avoids r ls
    → IsChain m p ls
    → IsChain m' p ls
IsChain-elsewhere m m' r p [] same ne av (e, there, n) = (e, same p ne ∙ there, n)
IsChain-elsewhere m m' r p ((q, x) ∷ ls) same ne av ((e, te, n), q0, x0, (c, tc, v), apart, rest) =
    (
      (e, same p ne ∙ te, n),
      q0,
      x0,
      (c, same q av.0 ∙ tc, v),
      apart,
      IsChain-elsewhere m m' r q ls same av.0 av.1 rest,
    )

-- Where nothing lives there is no element of the chain.
IsChain-Avoids :
    (m : Memory) (r p : ℕ) (ls : List Link) → at r m ≡ none → IsChain m p ls → (p ≢ r) × Avoids r ls
IsChain-Avoids m r p [] e (c, there, n) =
    (λ same. let clash : at r m ≡ some c = rw (← same) there in absurd (cc), tt)
IsChain-Avoids m r p ((q, x) ∷ ls) e ((c, there, n), q0, x0, _, apart, rest) =
    let (q_ne, av) = IsChain-Avoids m r q ls e rest in
    (λ same. let clash : at r m ≡ some c = rw (← same) there in absurd (cc), (q_ne, av))

last_lives : (m : Memory) (p : ℕ) (ls : List Link) → IsChain m p ls → LeadsTo m (last_of p ls) 0
last_lives m p [] h = h
last_lives m p ((q, x) ∷ ls) h = last_lives m q ls h.5

last_of-Avoids : (p q : ℕ) (ls : List Link) → q ≢ p → Avoids p ls → last_of q ls ≢ p
last_of-Avoids p q [] ne av = ne
last_of-Avoids p q ((r, x) ∷ ls) ne av = last_of-Avoids p r ls av.0 av.1

Avoids-append : (p q x : ℕ) (ls : List Link) → q ≢ p → Avoids p ls → Avoids p (ls ++ ((q, x) ∷ []))
Avoids-append p q x [] ne av = (ne, tt)
Avoids-append p q x (l ∷ ls) ne av = (av.0, Avoids-append p q x ls ne av.1)

-- What an address carries outlives a write of a link.
Carries-write :
    (m : Memory) (t p q x : ℕ) (e : MsgElement)
    → at t m ≡ some e
    → Carries m q x
    → Carries (write t (record e { next = p }) m) q x
Carries-write m t p q x e te (c, tc, v) = elim (Bool-cases (q == t)) [
  | inl y ↦
      let same : q ≡ t = ground (arith, y) in
      let hit = rw same at tc in
      let one : some e ≡ some c = sym te ∙ hit in
      let v' : e.value ≡ x = cc in
      (record e { next = p }, rw same (at-write_same t (record e { next = p }) m), v')
  | inr n ↦ (c, at-write_other t q (record e { next = p }) m (ground (arith, n)) ∙ tc, v)
]

-- The last element is linked to one outside the chain that leads nowhere.
IsChain-append :
    (m : Memory) (p : ℕ) (ls : List Link) (r x : ℕ) (e : MsgElement)
    → IsChain m p ls
    → at (last_of p ls) m ≡ some e
    → LeadsTo m r 0
    → Carries m r x
    → r ≢ 0
    → x ≢ 0
    → r ≢ p
    → Avoids r ls
    → IsChain (write (last_of p ls) (record e { next = r }) m) p (ls ++ ((r, x) ∷ []))
IsChain-append m p [] r x e h te (c, tc, n) carries r0 x0 rp av =
    let t' = record e { next = r } in
    (
      (t', at-write_same p t' m, refl),
      r0,
      x0,
      Carries-write m p r r x e te carries,
      (rp, tt),
      (c, at-write_other p r t' m rp ∙ tc, n),
    )
IsChain-append m p ((q, y) ∷ ls) r x e ((c, tc, n), q0, y0, carried, apart, rest) te last carries r0
      x0 rp av =
    let t = last_of q ls in
    let t' = record e { next = r } in
    let ne : p ≢ t = λ same. last_of-Avoids p q ls apart.0 apart.1 (sym same) in
    (
      (c, at-write_other t p t' m ne ∙ tc, n),
      q0,
      y0,
      Carries-write m t r q y e te carried,
      (apart.0, Avoids-append p r x ls rp apart.1),
      IsChain-append m q ls r x e rest te last carries r0 x0 (λ same. av.0 (sym same)) av.1,
    )

-- the memory with a new element in it, not yet linked
abbrev pub with_element : (Memory → ℕ) → MsgElement → Memory → Memory
with_element new e m = write (new m) e (write (new m) new_element m)

-- A new element with a message is linked to the last one.
pub IsChain-push :
    (new : Memory → ℕ) (m : Memory) (h t : ℕ) (ls : List Link) (e : MsgElement)
    → IsNew new
    → IsChain m h ls
    → t ≡ last_of h ls
    → e.value ≢ 0
    → e.next ≡ 0
    → (l : MsgElement) × (at t (with_element new e m) ≡ some l)
      × IsChain
          (write t (record l { next = new m }) (with_element new e m))
          h
          (ls ++ ((new m, e.value) ∷ []))
IsChain-push new m h t ls e is_new chain ends loaded last =
    let p = new m in
    let (p0, fresh) = is_new m in
    let (apart, avoids) = IsChain-Avoids m p h ls fresh chain in
    let m' = with_element new e m in
    let same : (q : ℕ) → q ≢ p → at q m' ≡ at q m = λ q other.
      at-write_other p q e (write p new_element m) other ∙ at-write_other p q new_element m other in
    let made : at p m' ≡ some e = at-write_same p e (write p new_element m) in
    let chain' = IsChain-elsewhere m m' p h ls same apart avoids chain in
    let (l, there, _) = last_lives m' h ls chain' in
    let found : at t m' ≡ some l = rw ends there in
    (
      l,
      found,
      rw ends (
          IsChain-append m' h ls p e.value l chain' there (e, made, last) (e, made, refl) p0 loaded
            (λ same_one. apart (sym same_one)) avoids),
    )

-- The first element goes.
pub IsChain-pop :
    (m : Memory) (h p x : ℕ) (ls : List Link) → IsChain m h ((p, x) ∷ ls) → IsChain (free h m) p ls
IsChain-pop m h p x ls (_, _, _, _, apart, rest) =
    IsChain-elsewhere m (free h m) h p ls (λ q ne. at-free_other h q m ne) apart.0 apart.1 rest

pub values-append :
    (ls : List Link) (p x : ℕ) → values (ls ++ ((p, x) ∷ [])) ≡ values ls ++ (x ∷ [])
values-append [] p x = refl
values-append ((q, y) ∷ ls) p x = ap (λ r. y ∷ r) (values-append ls p x)

pub last_of-append : (p : ℕ) (ls : List Link) (q x : ℕ) → last_of p (ls ++ ((q, x) ∷ [])) ≡ q
last_of-append p [] q x = refl
last_of-append p ((r, y) ∷ ls) q x = last_of-append r ls q x
