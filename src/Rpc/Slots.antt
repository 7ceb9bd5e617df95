-- ===== src/Rpc/Slots.antt =====
-- Fields that are set, slots with and without an Rpc, and the search for one without.
use libixp.Base.{
  ℕ, zero, suc, ◌+◌, ◌-◌, ◌≤◌, ◌<◌, ◌≡◌, refl, ap, ◌⊎◌, inl, inr, List, [], ◌∷◌, ◌++◌, arith,
  length, get_elem?, set, replicate, Option, none, some, lt-cases, ◌≢◌, ◌==◌, true, false,
}
use libixp.Rpc.{put, at, nowhere, search}

-- A field that is set, at its node and at another.
pub put_self : {A : Type 0} (f : ℕ → A) (r : ℕ) (v : A) → put f r v r ≡ v
put_self f r v = let e : (r == r) ≡ true = ground arith in rw e refl

pub put_other : {A : Type 0} (f : ℕ → A) (r x : ℕ) (v : A) → x ≢ r → put f r v x ≡ f x
put_other f r x v h = let e : (x == r) ≡ false = ground arith in rw e refl

-- The slots that hold an Rpc.
abbrev pub used : List (Option ℕ) → ℕ
used [] = 0
used (none ∷ xs) = used xs
used (some r ∷ xs) = suc (used xs)

pub used-set-some :
    (xs : List (Option ℕ)) (i r : ℕ)
    → get_elem? xs i ≡ some none
    → used (set xs i (some r)) ≡ suc (used xs)
used-set-some [] i r e = cc
used-set-some (none ∷ xs) zero r e = refl
used-set-some (some x ∷ xs) zero r e = cc
used-set-some (none ∷ xs) (suc i) r e = used-set-some xs i r e
used-set-some (some x ∷ xs) (suc i) r e = ap suc (used-set-some xs i r e)

pub used-set-none :
    (xs : List (Option ℕ)) (i r : ℕ)
    → get_elem? xs i ≡ some (some r)
    → suc (used (set xs i none)) ≡ used xs
used-set-none [] i r e = cc
used-set-none (none ∷ xs) zero r e = cc
used-set-none (some x ∷ xs) zero r e = refl
used-set-none (none ∷ xs) (suc i) r e = used-set-none xs i r e
used-set-none (some x ∷ xs) (suc i) r e = ap suc (used-set-none xs i r e)

pub used-grown : (xs : List (Option ℕ)) (n : ℕ) → used (xs ++ replicate n none) ≡ used xs
used-grown [] zero = refl
used-grown [] (suc n) = used-grown [] n
used-grown (none ∷ xs) n = used-grown xs n
used-grown (some x ∷ xs) n = ap suc (used-grown xs n)

-- A list whose slots are all taken.
pub used-full :
    (xs : List (Option ℕ))
    → ((i : ℕ) → i < length xs → (r : ℕ) × (get_elem? xs i ≡ some (some r)))
    → used xs ≡ length xs
used-full [] full = refl
used-full (none ∷ xs) full = let (r, e) = full 0 (omega arith) in cc
used-full (some x ∷ xs) full = ap suc (used-full xs (λ i lt. full (suc i) (omega arith)))

pub Slot-cases :
    (xs : List (Option ℕ)) (i : ℕ)
    → i < length xs
    → (get_elem? xs i ≡ some none) ⊎ ((r : ℕ) × (get_elem? xs i ≡ some (some r)))
Slot-cases [] i h = absurd (omega (arith, h))
Slot-cases (none ∷ xs) zero h = inl refl
Slot-cases (some r ∷ xs) zero h = inr (r, refl)
Slot-cases (x ∷ xs) (suc i) h = Slot-cases xs i (omega (arith, h))

-- A search within the list finds the first null slot, or every slot there is taken.
pub search-finds :
    (xs : List (Option ℕ)) (i n : ℕ)
    → i + n ≤ length xs
    → ((j : ℕ) × (search xs i n ≡ at j) × (i ≤ j) × (j < i + n) × (get_elem? xs j ≡ some none))
      ⊎ ((search xs i n ≡ nowhere)
          × ((j : ℕ) → i ≤ j → j < i + n → (r : ℕ) × (get_elem? xs j ≡ some (some r))))
unfolding search
search-finds xs i zero h = inr (refl, λ j le lt. absurd (omega (arith, le, lt)))
search-finds xs i (suc n) h = elim (Slot-cases xs i (omega arith)) [
  | inl e ↦ inl (i, rw (e, search) refl, omega arith, omega arith, e)
  | inr (r, e) ↦ elim (search-finds xs (suc i) n (omega arith)) [
    | inl (j, s, le, lt, free) ↦
        inl (j, rw (e, search) s, omega (arith, le), omega (arith, lt), free)
    | inr (s, taken) ↦ inr (
      rw (e, search) s,
      λ j le lt. elim (lt-cases i j) [
        | inl above ↦ taken j (omega (arith, above)) (omega (arith, lt))
        | inr below ↦ let here : i ≡ j = omega (arith, le, below) in (r, rw (← here) e)
      ],
    )
  ]
]

-- The two searches that are made from the place k, behind it and before it, find a null slot if
-- there is one.
pub search-around :
    (xs : List (Option ℕ)) (k n : ℕ)
    → length xs ≡ n
    → k < n
    → used xs < n
    → ((j : ℕ) × (search xs k (n - k) ≡ at j) × (get_elem? xs j ≡ some none))
      ⊎ ((search xs k (n - k) ≡ nowhere)
          × ((j : ℕ) × (search xs 0 k ≡ at j) × (get_elem? xs j ≡ some none)))
search-around xs k n len here free = elim (search-finds xs k (n - k) (omega arith)) [
  | inl (j, s, le, lt, e) ↦ inl (j, s, e)
  | inr (s, behind) ↦ elim (search-finds xs 0 k (omega arith)) [
    | inl (j, s', le, lt, e) ↦ inr (s, (j, s', e))
    | inr (s', before) ↦ absurd (
        omega (
          arith,
          used-full xs (λ i lt. elim (lt-cases i k) [
            | inl b ↦ before i (omega arith) (omega (arith, b))
            | inr a ↦ behind i a (omega (arith, a, lt))
          ]),
        ))
  ]
]

-- The first look, at the place k itself.
pub search-first :
    (xs : List (Option ℕ)) (k : ℕ)
    → k < length xs
    → ((search xs k 1 ≡ at k) × (get_elem? xs k ≡ some none)) ⊎ (search xs k 1 ≡ nowhere)
search-first xs k here = elim (search-finds xs k 1 (omega arith)) [
  | inl (j, s, le, lt, e) ↦
      let same : j ≡ k = omega (arith, le, lt) in inl (rw same at s, rw same at e)
  | inr (s, taken) ↦ inr s
]

pub used-le : (xs : List (Option ℕ)) → used xs ≤ length xs
used-le [] = omega arith
used-le (none ∷ xs) = omega (arith, used-le xs)
used-le (some r ∷ xs) = omega (arith, used-le xs)

-- The new slots are null.
pub get_elem?-grown :
    (xs : List (Option ℕ)) (n i r : ℕ)
    → get_elem? (xs ++ replicate n none) i ≡ some (some r)
    → get_elem? xs i ≡ some (some r)
get_elem?-grown [] zero i r e = cc
get_elem?-grown [] (suc n) zero r e = cc
get_elem?-grown [] (suc n) (suc i) r e = let e' = get_elem?-grown [] n i r e in cc
get_elem?-grown (x ∷ xs) n zero r e = e
get_elem?-grown (x ∷ xs) n (suc i) r e = get_elem?-grown xs n i r e
