-- ===== src/Prelude/Lists.antt =====
-- Lists measured and indexed by native numbers, predicates on their items, and membership as a
-- test, under the library's names where it has one.
use Prim.Native.Nat.{ℕ, zero, suc, ◌+◌, ◌≤◌}
use mathlib.Core.Path.{◌≡◌, refl, sym, ap, subst, ◌∙◌}
use mathlib.Core.Bool.{Bool, true, false}
use mathlib.Core.List.{List, [], ◌∷◌, ◌++◌}
use mathlib.Core.Option.{Option, none, some}
use native.Mathlib.Omega.{arith}
use mathlib.Core.Logic.{inl, inr}
use spkdfs.Prelude.Tests.{Bool-cases, some_injective}

module _ {ℓ} {A : Type ℓ} where
  abbrev pub length : List A → ℕ
  length [] = 0
  length (x ∷ xs) = suc (length xs)

  abbrev pub get_elem? : List A → ℕ → Option A
  get_elem? [] i = none
  get_elem? (x ∷ xs) zero = some x
  get_elem? (x ∷ xs) (suc i) = get_elem? xs i

  abbrev pub take : ℕ → List A → List A
  take zero xs = []
  take (suc n) [] = []
  take (suc n) (x ∷ xs) = x ∷ take n xs

  abbrev pub drop : ℕ → List A → List A
  drop zero xs = xs
  drop (suc n) [] = []
  drop (suc n) (x ∷ xs) = drop n xs

  abbrev pub replicate : ℕ → A → List A
  replicate zero a = []
  replicate (suc n) a = a ∷ replicate n a

  -- `pop_back`, which the standard leaves undefined on an empty sequence: nothing is dropped.
  abbrev pub pop_back : List A → List A
  pop_back [] = []
  pop_back (x ∷ []) = []
  pop_back (x ∷ y ∷ xs) = x ∷ pop_back (y ∷ xs)

  abbrev pub last? : List A → Option A
  last? [] = none
  last? (x ∷ []) = some x
  last? (x ∷ y ∷ xs) = last? (y ∷ xs)

  -- `remove_if` with `erase` keeps the items that fail the test.
  abbrev pub keep_if : (A → Bool) → List A → List A
  keep_if p [] = []
  keep_if p (x ∷ xs) = let rest = keep_if p xs in elim (p x) [ true ↦ x ∷ rest | false ↦ rest ]

  abbrev pub any : (A → Bool) → List A → Bool
  any p [] = false
  any p (x ∷ xs) = let rest = any p xs in elim (p x) [ true ↦ true | false ↦ rest ]

  pub length-append : (xs ys : List A) → length (xs ++ ys) ≡ length xs + length ys
  length-append [] ys = omega arith
  length-append (x ∷ xs) ys = omega (arith, length-append xs ys)

  pub pop_back-append : (xs : List A) (y : A) → pop_back (xs ++ y ∷ []) ≡ xs
  pop_back-append [] y = refl
  pop_back-append (x ∷ []) y = refl
  pop_back-append (x ∷ x' ∷ xs) y = ap (λ l. x ∷ l) (pop_back-append (x' ∷ xs) y)

  pub last?-append : (xs : List A) (y : A) → last? (xs ++ y ∷ []) ≡ some y
  last?-append [] y = refl
  last?-append (x ∷ []) y = refl
  last?-append (x ∷ x' ∷ xs) y = last?-append (x' ∷ xs) y

  pub length-keep_if-le : (p : A → Bool) (xs : List A) → length (keep_if p xs) ≤ length xs
  length-keep_if-le p [] = omega arith
  length-keep_if-le p (x ∷ xs) = ground (arith, length-keep_if-le p xs)

  pub keep_if-eq-cons :
      (p : A → Bool) (x : A) (xs : List A) → p x ≡ true → keep_if p (x ∷ xs) ≡ x ∷ keep_if p xs
  keep_if-eq-cons p x xs e = ground (arith, e)

  pub keep_if-eq-rest :
      (p : A → Bool) (x : A) (xs : List A) → p x ≡ false → keep_if p (x ∷ xs) ≡ keep_if p xs
  keep_if-eq-rest p x xs e = ground (arith, e)

  -- What an item that was kept is, and where it stood.
  pub get_elem?-keep_if :
      (p : A → Bool) (xs : List A) (i : ℕ) {a : A}
      → get_elem? (keep_if p xs) i ≡ some a
      → (p a ≡ true) × (j : ℕ) × (get_elem? xs j ≡ some a)
  get_elem?-keep_if p [] i e = absurd (cc)
  get_elem?-keep_if p (x ∷ xs) i {a} e = elim (Bool-cases (p x)) [
    | inl q ↦
        go i (λ i f. get_elem?-keep_if p xs i f) q
          (subst (λ (l : List A). get_elem? l i ≡ some a) (keep_if-eq-cons p x xs q) e)
    | inr q ↦
        let (h, j, f) =
          get_elem?-keep_if p xs i
            (subst (λ (l : List A). get_elem? l i ≡ some a) (keep_if-eq-rest p x xs q) e) in
        (h, suc j, f)
  ]
    where
      go :
          (i : ℕ)
          → ((i : ℕ)
              → get_elem? (keep_if p xs) i ≡ some a
              → (p a ≡ true) × (j : ℕ) × (get_elem? xs j ≡ some a))
          → p x ≡ true
          → get_elem? (x ∷ keep_if p xs) i ≡ some a
          → (p a ≡ true) × (j : ℕ) × (get_elem? (x ∷ xs) j ≡ some a)
      go zero ih q f = (ap p (sym (some_injective f)) ∙ q, 0, f)
      go (suc i) ih q f = let (h, j, g) = ih i f in (h, suc j, g)

-- A predicate on every item, by recursion.
abbrev pub All {ℓ κ} : {A : Type ℓ} → (A → Type κ) → List A → Type κ
All P [] = Unit
All P (x ∷ xs) = P x × All P xs

pub All-append {ℓ κ} :
    {A : Type ℓ} (P : A → Type κ) (xs ys : List A) → All P xs → All P ys → All P (xs ++ ys)
All-append P [] ys hx hy = hy
All-append P (x ∷ xs) ys hx hy = (hx.0, All-append P xs ys hx.1 hy)

pub All-right {ℓ κ} : {A : Type ℓ} (P : A → Type κ) (xs ys : List A) → All P (xs ++ ys) → All P ys
All-right P [] ys h = h
All-right P (x ∷ xs) ys h = All-right P xs ys h.1
