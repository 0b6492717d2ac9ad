-- ===== src/Text/Decimal/Range.antt =====
-- What `stoi` returns is an `int`.
use spkdfs.Prelude.{◌≡◌, subst, Bool-cases, inl, inr, suc, [], ◌∷◌, ◌==◌, leb, arith}
use spkdfs.Prelude.Int.{ℤ, IsInt, int_max}
use spkdfs.Exn.{Text, ok, Result, throw, abort}
use spkdfs.Text.Decimal.{stoi, after_spaces, positive, negative, skip_spaces, is_digit, read_digits}

abbrev Bounded : Result ℤ → Type 0
Bounded (ok z) = IsInt z
Bounded (throw e) = Unit
Bounded abort = Unit

positive-Bounded : (s : Text) → Bounded (positive s)
unfolding positive
positive-Bounded [] = tt
positive-Bounded (c ∷ s) = elim (Bool-cases (is_digit c)) [
  | inr d ↦ rw d tt
  | inl d ↦ elim (Bool-cases (leb (read_digits (c ∷ s) 0) int_max)) [
    | inl e ↦ rw (d, e) (ground arith)
    | inr e ↦ rw (d, e) tt
  ]
]

negative-Bounded : (s : Text) → Bounded (negative s)
unfolding negative
negative-Bounded [] = tt
negative-Bounded (c ∷ s) = elim (Bool-cases (is_digit c)) [
  | inr d ↦ rw d tt
  | inl d ↦ elim (Bool-cases (read_digits (c ∷ s) 0 == 0)) [
    | inl z ↦ rw (d, z) (omega arith)
    | inr z ↦ elim (Bool-cases (leb (read_digits (c ∷ s) 0) (suc int_max))) [
      | inl e ↦ rw (d, z, e) (ground arith)
      | inr e ↦ rw (d, z, e) tt
    ]
  ]
]

after_spaces-Bounded : (s : Text) → Bounded (after_spaces s)
unfolding after_spaces
after_spaces-Bounded [] = positive-Bounded []
after_spaces-Bounded (c ∷ s) = elim (Bool-cases (c == b'-')) [
  | inl m ↦ rw m (negative-Bounded s)
  | inr m ↦ elim (Bool-cases (c == b'+')) [
    | inl p ↦ rw (m, p) (positive-Bounded s)
    | inr p ↦ rw (m, p) (positive-Bounded (c ∷ s))
  ]
]

pub stoi-IsInt : (s : Text) {z : ℤ} → stoi s ≡ ok z → IsInt z
unfolding stoi
stoi-IsInt s e = subst Bounded e (after_spaces-Bounded (skip_spaces s))
