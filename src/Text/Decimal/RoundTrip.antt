-- ===== src/Text/Decimal/RoundTrip.antt =====
-- What `to_string` prints is all digits after the sign, and `stoi` reads it back.
use spkdfs.Prelude.{
  ◌≡◌, refl, ◌∙◌, ap, false, true, ℕ, zero, suc, ◌+◌, ◌*◌, ◌/◌, ◌%◌, ◌≤◌, ◌<◌, [], ◌∷◌, ◌++◌, arith,
  ◌==◌, All, Bool-cases, inl, inr,
}
use spkdfs.Prelude.Int.{ℤ, pos, negsuc, IsInt, int_max}
use spkdfs.Exn.{Text, ok}
use spkdfs.Text.Split.{Lacks}
use spkdfs.Text.Decimal.{emit, print, to_string, stoi, is_digit, read_digits, negative}

abbrev pub IsDigits : Text → Type 0
IsDigits = All (λ c. is_digit c ≡ true)

pub digit-is_digit : (n : ℕ) → is_digit (b'0' + n % 10) ≡ true
unfolding is_digit
digit-is_digit n = ground arith

emit-append : (f n : ℕ) (out s : Text) → emit f n (out ++ s) ≡ emit f n out ++ s
unfolding emit
emit-append zero n out s = refl
emit-append (suc f) n out s = elim (Bool-cases (n / 10 == 0)) [
  | inl e ↦ rw e
  | inr e ↦ rw e (emit-append f (n / 10) ((b'0' + n % 10) ∷ out) s)
]

emit-IsDigits : (f n : ℕ) (out : Text) → IsDigits out → IsDigits (emit f n out)
unfolding emit
emit-IsDigits zero n out h = h
emit-IsDigits (suc f) n out h = elim (Bool-cases (n / 10 == 0)) [
  | inl e ↦ rw e (digit-is_digit n, h)
  | inr e ↦ rw e (emit-IsDigits f (n / 10) ((b'0' + n % 10) ∷ out) (digit-is_digit n, h))
]

pub print-IsDigits : (n : ℕ) → IsDigits (print n)
unfolding print
print-IsDigits n = emit-IsDigits (suc n) n [] tt

-- The text that is printed is not empty.
pub print_first : (n : ℕ) → (c : ℕ) × (s : Text) × (print n ≡ c ∷ s) × (is_digit c ≡ true)
unfolding print
print_first n = go n n []
  where
    more :
        (f n c : ℕ) (out : Text)
        → is_digit c ≡ true
        → (a : ℕ) × (s : Text) × (emit f n (c ∷ out) ≡ a ∷ s) × (is_digit a ≡ true)
    more zero n c out h = (c, out, refl, h)
    more (suc f) n c out h = elim (Bool-cases (n / 10 == 0)) [
      | inl e ↦ (b'0' + n % 10, c ∷ out, rw e, digit-is_digit n)
      | inr e ↦
          let (a, s, p, q) = more f (n / 10) (b'0' + n % 10) (c ∷ out) (digit-is_digit n) in
          (a, s, rw e p, q)
    ]

    go :
        (f n : ℕ) (out : Text)
        → (a : ℕ) × (s : Text) × (emit (suc f) n out ≡ a ∷ s) × (is_digit a ≡ true)
    go f n out = elim (Bool-cases (n / 10 == 0)) [
      | inl e ↦ (b'0' + n % 10, out, rw e, digit-is_digit n)
      | inr e ↦
          let (a, s, p, q) = more f (n / 10) (b'0' + n % 10) out (digit-is_digit n) in
          (a, s, rw e p, q)
    ]

read_digits-digit :
    (n acc : ℕ) (s : Text)
    → read_digits ((b'0' + n % 10) ∷ s) acc ≡ read_digits s (acc * 10 + n % 10)
unfolding read_digits
read_digits-digit n acc s =
    rw (digit-is_digit n) (ap (λ k. read_digits s (acc * 10 + k)) (omega arith))

read_digits-emit : (f n : ℕ) (out : Text) → n < f → read_digits (emit f n out) 0 ≡ read_digits out n
unfolding emit
read_digits-emit zero n out h = absurd (omega arith)
read_digits-emit (suc f) n out h = elim (Bool-cases (n / 10 == 0)) [
  | inl e ↦ rw e (read_digits-digit n 0 out ∙ ap (read_digits out) (ground arith))
  | inr e ↦ rw e (
      read_digits-emit f (n / 10) ((b'0' + n % 10) ∷ out) (ground arith)
      ∙ read_digits-digit n (n / 10) out
      ∙ ap (read_digits out) (omega arith))
]

pub read_digits-print : (n : ℕ) → read_digits (print n) 0 ≡ n
unfolding print read_digits
read_digits-print n = read_digits-emit (suc n) n [] (omega arith)

-- An `int` that is not negative is read back from what is printed for it.
pub stoi-print : (n : ℕ) → n ≤ int_max → stoi (print n) ≡ ok (pos n)
unfolding stoi
stoi-print n h =
    let (c, s, e, d) = print_first n in rw e (go c s d (ap (λ t. read_digits t 0) e ∙ refl))
  where
    go :
        (c : ℕ) (s : Text)
        → is_digit c ≡ true
        → read_digits (print n) 0 ≡ read_digits (c ∷ s) 0
        → stoi (c ∷ s) ≡ ok (pos n)
    go c s d p = ground (arith, read_digits-print n)

negative-print : (n : ℕ) → n ≤ int_max → negative (print (suc n)) ≡ ok (negsuc n)
unfolding stoi
negative-print n h =
    let (c, s, e, d) = print_first (suc n) in rw e (go c s d (ap (λ t. read_digits t 0) e ∙ refl))
  where
    go :
        (c : ℕ) (s : Text)
        → is_digit c ≡ true
        → read_digits (print (suc n)) 0 ≡ read_digits (c ∷ s) 0
        → negative (c ∷ s) ≡ ok (negsuc n)
    go c s d p = ground (arith, read_digits-print (suc n))

-- Every `int` is read back from what is printed for it.
pub stoi-to_string : (z : ℤ) → IsInt z → stoi (to_string z) ≡ ok z
unfolding to_string
stoi-to_string (pos n) h = stoi-print n h
stoi-to_string (negsuc n) h = unfold stoi in negative-print n h

pub to_string_first : (z : ℤ) → (c : ℕ) × (s : Text) × (to_string z ≡ c ∷ s)
unfolding to_string
to_string_first (pos n) = let (c, s, e, d) = print_first n in (c, s, e)
to_string_first (negsuc n) = (b'-', print (suc n), refl)

digits-Lacks : (d : ℕ) (s : Text) → is_digit d ≡ false → IsDigits s → Lacks d s
digits-Lacks d [] h hs = tt
digits-Lacks d (c ∷ s) h hs = (unfold is_digit in ground arith, digits-Lacks d s h hs.1)

-- What is printed holds no byte but digits and the sign.
pub to_string-Lacks :
    (d : ℕ) (z : ℤ) → is_digit d ≡ false → (b'-' == d) ≡ false → Lacks d (to_string z)
unfolding to_string
to_string-Lacks d (pos n) h hs = digits-Lacks d (print n) h (print-IsDigits n)
to_string-Lacks d (negsuc n) h hs = (hs, digits-Lacks d (print (suc n)) h (print-IsDigits (suc n)))

pub to_string-pos : (n : ℕ) → to_string (pos n) ≡ print n
unfolding to_string
to_string-pos n = refl
