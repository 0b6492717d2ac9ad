-- ===== src/Text/Decimal.antt =====
-- `std::to_string(int)` and `std::stoi`.
pub mod RoundTrip
pub mod Range
use spkdfs.Prelude.{
  Bool, ◌&&◌, ◌||◌, ℕ, zero, suc, ◌+◌, ◌-◌, ◌*◌, ◌/◌, ◌%◌, [], ◌∷◌, ◌==◌, leb, if◌then◌else◌,
}
use spkdfs.Prelude.Int.{ℤ, pos, negsuc, int_max}
use spkdfs.Exn.{Text, Result, ok, throw, runtime_error}
use spkdfs.Text.Bytes.{codes}

-- Digits are put in front of `out`; each round divides by ten, so `n + 1` rounds are enough.
emit : ℕ → ℕ → Text → Text
emit zero n out = out
emit (suc f) n out =
    let rest = emit f (n / 10) ((b'0' + n % 10) ∷ out) in
    if n / 10 == 0 then (b'0' + n % 10) ∷ out else rest

-- `to_string` of a number that is not negative
unfoldable pub print : ℕ → Text
unfolding emit
print n = emit (suc n) n []

unfoldable pub to_string : ℤ → Text
unfolding print
to_string (pos n) = print n
to_string (negsuc n) = b'-' ∷ print (suc n)

unfoldable pub is_digit : ℕ → Bool
is_digit c = leb b'0' c && leb c b'9'

-- The leading digits, read as a number after `acc`.
unfoldable pub read_digits : Text → ℕ → ℕ
unfolding is_digit
read_digits [] acc = acc
read_digits (c ∷ s) acc =
    let rest = read_digits s (acc * 10 + (c - b'0')) in if is_digit c then rest else acc

is_space : ℕ → Bool
is_space c = c == 32 || (leb 9 c && leb c 13)

skip_spaces : Text → Text
unfolding is_space
skip_spaces [] = []
skip_spaces (c ∷ s) = let rest = skip_spaces s in if is_space c then rest else c ∷ s

invalid_argument : {A : Type 0} → Result A
invalid_argument = throw (runtime_error (codes "stoi: no conversion"))

out_of_range : {A : Type 0} → Result A
out_of_range = throw (runtime_error (codes "stoi: out of range"))

-- At least one digit is wanted; what follows the digits is ignored.
positive : Text → Result ℤ
unfolding is_digit invalid_argument out_of_range
positive [] = invalid_argument
positive (c ∷ s) =
    let n = read_digits (c ∷ s) 0 in
    if is_digit c then if leb n int_max then ok (pos n) else out_of_range else invalid_argument

negative : Text → Result ℤ
unfolding is_digit invalid_argument out_of_range
negative [] = invalid_argument
negative (c ∷ s) =
    let n = read_digits (c ∷ s) 0 in
    if is_digit c
    then if n == 0
      then ok (pos 0)
      else if leb n (suc int_max)
      then ok (negsuc (n - 1))
      else out_of_range
    else invalid_argument

after_spaces : Text → Result ℤ
unfolding positive negative
after_spaces [] = positive []
after_spaces (c ∷ s) =
    if c == b'-' then negative s else if c == b'+' then positive s else positive (c ∷ s)

unfoldable pub stoi : Text → Result ℤ
unfolding after_spaces skip_spaces read_digits
stoi s = after_spaces (skip_spaces s)
