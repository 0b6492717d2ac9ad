-- ===== src/Storage.antt =====
-- The storage types of include/common/inode.h and src/common/inode.cpp: erasure coding `RS<k,m,b>`
-- and replication `RE<replications,b>`. liberasurecode is a parameter.
pub mod Format
pub mod Coding
pub mod JsonForm
use spkdfs.Prelude.{
  ℕ, ◌+◌, ◌*◌, ◌-◌, Bool, Option, none, some, [], ◌∷◌, ◌++◌, ◌==◌, leb, if◌then◌else◌,
}
use spkdfs.Prelude.Int.{ℤ, pos, negsuc, lt_int, int_max}
use spkdfs.Exn.{Text, Result, ok, throw, abort, runtime_error, ◌>>=◌}
use spkdfs.Text.{codes}
use spkdfs.Text.Decimal.{stoi, to_string, is_digit}

pub data StorageType : Type 0 where
  rs : ℤ → ℤ → ℤ → StorageType
  re : ℤ → ℤ → StorageType

abbrev rs_mark : Text
rs_mark = b'R' ∷ b'S' ∷ b'<' ∷ []

abbrev re_mark : Text
re_mark = b'R' ∷ b'E' ∷ b'<' ∷ []

unfoldable pub storage_to_string : StorageType → Text
storage_to_string (rs k m b) =
    rs_mark ++ (to_string k ++ b',' ∷ (to_string m ++ b',' ∷ (to_string b ++ b'>' ∷ [])))
storage_to_string (re replications b) =
    re_mark ++ (to_string replications ++ b',' ∷ (to_string b ++ b'>' ∷ []))

-- A group `(\d+)` of the pattern and the byte behind it: the digits, and the rest of the text.
unfoldable pub group : ℕ → Text → Option (Text × Text)
group end [] = none
group end (c ∷ s) =
    let rest = group end s in
    if is_digit c
    then elim rest [ none ↦ none | some (digits, s') ↦ some (c ∷ digits, s') ]
    else if c == end
    then some ([], s)
    else none

-- `+` wants one digit at least.
unfoldable pub digits_then : ℕ → Text → Option (Text × Text)
unfolding group
digits_then end [] = none
digits_then end (c ∷ s) = if is_digit c then group end (c ∷ s) else none

infixl 5 ◌then?◌
abbrev ◌then?◌ {ℓ κ} : {A : Type ℓ} {B : Type κ} → Option A → (A → Option B) → Option B
none then? f = none
some a then? f = f a

abbrev at_end : {A : Type 0} → A → Text → Option A
at_end a [] = some a
at_end a (c ∷ s) = none

-- The groups that `regex_match` finds, for each side of the pattern's bar.
unfoldable pub match_rs : Text → Option (Text × Text × Text)
unfolding digits_then
match_rs s = digits_then b',' s then? λ (k, s1).
    digits_then b',' s1 then? λ (m, s2). digits_then b'>' s2 then? λ (b, s3). at_end (k, m, b) s3

unfoldable pub match_re : Text → Option (Text × Text)
unfolding digits_then
match_re s = digits_then b',' s then? λ (replications, s1).
    digits_then b'>' s1 then? λ (b, s2). at_end (replications, b) s2

-- The text behind a literal that the input begins with.
unfoldable pub behind : Text → Text → Option Text
behind [] s = some s
behind (c ∷ mark) [] = none
behind (c ∷ mark) (d ∷ s) = let rest = behind mark s in if c == d then rest else none

unsolved : Text → Result StorageType
unsolved input = throw (runtime_error (codes "cannot solve " ++ input))

rs_of_groups : Text → Option (Text × Text × Text) → Result StorageType
rs_of_groups input none = unsolved input
rs_of_groups input (some (k, m, b)) = do k ← stoi k; m ← stoi m; b ← stoi b; ok (rs k m b)

re_of_groups : Text → Option (Text × Text) → Result StorageType
re_of_groups input none = unsolved input
re_of_groups input (some (replications, b)) = do
  replications ← stoi replications
  b ← stoi b
  ok (re replications b)

re_of_mark : Text → Option Text → Result StorageType
re_of_mark input none = unsolved input
re_of_mark input (some s) = re_of_groups input (match_re s)

rs_of_mark : Text → Option Text → Result StorageType
rs_of_mark input none = re_of_mark input (behind re_mark input)
rs_of_mark input (some s) = rs_of_groups input (match_rs s)

-- No text begins with both marks, so the side of the bar is chosen by the mark.
unfoldable pub storage_from_string : Text → Result StorageType
unfolding behind rs_of_groups re_of_groups unsolved re_of_mark rs_of_mark
storage_from_string input = rs_of_mark input (behind rs_mark input)

-- What `int` arithmetic comes to: a result that an `int` does not hold is undefined.
unfoldable pub as_int : ℤ → Result ℤ
as_int (pos n) = if leb n int_max then ok (pos n) else abort
as_int (negsuc n) = if leb n int_max then ok (negsuc n) else abort

-- `b * 1024 * 1024`
unfoldable pub mebibytes : ℤ → Result ℤ
unfolding as_int
mebibytes (pos n) = as_int (pos (n * 1024 * 1024))
mebibytes (negsuc n) = as_int (negsuc ((n + 1) * 1024 * 1024 - 1))

unfoldable pub get_block_size : StorageType → Result ℤ
unfolding mebibytes
get_block_size (rs k m b) = mebibytes b
get_block_size (re replications b) = mebibytes b

abbrev pub add_int : ℤ → ℤ → ℤ
add_int (pos a) (pos b) = pos (a + b)
add_int (pos a) (negsuc b) = if leb (b + 1) a then pos (a - (b + 1)) else negsuc (b - a)
add_int (negsuc a) (pos b) = if leb (a + 1) b then pos (b - (a + 1)) else negsuc (a - b)
add_int (negsuc a) (negsuc b) = negsuc (a + b + 1)

unfoldable pub get_blocks : StorageType → ℤ
get_blocks (rs k m b) = add_int k m
get_blocks (re replications b) = replications

unfoldable pub get_decode_blocks : StorageType → ℤ
get_decode_blocks (rs k m b) = k
get_decode_blocks (re replications b) = pos 1

-- Whether so many stored fragments count as enough.
unfoldable pub check : StorageType → ℤ → Bool
check (rs k m b) succ = lt_int k succ
check (re replications b) succ = lt_int (pos 0) succ
