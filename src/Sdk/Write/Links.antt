-- ===== src/Sdk/Write/Links.antt =====
-- Files that pieces are appended to, and the links of their indexes.
use spkdfs.Prelude.{
  ℕ, zero, suc, ◌+◌, ◌<◌, ◌≡◌, refl, ap, ◌∙◌, inl, inr, Bool, true, false, Bool-cases, some,
  some_injective, List, [], ◌∷◌, ◌++◌, length, get_elem?, ◌==◌, ==_refl, if◌then◌else◌, arith,
}
use spkdfs.Exn.{Text}
use spkdfs.Sdk.Read.{find_file}
use spkdfs.Sdk.Read.Kept.{find_file-set_file, find_file-set_file_other}
use spkdfs.Sdk.Write.{Local, held, append_file, remove_link, ln_path_index}

abbrev pub put_one : Local → ℕ → Text → Local
put_one l index p = record {
  files = append_file l.files index p;
  linked = ln_path_index index l.linked;
}

-- The pieces are appended to the files from an index on, and these are linked.
abbrev pub put_each : Local → ℕ → List Text → Local
put_each l index [] = l
put_each l index (p ∷ ps) = put_each (put_one l index p) (index + 1) ps

find_file-put_each_before :
    (l : Local) (index : ℕ) (pieces : List Text) (i : ℕ)
    → i < index
    → find_file (put_each l index pieces).files i ≡ find_file l.files i
unfolding append_file
find_file-put_each_before l index [] i h = refl
find_file-put_each_before l index (p ∷ ps) i h =
    let other : (index == i) ≡ false = ground arith in
    find_file-put_each_before (put_one l index p) (index + 1) ps i (omega arith)
    ∙ find_file-set_file_other index i _ l.files other

-- Every piece stands at the end of its file.
pub find_file-put_each :
    (l : Local) (index : ℕ) (pieces : List Text) (k : ℕ) (p : Text)
    → get_elem? pieces k ≡ some p
    → find_file (put_each l index pieces).files (index + k)
      ≡ some (held (find_file l.files (index + k)) ++ p)
unfolding append_file
find_file-put_each l index [] k p h = absurd (cc)
find_file-put_each l index (q ∷ ps) zero p h =
    let e : index + 0 ≡ index = omega arith in
    rw e (
      find_file-put_each_before (put_one l index q) (index + 1) ps index (omega arith)
      ∙ find_file-set_file index _ l.files
      ∙ ap (λ t. some (held (find_file l.files index) ++ t)) (some_injective h))
find_file-put_each l index (q ∷ ps) (suc k) p h =
    let e : index + suc k ≡ index + 1 + k = omega arith in
    let other : (index == index + 1 + k) ≡ false = ground arith in
    rw e (
      find_file-put_each (put_one l index q) (index + 1) ps k p h
      ∙ ap (λ o. some (held o ++ p))
          (find_file-set_file_other index (index + 1 + k) _ l.files other))

abbrev pub is_linked : ℕ → List ℕ → Bool
is_linked i [] = false
is_linked i (j ∷ linked) = let rest = is_linked i linked in if j == i then true else rest

is_linked-remove_link :
    (i j : ℕ) (linked : List ℕ)
    → (j == i) ≡ false
    → is_linked i linked ≡ true
    → is_linked i (remove_link j linked) ≡ true
unfolding remove_link
is_linked-remove_link i j [] h e = cc
is_linked-remove_link i j (x ∷ linked) h e = elim (Bool-cases (x == i)) [
  | inl here ↦ let other : (x == j) ≡ false = ground arith in rw other (rw here refl)
  | inr other ↦ elim (Bool-cases (x == j)) [
    | inl gone ↦ rw gone (is_linked-remove_link i j linked h (rw other at e))
    | inr stays ↦ rw stays (rw other (is_linked-remove_link i j linked h (rw other at e)))
  ]
]

is_linked-ln_path_index :
    (i j : ℕ) (linked : List ℕ)
    → is_linked i linked ≡ true
    → is_linked i (ln_path_index j linked) ≡ true
unfolding ln_path_index
is_linked-ln_path_index i j linked e = elim (Bool-cases (j == i)) [
  | inl same ↦ rw same refl
  | inr other ↦ rw other (is_linked-remove_link i j linked other e)
]

is_linked-put_each_kept :
    (l : Local) (index : ℕ) (pieces : List Text) (i : ℕ)
    → is_linked i l.linked ≡ true
    → is_linked i (put_each l index pieces).linked ≡ true
is_linked-put_each_kept l index [] i h = h
is_linked-put_each_kept l index (p ∷ ps) i h =
    is_linked-put_each_kept (put_one l index p) (index + 1) ps i
      (is_linked-ln_path_index i index l.linked h)

pub is_linked-put_each :
    (l : Local) (index : ℕ) (pieces : List Text) (k : ℕ)
    → k < length pieces
    → is_linked (index + k) (put_each l index pieces).linked ≡ true
unfolding ln_path_index
is_linked-put_each l index [] k h = absurd (omega arith)
is_linked-put_each l index (p ∷ ps) zero h =
    let e : index + 0 ≡ index = omega arith in
    rw e
      (is_linked-put_each_kept (put_one l index p) (index + 1) ps index (rw (==_refl index) refl))
is_linked-put_each l index (p ∷ ps) (suc k) h =
    let e : index + suc k ≡ index + 1 + k = omega arith in
    rw e (is_linked-put_each (put_one l index p) (index + 1) ps k (omega arith))
