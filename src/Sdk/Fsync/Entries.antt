-- ===== src/Sdk/Fsync/Entries.antt =====
-- The texts of an inode's blocks, after one is set or more are added.
use spkdfs.Prelude.{
  ◌≤◌, ◌+◌, ℕ, zero, suc, ◌<◌, max, ◌≡◌, refl, ap, false, some, List, [], ◌∷◌, length, get_elem?,
  ◌==◌, arith,
}
use spkdfs.Exn.{Text}
use spkdfs.Sdk.Write.{held}
use spkdfs.Sdk.Fsync.{resize_sub, set_sub}

-- An item, where there is none an empty text.
abbrev pub item : List Text → ℕ → Text
item sub i = held (get_elem? sub i)

pub get_elem?-set_sub :
    (i : ℕ) (t : Text) (sub : List Text) → i < length sub → get_elem? (set_sub i t sub) i ≡ some t
unfolding set_sub
get_elem?-set_sub i t [] h = absurd (omega arith)
get_elem?-set_sub zero t (x ∷ sub) h = refl
get_elem?-set_sub (suc i) t (x ∷ sub) h = get_elem?-set_sub i t sub (omega arith)

pub get_elem?-set_sub_other :
    (i k : ℕ) (t : Text) (sub : List Text)
    → (i == k) ≡ false
    → get_elem? (set_sub i t sub) k ≡ get_elem? sub k
unfolding set_sub
get_elem?-set_sub_other i k t [] h = refl
get_elem?-set_sub_other zero zero t (x ∷ sub) h = absurd (ground arith)
get_elem?-set_sub_other zero (suc k) t (x ∷ sub) h = refl
get_elem?-set_sub_other (suc i) zero t (x ∷ sub) h = refl
get_elem?-set_sub_other (suc i) (suc k) t (x ∷ sub) h =
    get_elem?-set_sub_other i k t sub (ground arith)

pub length-set_sub : (i : ℕ) (t : Text) (sub : List Text) → length (set_sub i t sub) ≡ length sub
unfolding set_sub
length-set_sub i t [] = refl
length-set_sub zero t (x ∷ sub) = refl
length-set_sub (suc i) t (x ∷ sub) = ap suc (length-set_sub i t sub)

pub item-resize_sub : (n : ℕ) (sub : List Text) (i : ℕ) → item (resize_sub n sub) i ≡ item sub i
unfolding resize_sub
item-resize_sub zero sub i = refl
item-resize_sub (suc n) [] zero = refl
item-resize_sub (suc n) [] (suc i) = item-resize_sub n [] i
item-resize_sub (suc n) (x ∷ sub) zero = refl
item-resize_sub (suc n) (x ∷ sub) (suc i) = item-resize_sub n sub i

pub length-resize_sub : (n : ℕ) (sub : List Text) → length (resize_sub n sub) ≡ max n (length sub)
unfolding resize_sub
length-resize_sub zero sub = omega arith
length-resize_sub (suc n) [] = omega (arith, length-resize_sub n [])
length-resize_sub (suc n) (x ∷ sub) = omega (arith, length-resize_sub n sub)

pub lt-resize_sub : (n : ℕ) (sub : List Text) (k : ℕ) → k ≤ n → k < length (resize_sub (n + 1) sub)
lt-resize_sub n sub k h = omega (arith, length-resize_sub (n + 1) sub)
