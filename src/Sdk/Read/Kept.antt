-- ===== src/Sdk/Read/Kept.antt =====
-- The files that keep blocks: what they hold after one is written.
use spkdfs.Prelude.{
  ℕ, ◌≡◌, refl, sym, ap, subst, ◌∙◌, ◌⊎◌, inl, inr, false, Bool-cases, none, some, some_injective,
  List, [], ◌∷◌, get_elem?, ◌==◌, ==_iff, ==_refl,
}
use spkdfs.Exn.{Text}
use spkdfs.Sdk.Read.{Files, find_file, set_file, cached}

-- A file that holds something holds its block.
abbrev pub IsCache : Files → List Text → Type 0
IsCache files blocks =
    (i : ℕ) (b : Text)
    → get_elem? blocks i ≡ some b
    → (cached (find_file files i) ≡ none) ⊎ (cached (find_file files i) ≡ some b)

pub find_file-set_file :
    (i : ℕ) (b : Text) (files : Files) → find_file (set_file i b files) i ≡ some b
unfolding find_file set_file
find_file-set_file i b [] = rw (==_refl i) refl
find_file-set_file i b ((j, t) ∷ files) = elim (Bool-cases (j == i)) [
  | inl e ↦ rw e (rw (==_refl i) refl)
  | inr e ↦ rw e (rw e (find_file-set_file i b files))
]

pub find_file-set_file_other :
    (i k : ℕ) (b : Text) (files : Files)
    → (i == k) ≡ false
    → find_file (set_file i b files) k ≡ find_file files k
unfolding find_file set_file
find_file-set_file_other i k b [] h = rw h refl
find_file-set_file_other i k b ((j, t) ∷ files) h = elim (Bool-cases (j == i)) [
  | inl e ↦ let j_is_i : j ≡ i = (==_iff j i).0 e in rw e (rw j_is_i (rw h refl))
  | inr e ↦ rw e (rw (find_file-set_file_other i k b files h) refl)
]

cached-cases : (b : Text) → (cached (some b) ≡ none) ⊎ (cached (some b) ≡ some b)
cached-cases [] = inl refl
cached-cases (x ∷ xs) = inr refl

pub set_file-IsCache :
    (files : Files) (blocks : List Text) (i : ℕ) (b : Text)
    → get_elem? blocks i ≡ some b
    → IsCache files blocks
    → IsCache (set_file i b files) blocks
set_file-IsCache files blocks i b here h k c there = elim (Bool-cases (i == k)) [
  | inl e ↦
      let i_is_k : i ≡ k = (==_iff i k).0 e in
      let same : b ≡ c = some_injective (sym here ∙ ap (get_elem? blocks) i_is_k ∙ there) in
      subst
        (λ j.
          (cached (find_file (set_file i b files) j) ≡ none)
          ⊎ (cached (find_file (set_file i b files) j) ≡ some c))
        i_is_k
        (rw (find_file-set_file i b files) (
          subst (λ t. (cached (some b) ≡ none) ⊎ (cached (some b) ≡ some t)) same (cached-cases b)))
  | inr e ↦ rw (find_file-set_file_other i k b files e) (h k c there)
]
