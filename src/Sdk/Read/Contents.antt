-- ===== src/Sdk/Read/Contents.antt =====
-- A file's content as blocks, and what is left of it behind the first ones.
use spkdfs.Prelude.{
  ℕ, zero, suc, ◌+◌, ◌-◌, ◌*◌, ◌≤◌, ◌≡◌, sym, ap, subst, ◌∙◌, List, [], ◌∷◌, ◌++◌, length,
  length-append, drop, drop-add, drop-nil, drop-length_append, arith,
}
use spkdfs.Exn.{Text, Result, ok}

-- A file's content, for its blocks.
abbrev pub contents : List Text → Text
contents [] = []
contents (b ∷ bs) = b ++ contents bs

-- Every block but the last is full.
abbrev pub IsCut : ℕ → List Text → Type 0
IsCut size [] = Unit
IsCut size (b ∷ []) = length b ≤ size
IsCut size (b ∷ c ∷ bs) = (length b ≡ size) × IsCut size (c ∷ bs)

-- The items of `sub` decode to the blocks.
abbrev pub IsDecoded : (Text → Result Text) → List Text → List Text → Type 0
IsDecoded decode [] [] = Unit
IsDecoded decode [] (b ∷ bs) = ⊥
IsDecoded decode (s ∷ ss) [] = ⊥
IsDecoded decode (s ∷ ss) (b ∷ bs) = (decode s ≡ ok b) × IsDecoded decode ss bs

pub IsCut-head : (size : ℕ) (b : Text) (bs : List Text) → IsCut size (b ∷ bs) → length b ≤ size
IsCut-head size b [] h = h
IsCut-head size b (c ∷ bs) h = let full = h.0 in omega arith

pub IsCut-tail : (size : ℕ) (b : Text) (bs : List Text) → IsCut size (b ∷ bs) → IsCut size bs
IsCut-tail size b [] h = tt
IsCut-tail size b (c ∷ bs) h = h.1

pub length-contents :
    (size : ℕ) (blocks : List Text)
    → IsCut size blocks
    → length (contents blocks) ≤ length blocks * size
length-contents size [] h = omega arith
length-contents size (b ∷ []) h = let e = length-append b [] in omega arith
length-contents size (b ∷ c ∷ bs) h =
    let e = length-append b (contents (c ∷ bs)) in
    let full = h.0 in
    let rest = length-contents size (c ∷ bs) h.1 in
    let sum : length (b ∷ c ∷ bs) * size ≡ size + length (c ∷ bs) * size = grind arith in
    omega arith

-- What is left of a range behind the first block.
pub IsCut-rest :
    (size n p : ℕ) (b : Text) (bs : List Text)
    → IsCut size (b ∷ bs)
    → p ≤ (n + 1) * size
    → p ≤ length (contents (b ∷ bs))
    → (p - length b ≤ n * size) × (p - length b ≤ length (contents bs))
IsCut-rest size n p b [] h a l = let e = length-append b [] in (ground arith, ground arith)
IsCut-rest size n p b (c ∷ bs) h a l =
    let e = length-append b (contents (c ∷ bs)) in let full = h.0 in (grind arith, grind arith)

pub contents-drop :
    (size f : ℕ) (blocks : List Text)
    → IsCut size blocks
    → f * size ≤ length (contents blocks)
    → contents (drop f blocks) ≡ drop (f * size) (contents blocks)
contents-drop size zero blocks cut h =
    let e : 0 ≡ 0 * size = omega arith in ap (λ k. drop k (contents blocks)) e
contents-drop size (suc f) [] cut h = sym (drop-nil (suc f * size))
contents-drop size (suc f) (b ∷ []) cut h =
    let l = length-append b [] in
    let full : length b ≡ suc f * size = grind arith in
    ap contents (drop-nil f) ∙ sym (drop-length_append b []) ∙ ap (λ k. drop k (b ++ [])) full
contents-drop size (suc f) (b ∷ c ∷ bs) cut h =
    let l = length-append b (contents (c ∷ bs)) in
    let full = cut.0 in
    let e : size + f * size ≡ suc f * size = grind arith in
    let rest : drop size (b ++ contents (c ∷ bs)) ≡ contents (c ∷ bs) =
      subst (λ k. drop k (b ++ contents (c ∷ bs)) ≡ contents (c ∷ bs)) full
        (drop-length_append b _) in
    contents-drop size f (c ∷ bs) cut.1 (grind arith)
    ∙ ap (drop (f * size)) (sym rest)
    ∙ sym (drop-add size (f * size) (b ++ contents (c ∷ bs)))
    ∙ ap (λ k. drop k (b ++ contents (c ∷ bs))) e

pub IsDecoded-drop :
    (decode : Text → Result Text) (f : ℕ) (subs blocks : List Text)
    → IsDecoded decode subs blocks
    → IsDecoded decode (drop f subs) (drop f blocks)
IsDecoded-drop decode zero subs blocks h = h
IsDecoded-drop decode (suc f) [] [] h = h
IsDecoded-drop decode (suc f) [] (b ∷ bs) h = absurd h
IsDecoded-drop decode (suc f) (s ∷ ss) [] h = absurd h
IsDecoded-drop decode (suc f) (s ∷ ss) (b ∷ bs) h = IsDecoded-drop decode f ss bs h.1

pub IsCut-drop : (size f : ℕ) (blocks : List Text) → IsCut size blocks → IsCut size (drop f blocks)
IsCut-drop size zero blocks h = h
IsCut-drop size (suc f) [] h = h
IsCut-drop size (suc f) (b ∷ bs) h = IsCut-drop size f bs (IsCut-tail size b bs h)
