-- ===== src/Sdk/Fsync/Order.antt =====
-- The sorted indexes of the blocks that were written.
use spkdfs.Prelude.{
  ℕ, ◌≤◌, ◌≡◌, refl, ap, ◌∙◌, inl, inr, Bool, true, false, Bool-cases, ==_iff, ==_refl, List, [],
  ◌∷◌, leb, ◌==◌, if◌then◌else◌, arith,
}
use spkdfs.Sdk.Write.Links.{is_linked}
use spkdfs.Sdk.Fsync.{back, insert_index, sort_indexes}

swapped :
    (a b c : Bool)
    → (if b then true else (if a then true else c)) ≡ (if a then true else (if b then true else c))
swapped true true c = refl
swapped true false c = refl
swapped false true c = refl
swapped false false c = refl

is_linked-insert_index :
    (i k : ℕ) (res : List ℕ)
    → is_linked k (insert_index i res) ≡ (if i == k then true else is_linked k res)
unfolding insert_index
is_linked-insert_index i k [] = refl
is_linked-insert_index i k (j ∷ res) = elim (Bool-cases (leb i j)) [
  | inl low ↦ rw low refl
  | inr high ↦
      rw high (rw (is_linked-insert_index i k res) (swapped (i == k) (j == k) (is_linked k res)))
]

pub is_linked-sort_indexes :
    (k : ℕ) (res : List ℕ) → is_linked k (sort_indexes res) ≡ is_linked k res
unfolding sort_indexes
is_linked-sort_indexes k [] = refl
is_linked-sort_indexes k (i ∷ res) =
    is_linked-insert_index i k (sort_indexes res)
    ∙ ap (λ b. if i == k then true else b) (is_linked-sort_indexes k res)

-- Sorted: no item is larger than the last.
abbrev pub IsSorted : List ℕ → Type 0
IsSorted [] = Unit
IsSorted (i ∷ []) = Unit
IsSorted (i ∷ j ∷ js) = (i ≤ j) × IsSorted (j ∷ js)

insert_index-IsSorted : (i : ℕ) (js : List ℕ) → IsSorted js → IsSorted (insert_index i js)
unfolding insert_index
insert_index-IsSorted i [] h = tt
insert_index-IsSorted i (j ∷ []) h = elim (Bool-cases (leb i j)) [
  | inl low ↦ rw low (ground arith, tt)
  | inr high ↦ rw high (ground arith, tt)
]
insert_index-IsSorted i (j ∷ k ∷ js) h = elim (Bool-cases (leb i j)) [
  | inl low ↦ rw low (ground arith, h)
  | inr high ↦ rw high (elim (Bool-cases (leb i k)) [
    | inl low ↦ rw low (ground arith, (ground arith, h.1))
    | inr higher ↦
        let rest : IsSorted (insert_index i (k ∷ js)) = insert_index-IsSorted i (k ∷ js) h.1 in
        rw higher (h.0, rw higher at rest)
  ])
]

pub sort_indexes-IsSorted : (is : List ℕ) → IsSorted (sort_indexes is)
unfolding sort_indexes
sort_indexes-IsSorted [] = tt
sort_indexes-IsSorted (i ∷ is) =
    insert_index-IsSorted i (sort_indexes is) (sort_indexes-IsSorted is)

pub linked_tail : (i k : ℕ) (res : List ℕ) → is_linked k res ≡ true → is_linked k (i ∷ res) ≡ true
linked_tail i k res e = elim (Bool-cases (i == k)) [
  | inl here ↦ rw here refl
  | inr other ↦ rw other e
]

pub unlinked :
    (i k : ℕ) (res : List ℕ)
    → is_linked k (i ∷ res) ≡ false
    → ((i == k) ≡ false) × (is_linked k res ≡ false)
unlinked i k res e = elim (Bool-cases (i == k)) [
  | inl here ↦ let e' = rw here at e in absurd (cc)
  | inr other ↦ (other, rw other at e)
]

pub linked_here :
    (i k : ℕ) (res : List ℕ) → is_linked k (i ∷ res) ≡ true → is_linked k res ≡ false → i ≡ k
linked_here i k res e no_link = elim (Bool-cases (i == k)) [
  | inl here ↦ (==_iff i k).0 here
  | inr other ↦ let e' = rw other at e in absurd (cc)
]

pub back-le :
    (k i : ℕ) (js : List ℕ) → IsSorted (i ∷ js) → is_linked k (i ∷ js) ≡ true → k ≤ back i js
unfolding back
back-le k i [] h e = ground arith
back-le k i (j ∷ js) h e = elim (Bool-cases (i == k)) [
  | inl here ↦ let rest = back-le j j js h.1 (rw (==_refl j) refl) in ground arith
  | inr other ↦ back-le k j js h.1 (rw other at e)
]

pub is_linked-back : (i : ℕ) (js : List ℕ) → is_linked (back i js) (i ∷ js) ≡ true
unfolding back
is_linked-back i [] = rw (==_refl i) refl
is_linked-back i (j ∷ js) = linked_tail i (back j js) (j ∷ js) (is_linked-back j js)
