-- ===== src/Storage/Coding.antt =====
-- `encode` and `decode` of the storage types (src/common/inode.cpp). liberasurecode is a parameter.
use spkdfs.Prelude.{
  ℕ, zero, suc, ◌+◌, ◌≤◌, ◌<◌, Bool, true, false, ◌≡◌, refl, ap, subst, Bool-cases, inl, inr,
  Option, none, some, List, [], ◌∷◌, ◌++◌, ◌==◌, leb, take, replicate, if◌then◌else◌, length,
  length-append, arith,
}
use spkdfs.Prelude.Int.{ℤ, pos, negsuc}
use spkdfs.Exn.{Text, Result, ok, throw, abort, runtime_error, ◌>>◌, assert}
use spkdfs.Text.{codes}
use spkdfs.Text.Decimal.{to_string}
use spkdfs.Storage.{StorageType, rs, re, add_int}

-- The fragments left when some of them are lost.
pub data IsSelection : List Text → List Text → Type 0 where
  empty : IsSelection [] []
  lost : {xs ys : List Text} (y : Text) → IsSelection xs ys → IsSelection xs (y ∷ ys)
  kept : {xs ys : List Text} (y : Text) → IsSelection xs ys → IsSelection (y ∷ xs) (y ∷ ys)

-- What `liberasurecode_encode` gives: the data and the parity fragments, or an error code.
pub data Encoded : Type 0 where
  fragments : List Text → List Text → Encoded
  failed : ℤ → Encoded

-- liberasurecode, with `none` for a return value of its decoder other than zero.
pub record ErasureCode : Type 0 where
  pub erasure_encode : ℤ → ℤ → Text → Encoded
  pub erasure_decode : ℤ → ℤ → List Text → Option Text

-- An instance of `k` data and `m` parity fragments gives as many, and any `k` of them decode.
pub record IsErasureCode (code : ErasureCode) (k m : ℕ) : Type 0 where
  pub data_count :
      (block : Text) (ds ps : List Text)
      → code.erasure_encode (pos k) (pos m) block ≡ fragments ds ps
      → length ds ≡ k
  pub parity_count :
      (block : Text) (ds ps : List Text)
      → code.erasure_encode (pos k) (pos m) block ≡ fragments ds ps
      → length ps ≡ m
  pub decodes :
      (block : Text) (ds ps some_fragments : List Text)
      → code.erasure_encode (pos k) (pos m) block ≡ fragments ds ps
      → IsSelection some_fragments (ds ++ ps)
      → length some_fragments ≡ k
      → code.erasure_decode (pos k) (pos m) some_fragments ≡ some block

-- A loop `for (int i = 0; i < n; i++)` runs so often.
abbrev pub rounds : ℤ → ℕ
rounds (pos n) = n
rounds (negsuc n) = 0

-- `size >= n`, `n` converted to unsigned: no container is as long as a negative `n` becomes.
abbrev at_least : ℕ → ℤ → Bool
at_least size (pos n) = leb n size
at_least size (negsuc n) = false

abbrev at_most : ℕ → ℤ → Bool
at_most size (pos n) = leb size n
at_most size (negsuc n) = true

-- `for (auto& str : vec) { datas[len++] = str.data(); if (len == k) break; }`
unfoldable pub first_fragments : ℤ → ℕ → List Text → List Text
first_fragments k len [] = []
first_fragments k len (s ∷ vec) =
    let more = first_fragments k (len + 1) vec in
    s ∷ elim k [ pos n ↦ (if len + 1 == n then [] else more) | negsuc n ↦ more ]

module _ (code : ErasureCode) where
  -- `res[i]` for `i < k` is the i-th data fragment, and `res[k + i]` the i-th parity fragment.
  rs_fragments : ℤ → ℤ → Encoded → Result (List Text)
  rs_fragments k m (failed ret) =
      throw (runtime_error (codes "encode error, error code: " ++ to_string ret))
  rs_fragments k m (fragments ds ps) = ok (take (rounds k) ds ++ take (rounds m) ps)

  unfoldable pub encode : StorageType → Text → Result (List Text)
  unfolding rs_fragments
  encode (rs k m b) block = rs_fragments k m (code.erasure_encode k m block)
  encode (re replications b) block = ok (replicate (rounds replications) block)

  or_decode_error : Option Text → Result Text
  or_decode_error none = throw (runtime_error (codes "decode error"))
  or_decode_error (some block) = ok block

  -- `vec.front()`, undefined on an empty vector: the process ends.
  front : List Text → Result Text
  front [] = abort
  front (s ∷ vec) = ok s

  unfoldable pub decode : StorageType → List Text → Result Text
  unfolding or_decode_error front first_fragments
  decode (rs k m b) vec = do
    assert (at_least (length vec) k)
    assert (at_most (length vec) (add_int k m))
    or_decode_error (code.erasure_decode k m (first_fragments k 0 vec))
  decode (re replications b) vec = front vec

pub IsSelection-nil : (xs : List Text) → IsSelection [] xs
IsSelection-nil [] = empty
IsSelection-nil (x ∷ xs) = lost x (IsSelection-nil xs)

length-IsSelection : {xs ys : List Text} → IsSelection xs ys → length xs ≤ length ys
length-IsSelection empty = omega arith
length-IsSelection (lost y s) = omega (arith, length-IsSelection s)
length-IsSelection (kept y s) = omega (arith, length-IsSelection s)

-- The loop stops after `k` fragments.
length-first_fragments :
    (k len : ℕ) (vec : List Text)
    → len < k
    → k ≤ len + length vec
    → length (first_fragments (pos k) len vec) + len ≡ k
unfolding first_fragments
length-first_fragments k len [] h l = absurd (omega arith)
length-first_fragments k len (s ∷ vec) h l = elim (Bool-cases (len + 1 == k)) [
  | inl e ↦ rw e (ground arith)
  | inr e ↦
      rw e (omega (arith, length-first_fragments k (len + 1) vec (ground arith) (omega arith)))
]

first_fragments-IsSelection :
    (k len : ℕ) {vec all : List Text}
    → IsSelection vec all
    → IsSelection (first_fragments (pos k) len vec) all
unfolding first_fragments
first_fragments-IsSelection k len empty = empty
first_fragments-IsSelection k len (lost y s) = lost y (first_fragments-IsSelection k len s)
first_fragments-IsSelection k len (kept {xs = xs} {ys = ys} y s) =
    elim (Bool-cases (len + 1 == k)) [
      | inl e ↦ rw e (kept y (IsSelection-nil ys))
      | inr e ↦ rw e (kept y (first_fragments-IsSelection k (len + 1) s))
    ]

take_all : (n : ℕ) (xs : List Text) → length xs ≡ n → take n xs ≡ xs
take_all zero [] h = refl
take_all zero (x ∷ xs) h = absurd (omega arith)
take_all (suc n) [] h = refl
take_all (suc n) (x ∷ xs) h = ap (λ l. x ∷ l) (take_all n xs (omega arith))

module _ (code : ErasureCode) (k m : ℕ) (b : ℤ) (law : IsErasureCode code k m) (block : Text) where
  -- Erasure coding loses nothing while `k` fragments are left: if the block is encoded, any `k` or
  -- more of the `k + m` fragments, in their order, are decoded to the block.
  pub decode-encode_rs :
      (all vec : List Text)
      → encode code (rs (pos k) (pos m) b) block ≡ ok all
      → 0 < k
      → IsSelection vec all
      → k ≤ length vec
      → decode code (rs (pos k) (pos m) b) vec ≡ ok block
  unfolding encode decode
  decode-encode_rs all vec h positive s enough =
      go (code.erasure_encode (pos k) (pos m) block) refl h
    where
      go :
          (r : Encoded)
          → code.erasure_encode (pos k) (pos m) block ≡ r
          → rs_fragments code (pos k) (pos m) r ≡ ok all
          → decode code (rs (pos k) (pos m) b) vec ≡ ok block
      go (failed ret) e h = cc
      go (fragments ds ps) e h =
          let dc = law.data_count block ds ps e in
          let pc = law.parity_count block ds ps e in
          let parts : all ≡ ds ++ ps = cc (h, take_all k ds dc, take_all m ps pc) in
          let s' : IsSelection vec (ds ++ ps) = subst (IsSelection vec) parts s in
          let bound : length vec ≤ k + m =
            omega (arith, length-IsSelection s', length-append ds ps, dc, pc) in
          let d =
            law.decodes block ds ps (first_fragments (pos k) 0 vec) e
              (first_fragments-IsSelection k 0 s')
              (omega (arith, length-first_fragments k 0 vec positive (omega arith))) in
          ground (arith, d, bound)
