-- ===== src/Sdk/Write/Sizes.antt =====
-- The sizes of the pieces of a write add up, and each piece is what of the range is in its block.
use spkdfs.Prelude.{
  ℕ, zero, suc, ◌+◌, ◌-◌, ◌*◌, ◌%◌, ◌≤◌, ◌<◌, ◌≡◌, ap, inl, inr, Bool-cases, min, max, true, false,
  leb, ◌==◌, arith,
}
use spkdfs.Sdk.Write.{local_size}

-- What the rounds from an index on write.
abbrev pub total : (ℕ → ℕ) → ℕ → ℕ → ℕ
total sizes index zero = 0
total sizes index (suc n) = sizes index + total sizes (index + 1) n

-- The remainder, for a quotient that is known.
mod_lem : (n d q : ℕ) → q * d ≤ n → n < (q + 1) * d → n % d ≡ n - q * d
mod_lem n d q a b = grind arith

pub first_in : (bs first last end : ℕ) → first * bs ≤ end → end < (last + 1) * bs → first < last + 1
first_in bs first last end a b = grind arith

next_le : (bs first last end : ℕ) → first < last → last * bs ≤ end → (first + 1) * bs ≤ end
next_le bs first last end h c = grind arith

next_start : (bs index : ℕ) → (index + 1) * bs ≡ index * bs + bs
next_start bs index = grind arith

total_next :
    (sizes : ℕ → ℕ) (index k : ℕ)
    → total sizes index (suc k) ≡ total sizes index k + sizes (index + k)
total_next sizes index zero = let e : index + 0 ≡ index = omega arith in rw e (omega arith)
total_next sizes index (suc k) =
    let rest = total_next sizes (index + 1) k in
    let e : index + suc k ≡ index + 1 + k = omega arith in rw e (omega arith)

-- Where the part of a range that is in a block starts, and its end.
abbrev pub part_start : ℕ → ℕ → ℕ → ℕ
part_start bs offset index = max (index * bs) offset

abbrev pub part_end : ℕ → ℕ → ℕ → ℕ
part_end bs end index = min ((index + 1) * bs) end

later_start : (bs index first : ℕ) → first < index → (first + 1) * bs ≤ index * bs
later_start bs index first h = grind arith

module _ (bs offset end first last : ℕ) (a : first * bs ≤ offset) (b : offset < (first + 1) * bs)
    (c : last * bs ≤ end) (d : end < (last + 1) * bs) (ordered : offset ≤ end) where
  -- Behind the first block, the rounds write what is left up to the end.
  total_behind :
      (index n : ℕ)
      → first < index
      → index + n ≡ last
      → total (local_size bs offset end first last) index (suc n) ≡ end - index * bs
  unfolding local_size
  total_behind index zero h e =
      let same : index ≡ last = omega arith in
      let m = mod_lem end bs last c d in
      let x : (index == first) ≡ false = ground arith in
      let y : (index == last) ≡ true = ground arith in
      let z : leb 0 (end % bs) ≡ true = ground arith in rw x (rw y (rw z (rw same (omega arith))))
  total_behind index (suc n) h e =
      let x : (index == first) ≡ false = ground arith in
      let y : (index == last) ≡ false = ground arith in
      let z : leb 0 bs ≡ true = ground arith in
      let rest = total_behind (index + 1) n (omega arith) (omega arith) in
      let f = next_le bs index last end (omega arith) c in
      let g = next_start bs index in rw x (rw y (rw z (omega arith)))

  pub total_all :
      (n : ℕ)
      → first + n ≡ last
      → total (local_size bs offset end first last) first (suc n) ≡ end - offset
  unfolding local_size
  total_all zero e =
      let same : first ≡ last = omega arith in
      let m = mod_lem end bs last c d in
      let k = mod_lem offset bs first a b in
      let x : (first == first) ≡ true = ground arith in
      let y : (first == last) ≡ true = ground arith in
      let same_start : first * bs ≡ last * bs = ap (λ q. q * bs) same in
      let z : leb (offset % bs) (end % bs) ≡ true = ground arith in rw x (rw y (rw z (omega arith)))
  total_all (suc n) e =
      let k = mod_lem offset bs first a b in
      let x : (first == first) ≡ true = ground arith in
      let y : (first == last) ≡ false = ground arith in
      let g = next_start bs first in
      let z : leb (offset % bs) bs ≡ true = ground arith in
      let rest = total_behind (first + 1) n (omega arith) (omega arith) in
      let f = next_le bs first last end (omega arith) c in rw x (rw y (rw z (omega arith)))

  pub local_size-part :
      (index : ℕ)
      → first ≤ index
      → index ≤ last
      → local_size bs offset end first last index
        ≡ part_end bs end index - part_start bs offset index
  unfolding local_size
  local_size-part index h k =
      let next = next_start bs index in
      elim (Bool-cases (index == first)) [
        | inl at_first ↦
            let same : index ≡ first = ground arith in
            let m = mod_lem offset bs first a b in
            let start : index * bs ≡ first * bs = ap (λ q. q * bs) same in
            elim (Bool-cases (index == last)) [
              | inl at_last ↦
                  let same' : index ≡ last = ground arith in
                  let m' = mod_lem end bs last c d in
                  let start' : index * bs ≡ last * bs = ap (λ q. q * bs) same' in
                  let after = next_start bs last in
                  let z : leb (offset % bs) (end % bs) ≡ true = ground arith in
                  rw at_first (rw at_last (rw z (omega arith)))
              | inr before ↦
                  let f = next_le bs index last end (ground arith) c in
                  let after = next_start bs first in
                  let z : leb (offset % bs) bs ≡ true = ground arith in
                  rw at_first (rw before (rw z (omega arith)))
            ]
        | inr behind ↦
            let later = later_start bs index first (ground arith) in
            elim (Bool-cases (index == last)) [
              | inl at_last ↦
                  let same' : index ≡ last = ground arith in
                  let m' = mod_lem end bs last c d in
                  let start' : index * bs ≡ last * bs = ap (λ q. q * bs) same' in
                  let after = next_start bs last in
                  let z : leb 0 (end % bs) ≡ true = ground arith in
                  rw behind (rw at_last (rw z (omega arith)))
              | inr before ↦
                  let f = next_le bs index last end (ground arith) c in
                  let z : leb 0 bs ≡ true = ground arith in
                  rw behind (rw before (rw z (omega arith)))
            ]
      ]

  pub total-part :
      (k : ℕ)
      → first + k ≤ last
      → total (local_size bs offset end first last) first k
        ≡ part_start bs offset (first + k) - offset
  total-part zero h = let e : first + 0 ≡ first = omega arith in rw e (omega arith)
  total-part (suc k) h =
      let before = total-part k (omega arith) in
      let part = local_size-part (first + k) (omega arith) (omega arith) in
      let step = total_next (local_size bs offset end first last) first k in
      let f = next_le bs (first + k) last end (omega arith) c in
      let next = next_start bs (first + k) in
      let later = later_start bs (first + k + 1) first (omega arith) in
      let e : first + suc k ≡ first + k + 1 = omega arith in rw e (omega arith)
