-- ===== src/Sdk/Indexes/Covers.antt =====
-- The blocks of a range cover it, as long as its end fits an `int`.
use spkdfs.Prelude.{
  ℕ, ◌+◌, ◌-◌, ◌*◌, ◌/◌, ◌%◌, ◌^◌, ◌≤◌, ◌<◌, ◌≡◌, refl, arith, sym, ◌∙◌, inl, inr, Bool-cases, leb,
  Option, none, some,
}
use spkdfs.Prelude.Int.{ℤ, pos, negsuc, to_int, int_max}
use spkdfs.Exn.{Result, ok}
use spkdfs.Storage.{StorageType, rs, re, get_block_size, mebibytes, as_int}
use spkdfs.Inode.{Inode, inode_block_size}
use spkdfs.Sdk.Indexes.{get_indexs, align_index_down, align_index_up, div_int}

pub to_int-small : (n : ℕ) → n ≤ int_max → to_int n ≡ pos n
unfolding to_int
to_int-small n h = ground arith

to_int_wraps : (n : ℕ) → to_int (n + 2 ^ 32) ≡ to_int n
unfolding to_int
to_int_wraps n = let e : (n + 2 ^ 32) % 2 ^ 32 ≡ n % 2 ^ 32 = omega arith in rw e refl

as_int-fits : (n : ℤ) (bs : ℕ) → as_int n ≡ ok (pos bs) → bs ≤ int_max
unfolding as_int
as_int-fits (pos n) bs e = elim (Bool-cases (leb n int_max)) [
  | inl fits ↦
      let e' : ◌≡◌ {A = Result ℤ} (ok (pos n)) (ok (pos bs)) = sym (rw fits refl) ∙ e in
      let same : n ≡ bs = cc in ground arith
  | inr over ↦ absurd (cc)
]
as_int-fits (negsuc n) bs e = elim (Bool-cases (leb n int_max)) [
  | inl fits ↦ absurd (cc)
  | inr over ↦ absurd (cc)
]

mebibytes-fits : (b : ℤ) (bs : ℕ) → mebibytes b ≡ ok (pos bs) → bs ≤ int_max
unfolding mebibytes
mebibytes-fits (pos n) bs e = as_int-fits (pos (n * 1024 * 1024)) bs e
mebibytes-fits (negsuc n) bs e = as_int-fits (negsuc ((n + 1) * 1024 * 1024 - 1)) bs e

get_block_size-fits :
    (storage : StorageType) (bs : ℕ) → get_block_size storage ≡ ok (pos bs) → bs ≤ int_max
unfolding get_block_size
get_block_size-fits (rs k m b) bs e = mebibytes-fits b bs e
get_block_size-fits (re replications b) bs e = mebibytes-fits b bs e

typed-fits :
    (st : Option StorageType) (bs : ℕ)
    → elim st [ none ↦ ok (pos 0) | some x ↦ get_block_size x ] ≡ ok (pos bs)
    → bs ≤ int_max
typed-fits none bs e = let same : 0 ≡ bs = cc in omega arith
typed-fits (some st) bs e = get_block_size-fits st bs e

pub inode_block_size-IsInt :
    (inode : Inode) (bs : ℕ) → inode_block_size inode ≡ ok (pos bs) → bs ≤ int_max
unfolding inode_block_size
inode_block_size-IsInt inode bs e = typed-fits inode.storage_type_ptr bs e

pub div_bounds : (n d : ℕ) → 0 < d → (n / d * d ≤ n) × (n < (n / d + 1) * d)
div_bounds n d h = grind arith

div_int-pos : (n bs : ℕ) → 0 < bs → div_int (pos n) (pos bs) ≡ ok (pos (n / bs))
unfolding div_int
div_int-pos n bs h = ground arith

-- For a range whose end fits an `int`, and blocks of a positive size that fits one, the blocks are
-- those from the one that holds the first byte to the one that holds, or would hold, the byte
-- behind the range. But 4 GiB further into the file the blocks are the same again.
pub get_indexs-covers :
    (inode : Inode) (bs offset size : ℕ)
    → inode_block_size inode ≡ ok (pos bs)
    → 0 < bs
    → offset + size ≤ int_max
    → (first last : ℕ) × (get_indexs inode offset size ≡ ok (pos first, pos (last + 1)))
      × (first * bs ≤ offset)
      × (offset < (first + 1) * bs)
      × (last * bs ≤ offset + size)
      × (offset + size < (last + 1) * bs)
      × (get_indexs inode (offset + 2 ^ 32) size ≡ get_indexs inode offset size)
unfolding get_indexs align_index_down align_index_up
get_indexs-covers inode bs offset size e positive fits =
    let whole : (offset + size) % 2 ^ 64 ≡ offset + size = omega arith in
    let run : get_indexs inode offset size
        ≡ ok (pos (offset / bs), pos ((offset + size) / bs + 1)) =
      rw e (
        rw whole (
          rw (to_int-small offset (omega arith)) (
            rw (to_int-small (offset + size) fits) (
              rw (div_int-pos offset bs positive)
                (rw (div_int-pos (offset + size) bs positive) refl))))) in
    let far : (offset + 2 ^ 32 + size) % 2 ^ 64 ≡ offset + size + 2 ^ 32 = omega arith in
    let wrap : get_indexs inode (offset + 2 ^ 32) size ≡ get_indexs inode offset size =
      rw whole (rw far (rw (to_int_wraps offset) (rw (to_int_wraps (offset + size)) refl))) in
    let (a, b) = div_bounds offset bs positive in
    let (c, d) = div_bounds (offset + size) bs positive in
    (offset / bs, (offset + size) / bs, run, a, b, c, d, wrap)
