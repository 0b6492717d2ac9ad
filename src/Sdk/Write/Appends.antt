-- ===== src/Sdk/Write/Appends.antt =====
-- Where the bytes of a write go.
use spkdfs.Prelude.{
  some_injective, append-take-drop, ℕ, zero, suc, ◌+◌, ◌-◌, ◌*◌, ◌%◌, ◌^◌, ◌≤◌, ◌<◌, min, max, ◌≡◌,
  refl, sym, ap, subst, ◌∙◌, Bool, true, some, List, [], ◌∷◌, ◌++◌, length, take, drop, length-drop,
  drop-add, get_elem?, leb, arith,
}
use spkdfs.Prelude.Int.{ℤ, pos, int_max}
use spkdfs.Exn.{Text, Result, ok}
use spkdfs.Inode.{Inode, inode_block_size}
use spkdfs.Sdk.Indexes.{get_indexs}
use spkdfs.Sdk.Indexes.Covers.{get_indexs-covers}
use spkdfs.Sdk.Read.{find_file, get_inode}
use spkdfs.Sdk.Read.Contents.{contents}
use spkdfs.Sdk.Write.Sizes.{
  total, total_all, first_in, part_start, part_end, local_size-part, total-part,
}
use spkdfs.Sdk.Write.{
  Local, held, local_size, wrote, write_loop, fetch_ends, and_then, write_blocks, write_range,
  write_file_data, write_data, with_block_size,
}
use spkdfs.Sdk.Write.Links.{put_one, put_each, find_file-put_each, is_linked, is_linked-put_each}

-- What a piece is among the bytes, for the pieces of a round and those of the rounds behind it.
piece_next :
    (sizes : ℕ → ℕ) (index : ℕ) (s : Text) (pieces : List Text)
    → ((k : ℕ) (piece : Text)
        → get_elem? pieces k ≡ some piece
        → piece
          ≡ take (sizes (index + 1 + k)) (drop (total sizes (index + 1) k) (drop (sizes index) s)))
    → (k : ℕ) (piece : Text) → get_elem? (take (sizes index) s ∷ pieces) k ≡ some piece
    → piece ≡ take (sizes (index + k)) (drop (total sizes index k) s)
piece_next sizes index s pieces each zero piece at =
    let e : index ≡ index + 0 = omega arith in
    sym (some_injective at) ∙ ap (λ i. take (sizes i) s) e
piece_next sizes index s pieces each (suc k) piece at =
    let e : index + 1 + k ≡ index + suc k = omega arith in
    each k piece at
    ∙ ap (take (sizes (index + 1 + k))) (sym (drop-add (sizes index) (total sizes (index + 1) k) s))
    ∙ ap (λ i. take (sizes i) (drop (total sizes index (suc k)) s)) e

module _ (decode : Text → Result Text) (opens : ℕ → Bool)
    (all_open : (i : ℕ) → opens i ≡ true) where
  write_loop-writes :
      (sizes : ℕ → ℕ) (l : Local) (index n : ℕ) (s : Text)
      → total sizes index n ≡ length s
      → (pieces : List Text) × (write_loop decode opens sizes l index n s
          ≡ (put_each l index pieces, ok tt))
        × (length pieces ≡ n)
        × (contents pieces ≡ s)
        × ((k : ℕ) (piece : Text)
            → get_elem? pieces k ≡ some piece
            → piece ≡ take (sizes (index + k)) (drop (total sizes index k) s))
  unfolding write_loop wrote
  write_loop-writes sizes l index zero [] h = ([], refl, refl, refl, λ k piece at. absurd (cc))
  write_loop-writes sizes l index zero (c ∷ s) h = absurd (omega arith)
  write_loop-writes sizes l index (suc n) s h =
      let fits : leb (sizes index) (length s) ≡ true = ground arith in
      let rest : total sizes (index + 1) n ≡ length (drop (sizes index) s) =
        omega (arith, length-drop (sizes index) s) in
      let (pieces, r, count, whole, each) =
        write_loop-writes sizes (put_one l index (take (sizes index) s)) (index + 1) n
          (drop (sizes index) s) rest in
      (
        take (sizes index) s ∷ pieces,
        rw (all_open index) (rw fits r),
        ap suc count,
        ap (λ t. take (sizes index) s ++ t) whole ∙ append-take-drop (sizes index) s,
        piece_next sizes index s pieces each,
      )

lt_of_get_elem? : (xs : List Text) (k : ℕ) {p : Text} → get_elem? xs k ≡ some p → k < length xs
lt_of_get_elem? [] k e = absurd (cc)
lt_of_get_elem? (x ∷ xs) zero e = omega arith
lt_of_get_elem? (x ∷ xs) (suc k) e = omega (arith, lt_of_get_elem? xs k e)

indexs_injective :
    {a b c d : ℕ}
    → ◌≡◌ {A = Result (ℤ × ℤ)} (ok (pos a, pos b)) (ok (pos c, pos d))
    → (a ≡ c) × (b ≡ d)
indexs_injective e = (cc, cc)

-- Where a range that fits an `int` starts and ends among the blocks.
range_bounds :
    (inode : Inode) (bs offset size first second : ℕ)
    → inode_block_size inode ≡ ok (pos bs)
    → 0 < bs
    → offset + size ≤ int_max
    → get_indexs inode offset size ≡ ok (pos first, pos second)
    → (first * bs ≤ offset)
      × (offset < (first + 1) * bs)
      × ((second - 1) * bs ≤ offset + size)
      × (offset + size < (second - 1 + 1) * bs)
      × (0 < second)
range_bounds inode bs offset size first second e positive fits at =
    let (f, last, run, a, b, c, d, wrap) = get_indexs-covers inode bs offset size e positive fits in
    let (same, same') = indexs_injective (sym run ∙ at) in
    let last_is : last ≡ second - 1 = omega arith in
    (
      subst (λ q. q * bs ≤ offset) same a,
      subst (λ q. offset < (q + 1) * bs) same b,
      subst (λ q. q * bs ≤ offset + size) last_is c,
      subst (λ q. offset + size < (q + 1) * bs) last_is d,
      omega arith,
    )

-- The pieces of a range make it up.
total_range :
    (bs offset size first second : ℕ)
    → (first * bs ≤ offset)
      × (offset < (first + 1) * bs)
      × ((second - 1) * bs ≤ offset + size)
      × (offset + size < (second - 1 + 1) * bs)
      × (0 < second)
    → total (local_size bs offset (offset + size) first (second - 1)) first (second - first) ≡ size
total_range bs offset size first second (a, b, c, d, some_block) =
    let ordered = first_in bs first (second - 1) (offset + size) (omega arith) d in
    let sizes = local_size bs offset (offset + size) first (second - 1) in
    let rounds : suc (second - 1 - first) ≡ second - first = omega arith in
    let all : total sizes first (suc (second - 1 - first)) ≡ offset + size - offset =
      total_all bs offset (offset + size) first (second - 1) a b c d (omega arith)
        (second - 1 - first) (omega arith) in
    subst (λ k. total sizes first k ≡ size) rounds (all ∙ omega arith)

module _ (decode : Text → Result Text) (opens : ℕ → Bool)
    (all_open : (i : ℕ) → opens i ≡ true) where
  write_data-runs :
      (l l' done : Local) (inode : Inode) (bs offset first second : ℕ) (s : Text)
      → inode_block_size inode ≡ ok (pos bs)
      → offset + length s ≤ int_max
      → get_indexs inode offset (length s) ≡ ok (pos first, pos second)
      → fetch_ends decode opens l inode bs offset (offset + length s) (pos first, pos second)
        ≡ (l', ok tt)
      → write_loop decode opens
          (local_size bs offset (offset + length s) first (second - 1))
          l'
          first
          (second - first)
          s
        ≡ (done, ok tt)
      → write_data decode opens l (some inode) offset s ≡ (done, ok tt)
  unfolding write_data write_file_data write_range write_blocks and_then get_inode with_block_size
  write_data-runs l l' done inode bs offset first second s e fits at fetch run =
      let unwrapped : (offset + length s) % 2 ^ 64 ≡ offset + length s = omega arith in
      rw unwrapped (rw at (rw e (rw fetch run)))

  -- A write cuts its bytes into pieces, one for each block from the one that holds the offset to the
  -- one that holds, or would hold, the byte behind the range: the piece of a block is those bytes
  -- of the range that are in the block. Each piece is appended to what the file of its block holds,
  -- wherever in the block the range starts, and the file is linked for `fsync`. That is for a range
  -- whose end fits an `int` and blocks of a positive size that fits one, after the blocks at the
  -- ends of the range were loaded, and where no file fails to open.
  pub write_data-appends :
      (l l' : Local) (inode : Inode) (bs offset first second : ℕ) (s : Text)
      → inode_block_size inode ≡ ok (pos bs)
      → 0 < bs
      → offset + length s ≤ int_max
      → get_indexs inode offset (length s) ≡ ok (pos first, pos second)
      → fetch_ends decode opens l inode bs offset (offset + length s) (pos first, pos second)
        ≡ (l', ok tt)
      → (pieces : List Text) × (done : Local) × (write_data decode opens l (some inode) offset s
          ≡ (done, ok tt))
        × (contents pieces ≡ s)
        × (length pieces ≡ second - first)
        × ((k : ℕ) (piece : Text)
            → get_elem? pieces k ≡ some piece
            → (find_file done.files (first + k)
                ≡ some (held (find_file l'.files (first + k)) ++ piece))
              × (is_linked (first + k) done.linked ≡ true)
              × (piece
                  ≡ take
                      (min ((first + k + 1) * bs) (offset + length s)
                        - max ((first + k) * bs) offset)
                      (drop (max ((first + k) * bs) offset - offset) s)))
  write_data-appends l l' inode bs offset first second s e positive fits at fetch =
      let sizes = local_size bs offset (offset + length s) first (second - 1) in
      let bounds = range_bounds inode bs offset (length s) first second e positive fits at in
      let (a, b, c, d, some_block) = bounds in
      let sum = total_range bs offset (length s) first second bounds in
      let (pieces, r, count, whole, each) =
        write_loop-writes decode opens all_open sizes l' first (second - first) s sum in
      (
        pieces,
        put_each l' first pieces,
        write_data-runs l l' _ inode bs offset first second s e fits at fetch r,
        whole,
        count,
        λ k piece h. (
          find_file-put_each l' first pieces k piece h,
          is_linked-put_each l' first pieces k (lt_of_get_elem? pieces k h),
          let inside : first + k ≤ second - 1 = omega (arith, lt_of_get_elem? pieces k h, count) in
              each k piece h
              ∙ ap (λ n. take n (drop (total sizes first k) s))
                  (local_size-part bs offset (offset + length s) first (second - 1) a b c d
                    (omega arith) (first + k) (omega arith) inside)
              ∙ ap
                  (λ n.
                    take
                      (part_end bs (offset + length s) (first + k)
                        - part_start bs offset (first + k))
                      (drop n s))
                  (total-part bs offset (offset + length s) first (second - 1) a b c d (omega arith)
                    k inside),
        ),
      )
