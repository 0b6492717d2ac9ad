-- ===== src/Sdk/Indexes.antt =====
-- `align_index_up`, `align_index_down` and `align_up` of include/common/utils.h, and `get_indexs` of
-- src/client/sdk.cpp: which blocks of a file a range of bytes stands in. The `int` that
-- `align_index_up` adds one to cannot overflow, since the size of a block is a multiple of 2^20.
pub mod Covers
use spkdfs.Prelude.{ℕ, suc, ◌+◌, ◌-◌, ◌*◌, ◌/◌, ◌%◌, ◌^◌, ◌==◌, if◌then◌else◌}
use spkdfs.Prelude.Int.{ℤ, pos, negsuc, to_int}
use spkdfs.Exn.{Result, ok, abort, ◌>>=◌}
use spkdfs.Storage.{add_int, as_int}
use spkdfs.Inode.{Inode, inode_block_size}

abbrev negate : ℕ → ℤ
negate n = if n == 0 then pos 0 else negsuc (n - 1)

-- Division of `int`s, towards zero; by zero it ends the process.
unfoldable pub div_int : ℤ → ℤ → Result ℤ
div_int (pos n) (pos d) = if d == 0 then abort else ok (pos (n / d))
div_int (pos n) (negsuc d) = ok (negate (n / (d + 1)))
div_int (negsuc n) (pos d) = if d == 0 then abort else ok (negate ((n + 1) / d))
div_int (negsuc n) (negsuc d) = ok (pos ((n + 1) / (d + 1)))

unfoldable pub align_index_down : ℤ → ℤ → Result ℤ
unfolding div_int
align_index_down n alignment = div_int n alignment

unfoldable pub align_index_up : ℤ → ℤ → Result ℤ
unfolding div_int
align_index_up n alignment = do q ← div_int n alignment; ok (add_int q (pos 1))

unfoldable pub align_up : ℤ → ℤ → Result ℤ
unfolding div_int as_int
align_up n alignment = do
  sum ← as_int (add_int n alignment)
  div_int (add_int sum (negsuc 0)) alignment

-- The offset and the end, 64 bits wide, are converted to `int`.
unfoldable pub get_indexs : Inode → ℕ → ℕ → Result (ℤ × ℤ)
unfolding align_index_down align_index_up
get_indexs inode offset size = do
  bs ← inode_block_size inode
  first ← align_index_down (to_int offset) bs
  second ← align_index_up (to_int ((offset + size) % 2 ^ 64)) bs
  ok (first, second)
