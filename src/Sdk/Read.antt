-- ===== src/Sdk/Read.antt =====
-- `get_inode` and the two `read_data` of src/client/sdk.cpp: reading a range of an open file
-- through the files that keep its blocks. What `decode_one` returns for a block and whether a file
-- can be opened are parameters. The lock around the loading of a block orders threads; here there
-- is one.
pub mod Contents
pub mod Kept
pub mod Slice
use spkdfs.Prelude.{
  ℕ, zero, suc, ◌+◌, ◌-◌, ◌*◌, ◌%◌, ◌^◌, Bool, true, false, ◌&&◌, Option, none, some, List, [], ◌∷◌,
  ◌++◌, length, take, drop, replicate, ltb, leb, ◌==◌, if◌then◌else◌,
}
use spkdfs.Prelude.Int.{ℤ, pos, negsuc, int_max}
use spkdfs.Exn.{Text, Result, ok, throw, abort, runtime_error, ◌>>=◌}
use spkdfs.Text.{codes}
use spkdfs.ReadFile.{read_bytes}
use spkdfs.Inode.{Inode, inode_block_size}
use spkdfs.Sdk.Indexes.{get_indexs}

-- The files at `get_tmp_index_path(path, index)`, by their index.
abbrev pub Files : Type 0
Files = List (ℕ × Text)

unfoldable pub find_file : Files → ℕ → Option Text
find_file [] i = none
find_file ((j, text) ∷ files) i = let rest = find_file files i in if j == i then some text else rest

unfoldable pub set_file : ℕ → Text → Files → Files
set_file i text [] = (i, text) ∷ []
set_file i text ((j, old) ∷ files) =
    let rest = set_file i text files in if j == i then (i, text) ∷ files else (j, old) ∷ rest

-- `fs::exists(tmp_path) && fs::file_size(tmp_path) > 0`, with what the file holds
abbrev pub cached : Option Text → Option Text
cached none = none
cached (some []) = none
cached (some (b ∷ bs)) = some (b ∷ bs)

-- `string(n * block_size, '\0')`: a negative number is too long a text, and a product that an `int`
-- does not hold is undefined.
unfoldable pub zeros : Result ℤ → ℕ → Result Text
zeros (ok (pos bs)) n = if leb (n * bs) int_max then ok (replicate (n * bs) 0) else abort
zeros (ok (negsuc b)) n =
    if leb (n * (b + 1)) (int_max + 1)
    then throw (runtime_error (codes "basic_string::_M_create"))
    else abort
zeros (throw e) n = throw e
zeros abort n = abort

unfoldable pub get_inode : Option Inode → Result Inode
get_inode none = throw (runtime_error (codes "cannot find inode in local_inode_cache"))
get_inode (some inode) = ok inode

-- The bytes `[from, from + size)` of what was read, which are undefined where it ends before.
unfoldable pub slice : ℕ → ℕ → ℕ → Text → Result Text
slice start offset size s =
    if leb start offset && leb (offset - start + size) (length s)
    then ok (take size (drop (offset - start) s))
    else abort

-- Up to the end of the file; a range past it is empty.
unfoldable pub clipped : ℕ → ℕ → ℕ → ℕ
clipped filesize offset size =
    if ltb filesize ((offset + size) % 2 ^ 64) then filesize - offset else size

module _ (decode : Text → Result Text) (opens : ℕ → Bool) where
  -- The file is made empty first, and written when the block is there.
  stored : Files → ℕ → Result Text → Files × Result Text
  stored files i (ok block) = (set_file i block files, ok block)
  stored files i (throw e) = (set_file i [] files, throw e)
  stored files i abort = (set_file i [] files, abort)

  load : Files → ℕ → Text → Bool → Files × Result Text
  unfolding stored
  load files i blks true = stored files i (decode blks)
  load files i blks false = (files, throw (runtime_error (codes "openfile error:")))

  read_or_load : Files → ℕ → Text → Option Text → Files × Result Text
  unfolding load
  read_or_load files i blks none = load files i blks (opens i)
  read_or_load files i blks (some block) = (files, read_bytes block)

  unfoldable pub read_block : Files → ℕ → Text → Files × Result Text
  unfolding read_or_load
  read_block files i blks = read_or_load files i blks (cached (find_file files i))

  after_block : Files × Result Text → (Files → Files × Result Text) → Files × Result Text
  after_block (files, ok block) rest =
      let (files', r) = rest files in (files', do text ← r; ok (block ++ text))
  after_block (files, throw e) rest = (files, throw e)
  after_block (files, abort) rest = (files, abort)

  -- The loop from `index` on, with so many rounds left and the items of `sub` from `iter` on.
  unfoldable pub read_loop : Result ℤ → Files → ℕ → ℕ → List Text → Files × Result Text
  unfolding after_block read_block
  read_loop size files index zero left = (files, ok [])
  read_loop size files index (suc n) [] = (files, zeros size (suc n))
  read_loop size files index (suc n) (blks ∷ left) =
      after_block (read_block files index blks) λ files'. read_loop size files' (index + 1) n left

  -- `read_data(inode, indexs)`; a first index before the blocks is undefined.
  unfoldable pub read_indexs : Files → Inode → ℤ × ℤ → Files × Result Text
  unfolding read_loop
  read_indexs files inode (pos first, pos second) =
      read_loop (inode_block_size inode) files first (second - first) (drop first inode.sub)
  read_indexs files inode (pos first, negsuc second) = (files, ok [])
  read_indexs files inode (negsuc first, second) = (files, abort)

  -- The product of the first index and the size of a block is an `int`.
  sliced : ℕ → ℕ → Inode → ℤ × ℤ → Result ℤ → Files × Result Text → Files × Result Text
  unfolding slice
  sliced offset size inode (pos first, second) (ok (pos bs)) (files, r) = (
    files,
    do s ← r; if leb (first * bs) int_max then slice (first * bs) offset size s else abort,
  )
  sliced offset size inode (pos first, second) (ok (negsuc b)) (files, r) = (files, abort)
  sliced offset size inode (pos first, second) (throw e) (files, r) = (files, throw e)
  sliced offset size inode (pos first, second) abort (files, r) = (files, abort)
  sliced offset size inode (negsuc first, second) bs (files, r) = (files, abort)

  read_range : Files → Inode → ℕ → ℕ → Result (ℤ × ℤ) → Files × Result Text
  unfolding read_indexs sliced
  read_range files inode offset size (ok indexs) =
      sliced offset size inode indexs (inode_block_size inode) (read_indexs files inode indexs)
  read_range files inode offset size (throw e) = (files, throw e)
  read_range files inode offset size abort = (files, abort)

  read_file_data : Files → Result Inode → ℕ → ℕ → Files × Result Text
  unfolding read_range clipped
  read_file_data files (throw e) offset size = (files, throw e)
  read_file_data files abort offset size = (files, abort)
  read_file_data files (ok inode) offset size =
      if ltb inode.filesize offset
      then (files, ok [])
      else let size' = clipped inode.filesize offset size in
        read_range files inode offset size' (get_indexs inode offset size')

  -- `read_data(path, offset, size)`, for what `local_inode_cache` holds under the path.
  unfoldable pub read_data : Files → Option Inode → ℕ → ℕ → Files × Result Text
  unfolding read_file_data get_inode
  read_data files inode offset size = read_file_data files (get_inode inode) offset size
