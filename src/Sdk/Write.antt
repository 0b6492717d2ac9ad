-- ===== src/Sdk/Write.antt =====
-- `write_data` and `ln_path_index` of src/client/sdk.cpp: writing to the files that keep the blocks
-- of an open file, and marking them for `fsync` by a link. As in Sdk/Read, what `decode_one` returns
-- and which files can be opened are parameters.
pub mod Sizes
pub mod Links
pub mod Appends
use spkdfs.Prelude.{
  ℕ, zero, suc, ◌+◌, ◌-◌, ◌%◌, ◌^◌, Bool, true, false, not, ◌&&◌, Option, none, some, List, [], ◌∷◌,
  ◌++◌, keep_if, length, take, drop, ltb, leb, ◌==◌, if◌then◌else◌,
}
use spkdfs.Prelude.Int.{ℤ, pos, negsuc}
use spkdfs.Exn.{Text, Result, ok, throw, abort, runtime_error}
use spkdfs.Text.{codes}
use spkdfs.Inode.{Inode, inode_block_size}
use spkdfs.Storage.{add_int}
use spkdfs.Sdk.Indexes.{get_indexs}
use spkdfs.Sdk.Read.{Files, find_file, set_file, get_inode, read_indexs}

-- The files of the blocks, and the indexes that have a link in the directory `write`.
pub record Local : Type 0 where
  pub files : Files
  pub linked : List ℕ

-- An `int` as an operand of an unsigned one.
abbrev pub to_size : ℤ → ℕ
to_size (pos n) = n
to_size (negsuc n) = 2 ^ 64 - (n + 1)

abbrev pub equals_int : ℤ → ℤ → Bool
equals_int (pos a) (pos b) = a == b
equals_int (pos a) (negsuc b) = false
equals_int (negsuc a) (pos b) = false
equals_int (negsuc a) (negsuc b) = a == b

abbrev pub held : Option Text → Text
held none = []
held (some text) = text

-- With `ios::app` what is written goes to the end of the file, wherever `seekp` has moved to.
unfoldable pub append_file : Files → ℕ → Text → Files
append_file files i piece = set_file i (held (find_file files i) ++ piece) files

unfoldable pub remove_link : ℕ → List ℕ → List ℕ
remove_link i [] = []
remove_link i (j ∷ linked) = let rest = remove_link i linked in if j == i then rest else j ∷ rest

-- `fs::remove` of the link, and `create_hard_link`.
unfoldable pub ln_path_index : ℕ → List ℕ → List ℕ
unfolding remove_link
ln_path_index i linked = i ∷ remove_link i linked

-- `localSize` for an index, by the block size, the offset, the end and the last index.
unfoldable pub local_size : ℕ → ℕ → ℕ → ℕ → ℕ → ℕ → ℕ
local_size bs offset end first last index =
    let left = if index == first then offset % bs else 0 in
    let right = if index == last then end % bs else bs in
    if leb left right then right - left else 2 ^ 64 + right - left

module _ (decode : Text → Result Text) (opens : ℕ → Bool) where
  wrote :
      Local
      → ℕ
      → Text
      → ℕ
      → Bool
      → (Local → Text → Local × Result (Unit {0}))
      → Local × Result (Unit {0})
  unfolding append_file ln_path_index
  wrote l index s n false rest = (l, throw (runtime_error (codes "failed to write data to ")))
  wrote l index s n true rest =
      let next =
        rest
          (record {
            files = append_file l.files index (take n s);
            linked = ln_path_index index l.linked;
          })
          (drop n s) in
      if leb n (length s) then next else (l, abort)

  -- The loop from `index` on, with so many rounds left and the bytes from `iter` on.
  unfoldable pub write_loop : (ℕ → ℕ) → Local → ℕ → ℕ → Text → Local × Result (Unit {0})
  unfolding wrote
  write_loop sizes l index zero s = (l, ok tt)
  write_loop sizes l index (suc n) s =
      wrote l index s (sizes index) (opens index) λ l' s'. write_loop sizes l' (index + 1) n s'

  fetched : Local → Files × Result Text → Local × Result (Unit {0})
  fetched l (files, ok text) = (record l { files = files }, ok tt)
  fetched l (files, throw e) = (record l { files = files }, throw e)
  fetched l (files, abort) = (record l { files = files }, abort)

  fetch : Bool → Local → Inode → ℤ × ℤ → Local × Result (Unit {0})
  unfolding fetched
  fetch wanted l inode indexs =
      if wanted then fetched l (read_indexs decode opens l.files inode indexs) else (l, ok tt)

  and_then :
      Local × Result (Unit {0}) → (Local → Local × Result (Unit {0})) → Local × Result (Unit {0})
  and_then (l, ok done) rest = rest l
  and_then (l, throw e) rest = (l, throw e)
  and_then (l, abort) rest = (l, abort)

  -- The blocks at both ends are loaded where the range does not cover them.
  unfoldable pub fetch_ends : Local → Inode → ℕ → ℕ → ℕ → ℤ × ℤ → Local × Result (Unit {0})
  unfolding fetch and_then
  fetch_ends l inode bs offset end (first, second) =
      let last = add_int second (negsuc 0) in
      and_then
        (fetch (ltb offset inode.filesize && not (offset % bs == 0)) l inode
          (first, add_int first (pos 1)))
        λ l'.
          fetch (ltb end inode.filesize && not (equals_int first last) && not (end % bs == 0)) l'
            inode (last, second)

  -- A range that starts before the file is undefined, and one that ends there is empty.
  write_blocks : Local → ℕ → ℕ → ℕ → Text → ℤ × ℤ → Local × Result (Unit {0})
  unfolding write_loop
  write_blocks l bs offset end s (pos first, pos second) =
      write_loop (local_size bs offset end first (second - 1)) l first (second - first) s
  write_blocks l bs offset end s (pos first, negsuc second) = (l, ok tt)
  write_blocks l bs offset end s (negsuc first, second) = (l, abort)

  with_block_size : Local → Result ℤ → (ℕ → Local × Result (Unit {0})) → Local × Result (Unit {0})
  with_block_size l (ok bs) rest = rest (to_size bs)
  with_block_size l (throw e) rest = (l, throw e)
  with_block_size l abort rest = (l, abort)

  write_range : Local → Inode → ℕ → ℕ → Text → Result (ℤ × ℤ) → Local × Result (Unit {0})
  unfolding fetch_ends and_then write_blocks with_block_size
  write_range l inode offset end s (ok indexs) = with_block_size l (inode_block_size inode) λ bs.
      and_then (fetch_ends l inode bs offset end indexs)
        λ l'. write_blocks l' bs offset end s indexs
  write_range l inode offset end s (throw e) = (l, throw e)
  write_range l inode offset end s abort = (l, abort)

  write_file_data : Local → Result Inode → ℕ → Text → Local × Result (Unit {0})
  unfolding write_range
  write_file_data l (throw e) offset s = (l, throw e)
  write_file_data l abort offset s = (l, abort)
  write_file_data l (ok inode) offset s =
      write_range l inode offset ((offset + length s) % 2 ^ 64) s
        (get_indexs inode offset (length s))

  unfoldable pub write_data : Local → Option Inode → ℕ → Text → Local × Result (Unit {0})
  unfolding write_file_data get_inode
  write_data l inode offset s = write_file_data l (get_inode inode) offset s
