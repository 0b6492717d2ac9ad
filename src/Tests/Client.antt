-- ===== src/Tests/Client.antt =====
-- The theorems on the files that keep an open file's blocks, at concrete values.
use spkdfs.Prelude.{
  ◌≡◌, refl, ℕ, ◌+◌, true, false, Option, some, inl, List, [], ◌∷◌, ◌++◌, length, ◌≤◌, ◌<◌, ◌*◌,
  ◌-◌, ◌^◌, zero, suc, take, drop, get_elem?, min, max, arith,
}
use spkdfs.Prelude.Int.{pos, to_int}
use spkdfs.Exn.{Text, Result, ok}
use spkdfs.Inode.{Inode, inode_block_size}
use spkdfs.Storage.{get_block_size, mebibytes, as_int}
use spkdfs.Sdk.Indexes.{get_indexs}
use spkdfs.Sdk.Indexes.Covers.{get_indexs-covers}
use spkdfs.Sdk.Read.{Files, read_data, find_file}
use spkdfs.Sdk.Read.Contents.{contents}
use spkdfs.Sdk.Read.Kept.{IsCache}
use spkdfs.Sdk.Read.Slice.{read_data-reads}
use spkdfs.Sdk.Write.{Local, held, fetch_ends, write_data}
use spkdfs.Sdk.Write.Links.{is_linked}
use spkdfs.Sdk.Write.Appends.{write_data-appends}
use spkdfs.Sdk.Indexes.{align_index_down, align_index_up, div_int}
use spkdfs.Sdk.Fsync.{PutOk}
use spkdfs.Tests.Transfers.{storage, sub_text}

-- A file of one block that is not full; blocks are of 2 MiB.
abbrev pub open_inode : Inode
open_inode = record {
  fullpath = b'/' ∷ b'f' ∷ [];
  is_directory = false;
  filesize = 5;
  storage_type_ptr = some storage;
  sub = sub_text ∷ [];
  valid = true;
  ddl_lock = 0;
}

abbrev pub hello : Text
hello = b'h' ∷ b'e' ∷ b'l' ∷ b'l' ∷ b'o' ∷ []

pub open_inode_size : inode_block_size open_inode ≡ ok (pos 2097152)
unfolding inode_block_size get_block_size mebibytes as_int
open_inode_size = refl

get_indexs-covers_example :
    (first last : ℕ) × (get_indexs open_inode 2097150 10 ≡ ok (pos first, pos (last + 1)))
    × (first * 2097152 ≤ 2097150)
    × (2097150 < (first + 1) * 2097152)
    × (last * 2097152 ≤ 2097150 + 10)
    × (2097150 + 10 < (last + 1) * 2097152)
    × (get_indexs open_inode (2097150 + 2 ^ 32) 10 ≡ get_indexs open_inode 2097150 10)
get_indexs-covers_example =
    get_indexs-covers open_inode 2097152 2097150 10 open_inode_size (omega arith) (omega arith)

-- The file of the only block is there, and empty.
abbrev pub opened : Files
opened = (0, []) ∷ []

pub opened-IsCache : IsCache opened (hello ∷ [])
unfolding find_file
opened-IsCache zero b e = inl refl
opened-IsCache (suc i) b e = absurd (cc)

read_data-reads_example :
    (files' : Files) × (read_data (λ s. ok hello) (λ i. true) opened (some open_inode) 1 3
      ≡ (files', ok (take (min 3 (5 - 1)) (drop 1 (contents (hello ∷ []))))))
    × IsCache files' (hello ∷ [])
read_data-reads_example =
    read_data-reads (λ s. ok hello) (λ i. true) (λ i. refl) 2097152 open_inode (hello ∷ []) opened 1
      3 open_inode_size (omega arith) (refl, tt) (omega arith) opened-IsCache (omega arith)
      (omega arith) (omega arith)

abbrev xyz : Text
xyz = b'x' ∷ b'y' ∷ b'z' ∷ []

-- The block was read before.
abbrev loaded : Local
loaded = record { files = (0, hello) ∷ []; linked = [] }

first_block : get_indexs open_inode 0 3 ≡ ok (pos 0, pos 1)
unfolding get_indexs align_index_down align_index_up inode_block_size get_block_size mebibytes
    as_int div_int to_int
first_block = refl

nothing_fetched :
    fetch_ends (λ s. ok hello) (λ i. true) loaded open_inode 2097152 0 3 (pos 0, pos 1)
    ≡ (loaded, ok tt)
unfolding fetch_ends
nothing_fetched = refl

-- The first three bytes of the file are written over, and stand behind it.
write_data-appends_example :
    (pieces : List Text) × (done : Local) × (write_data
        (λ s. ok hello)
        (λ i. true)
        loaded
        (some open_inode)
        0
        xyz
      ≡ (done, ok tt))
    × (contents pieces ≡ xyz)
    × (length pieces ≡ 1 - 0)
    × ((k : ℕ) (piece : Text)
        → get_elem? pieces k ≡ some piece
        → (find_file done.files (0 + k) ≡ some (held (find_file loaded.files (0 + k)) ++ piece))
          × (is_linked (0 + k) done.linked ≡ true)
          × (piece
              ≡ take
                  (min ((0 + k + 1) * 2097152) (0 + length xyz) - max ((0 + k) * 2097152) 0)
                  (drop (max ((0 + k) * 2097152) 0 - 0) xyz)))
write_data-appends_example =
    write_data-appends (λ s. ok hello) (λ i. true) (λ i. refl) loaded loaded open_inode 2097152 0 0
      1 xyz open_inode_size (omega arith) (omega arith) first_block nothing_fetched

-- The text of a block is its length, and the state counts the blocks.
abbrev count_blocks : ℕ → Text → ℕ × Result Text
count_blocks n block = (n + 1, ok (length block ∷ []))

abbrev written : Local
written = record { files = (0, hello ++ xyz) ∷ []; linked = 0 ∷ [] }

abbrev asked : Option PutOk
asked = some (record { filesize = 8; sub = (8 ∷ []) ∷ [] })
