-- ===== src/Sdk/Fsync.antt =====
-- `fsync` of src/client/sdk.cpp: the blocks that were written are encoded and sent, and the namenode
-- is told where they are. What `encode_one` does is a parameter, with the state of the datanodes. The
-- files of the blocks are below 2 GiB, so that `read_file` returns what they hold.
pub mod Entries
pub mod Order
pub mod Stores
use spkdfs.Prelude.{
  ℕ, zero, suc, ◌+◌, ◌*◌, ◌%◌, ◌^◌, max, Option, none, some, List, [], ◌∷◌, length, leb,
  if◌then◌else◌,
}
use spkdfs.Prelude.Int.{ℤ, pos, negsuc, to_int}
use spkdfs.Exn.{Text, Result, ok, throw, abort, ◌>>=◌}
use spkdfs.Inode.{Inode, inode_block_size}
use spkdfs.Sdk.Read.{Files, find_file, get_inode}
use spkdfs.Sdk.Write.{Local, to_size, held}

unfoldable pub insert_index : ℕ → List ℕ → List ℕ
insert_index i [] = i ∷ []
insert_index i (j ∷ js) = let rest = insert_index i js in if leb i j then i ∷ j ∷ js else j ∷ rest

-- `sort(res.begin(), res.end())`
unfoldable pub sort_indexes : List ℕ → List ℕ
unfolding insert_index
sort_indexes [] = []
sort_indexes (i ∷ is) = insert_index i (sort_indexes is)

-- `res.back()`
unfoldable pub back : ℕ → List ℕ → ℕ
back i [] = i
back i (j ∷ js) = back j js

-- `inode.sub.resize(n)`, if there are fewer: empty texts are added.
unfoldable pub resize_sub : ℕ → List Text → List Text
resize_sub zero sub = sub
resize_sub (suc n) [] = [] ∷ resize_sub n []
resize_sub (suc n) (t ∷ sub) = t ∷ resize_sub n sub

-- `inode.sub[i] = text`
unfoldable pub set_sub : ℕ → Text → List Text → List Text
set_sub i text [] = []
set_sub zero text (t ∷ sub) = text ∷ sub
set_sub (suc i) text (t ∷ sub) = t ∷ set_sub i text sub

-- The request of `put_ok`.
pub record PutOk : Type 0 where
  pub filesize : ℕ
  pub sub : List Text

-- An `int` of the larger size, and this again as 64 unsigned bits.
unfoldable pub new_filesize : ℕ → ℕ → ℕ → ℕ → ℕ
new_filesize old last bs size = to_size (to_int (max old ((last * bs + size) % 2 ^ 64)))

module _ {S : Type 0} (encode_one : S → Text → S × Result Text) where
  -- The links that are left, the state of the datanodes, and the texts of the blocks.
  stored :
      Files
      → List ℕ
      → S × Result Text
      → (S → Text → S × List ℕ × Result (List Text))
      → S × List ℕ × Result (List Text)
  stored files left (s, ok text) rest = rest s text
  stored files left (s, throw e) rest = (s, left, throw e)
  stored files left (s, abort) rest = (s, left, abort)

  unfoldable pub store_loop : Files → S → List ℕ → List Text → S × List ℕ × Result (List Text)
  unfolding stored set_sub
  store_loop files s [] sub = (s, [], ok sub)
  store_loop files s (i ∷ res) sub =
      stored files (i ∷ res) (encode_one s (held (find_file files i)))
        λ s' text. store_loop files s' res (set_sub i text sub)

  requested :
      Local → ℕ → ℕ → Result ℤ → S × List ℕ × Result (List Text) → S × Local × Result (Option PutOk)
  unfolding new_filesize
  requested l old last bs (s, left, ok sub) = (
    s,
    record l { linked = left },
    do
      b ← bs
      ok (
          some (record {
            filesize = new_filesize old last (to_size b) (length (held (find_file l.files last)));
            sub = sub;
          })),
  )
  requested l old last bs (s, left, throw e) = (s, record l { linked = left }, throw e)
  requested l old last bs (s, left, abort) = (s, record l { linked = left }, abort)

  send : Local → S → List ℕ → Result Inode → S × Local × Result (Option PutOk)
  unfolding requested store_loop resize_sub back
  send l s [] inode = (s, l, ok none)
  send l s (i ∷ res) (throw e) = (s, l, throw e)
  send l s (i ∷ res) abort = (s, l, abort)
  send l s (i ∷ res) (ok inode) =
      requested l inode.filesize (back i res) (inode_block_size inode)
        (store_loop l.files s (i ∷ res) (resize_sub (back i res + 1) inode.sub))

  -- The request that is sent, if any; its answer is not looked at.
  unfoldable pub fsync : Local → S → Option Inode → S × Local × Result (Option PutOk)
  unfolding send sort_indexes get_inode
  fsync l s inode = send l s (sort_indexes l.linked) (get_inode inode)
