-- ===== src/Sdk/Whole.antt =====
-- `put` and `get` of src/client/sdk.cpp: a whole file, in blocks, to the datanodes and back. The
-- path's entry among the locks to renew, which `put` never makes and takes away, is left out.
pub mod RoundTrip
use spkdfs.Prelude.{
  ℕ, zero, suc, ◌-◌, Bool, true, false, ◌||◌, Option, none, some, List, [], ◌∷◌, ◌++◌, map, length,
  take, drop, replicate, ltb, leb, if◌then◌else◌,
}
use spkdfs.Prelude.Int.{ℤ, pos, negsuc}
use spkdfs.Exn.{Text, Result, ok, throw, abort, runtime_error, ◌>>=◌, ◌>>◌}
use spkdfs.Text.{codes}
use spkdfs.Node.{Node, to_string}
use spkdfs.Inode.{Inode}
use spkdfs.Storage.{StorageType, get_block_size, storage_from_string}
use spkdfs.Reply.{Response}
use spkdfs.Sdk.Fsync.{PutOk}
use spkdfs.Storage.Coding.{ErasureCode}
use spkdfs.Sdk.Transfer.{Datanodes, Called, check_call, encode_one, decode_one}

-- Reading into the buffer leaves what stood behind the bytes that were read.
unfoldable pub overlay : Text → Text → Text
overlay piece buffer = piece ++ drop (length piece) buffer

-- `ifile.read(…) || ifile.gcount() > 0`, for what is left of the file
unfoldable pub reads : ℕ → Text → Bool
reads bs rest = leb bs (length rest) || ltb 0 (length rest)

-- `fs::resize_file`
unfoldable pub resize_file : Text → ℕ → Text
resize_file text n = take n text ++ replicate (n - length text) 0

module _ (D : Datanodes) (code : ErasureCode) where
  with_text : Text → Option (D.State × Result (List Text)) → Option (D.State × Result (List Text))
  with_text text none = none
  with_text text (some (s, r)) = some (s, do sub ← r; ok (text ∷ sub))

  after_encode :
      Option (D.State × Result Text)
      → (D.State → Option (D.State × Result (List Text)))
      → Option (D.State × Result (List Text))
  unfolding with_text
  after_encode none rest = none
  after_encode (some (s, throw e)) rest = some (s, throw e)
  after_encode (some (s, abort)) rest = some (s, abort)
  after_encode (some (s, ok text)) rest = with_text text (rest s)

  -- The loop of `put`, on what is left of the file, with the buffer `block`. `online` are the nodes
  -- that `get_online_datanodes` finds; `rounds` is the fuel of each upload, `fuel` that of this loop.
  unfoldable pub put_loop :
      (D.State → List Node)
      → ℕ
      → StorageType
      → ℕ
      → ℕ
      → Text
      → Text
      → D.State
      → Option (D.State × Result (List Text))
  unfolding after_encode overlay reads
  put_loop online rounds storage bs zero rest block s =
      if reads bs rest then none else some (s, ok [])
  put_loop online rounds storage bs (suc fuel) rest block s =
      let block' = overlay (take bs rest) block in
      let next =
        after_encode (encode_one D code rounds (ok (map to_string (online s))) s storage block')
          (put_loop online rounds storage bs fuel (drop bs rest) block') in
      if reads bs rest then next else some (s, ok [])

  -- `block.resize(blockSize)`, and the loop; a negative size is too long a text.
  unfoldable pub put_blocks :
      (D.State → List Node)
      → ℕ
      → ℕ
      → StorageType
      → Result ℤ
      → Text
      → D.State
      → Option (D.State × Result (List Text))
  unfolding put_loop
  put_blocks online rounds fuel storage (ok (pos bs)) content s =
      put_loop online rounds storage bs fuel content (replicate bs 0) s
  put_blocks online rounds fuel storage (ok (negsuc b)) content s =
      some (s, throw (runtime_error (codes "basic_string::_M_replace_aux")))
  put_blocks online rounds fuel storage (throw e) content s = some (s, throw e)
  put_blocks online rounds fuel storage abort content s = some (s, abort)

  asked_for :
      (PutOk → Called Response)
      → ℕ
      → Option (D.State × Result (List Text))
      → Option (D.State × Result PutOk)
  asked_for answer size none = none
  asked_for answer size (some (s, ok sub)) =
      let request : PutOk = record { filesize = size; sub = sub } in
      some (s, check_call (answer request) >> ok request)
  asked_for answer size (some (s, throw e)) = some (s, throw e)
  asked_for answer size (some (s, abort)) = some (s, abort)

  when_ready :
      D.State
      → Result StorageType
      → (StorageType → Option (D.State × Result PutOk))
      → Option (D.State × Result PutOk)
  when_ready s (ok storage) rest = rest storage
  when_ready s (throw e) rest = some (s, throw e)
  when_ready s abort rest = some (s, abort)

  -- `put`, with the content of the file, whether it could be opened, and what the namenode answers to
  -- the requests `put`, `update_lock` and `put_ok`; it comes to the last of these requests.
  unfoldable pub put :
      (D.State → List Node)
      → ℕ
      → ℕ
      → Text
      → Option Text
      → Called Response
      → Called Response
      → (PutOk → Called Response)
      → D.State
      → Option (D.State × Result PutOk)
  unfolding when_ready asked_for put_blocks
  put online rounds fuel storage_type none to_put to_lock to_put_ok s =
      when_ready s (storage_from_string storage_type)
        λ storage. some (s, throw (runtime_error (codes "Failed to open file")))
  put online rounds fuel storage_type (some content) to_put to_lock to_put_ok s =
      when_ready s
        (do
          storage ← storage_from_string storage_type
          check_call to_put
          check_call to_lock
          ok storage)
        λ storage.
          asked_for to_put_ok (length content)
            (put_blocks online rounds fuel storage (get_block_size storage) content s)

  unfoldable pub decode_each : D.State → StorageType → List Text → Result Text
  decode_each s storage [] = ok []
  decode_each s storage (t ∷ sub) = do
    block ← decode_one D code s storage t
    rest ← decode_each s storage sub
    ok (block ++ rest)

  -- `get`, for the inode that the namenode returned; without a storage type it is undefined.
  get_typed : D.State → Inode → Bool → Option StorageType → Result Text
  unfolding decode_each resize_file
  get_typed s inode opened none = abort
  get_typed s inode false (some storage) = throw (runtime_error (codes "Failed to open file"))
  get_typed s inode true (some storage) = do
    text ← decode_each s storage inode.sub
    ok (resize_file text inode.filesize)

  unfoldable pub get : D.State → Result Inode → Bool → Result Text
  unfolding get_typed
  get s remote opened = do inode ← remote; get_typed s inode opened inode.storage_type_ptr
