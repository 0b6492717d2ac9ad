-- ===== src/Datanode/Blocks.antt =====
-- Blocks are kept under their ids.
use spkdfs.Prelude.{
  ◌≡◌, ◌≢◌, refl, sym, ap, ◌%◌, ◌^◌, ◌≤◌, ◌<◌, length, take, some, [], ◌∷◌, ◌++◌, true,
  Option-cases, inl, inr,
}
use spkdfs.Exn.{Text, runtime_error}
use spkdfs.Text.{codes}
use spkdfs.Reply.{replied, done, try_catch, fail_response}
use spkdfs.Datanode.{Files, IsFiles, block_path, put, get, read_file}
use spkdfs.ReadFile.{read_bytes-fits, read_bytes-fails, read_bytes-wraps}
use spkdfs.Prelude.Int.{int_max}

++_injective : (s t u : Text) → s ++ t ≡ s ++ u → t ≡ u
++_injective [] t u e = e
++_injective (c ∷ s) t u e = ++_injective s t u cc

block_path_injective : (data_dir a b : Text) → block_path data_dir a ≡ block_path data_dir b → a ≡ b
unfolding block_path
block_path_injective data_dir a b e =
    ++_injective (codes "/blk_") a b
      (++_injective data_dir (codes "/blk_" ++ a) (codes "/blk_" ++ b) e)

module _ (F : Files) (law : IsFiles F) (data_dir : Text) where
  put-success :
      (s : F.State) (blkid data' : Text)
      → (put F data_dir s blkid data').1.success ≡ true
      → F.store s (block_path data_dir blkid) data' ≡ some (put F data_dir s blkid data').0
  unfolding put fail_response
  put-success s blkid data' h = elim (Option-cases (F.store s (block_path data_dir blkid) data')) [
    | inl e ↦ absurd (cc (rw e at h))
    | inr (t, e) ↦ rw e refl
  ]

  -- After a `put` that is answered with success, where no write fails behind the source's back,
  -- `get` of any other block returns what it did before. `get` of the block returns its data if
  -- these are below 2 GiB. Otherwise it depends on the size in 32 bits: from 2 GiB on, `get` is
  -- answered with a failure; less than that, as it is again from 4 GiB of data on, it returns only
  -- so many of their first bytes.
  pub get-put :
      (s : F.State) (blkid other data' : Text)
      → (put F data_dir s blkid data').1.success ≡ true
      → other ≢ blkid
      → (length data' ≤ int_max
          → get F data_dir (put F data_dir s blkid data').0 blkid ≡ done data')
        × (int_max < length data' % 2 ^ 32
            → (what : Text) × (get F data_dir (put F data_dir s blkid data').0 blkid
                ≡ replied (fail_response (runtime_error what))))
        × (length data' % 2 ^ 32 ≤ int_max
            → get F data_dir (put F data_dir s blkid data').0 blkid
              ≡ done (take (length data' % 2 ^ 32) data'))
        × (get F data_dir (put F data_dir s blkid data').0 other ≡ get F data_dir s other)
  unfolding get try_catch read_file
  get-put s blkid other data' h apart =
      let stored = put-success s blkid data' h in
      let path = block_path data_dir blkid in
      let now = law.load-store s (put F data_dir s blkid data').0 path data' stored in
      (
        λ fits. rw now (ap try_catch (read_bytes-fits data' fits)),
        λ over. (
          codes "basic_string::_M_replace_aux",
          rw now (ap try_catch (read_bytes-fails data' over)),
        ),
        λ wrapped.
            rw now (ap try_catch (read_bytes-wraps data' (length data' % 2 ^ 32) refl wrapped)),
        rw
            (law.load-store_other s (put F data_dir s blkid data').0 path
              (block_path data_dir other) data'
              (λ e. apart (sym (block_path_injective data_dir blkid other e))) stored)
            refl,
      )
