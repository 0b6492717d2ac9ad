-- ===== src/Sdk/Fsync/Stores.antt =====
-- What `fsync` sends.
use spkdfs.Prelude.{ℕ, ◌+◌, ◌*◌, ◌≤◌, max, ◌≡◌, true, false, Option, some, [], length}
use spkdfs.Prelude.Int.{int_max}
use spkdfs.Exn.{Text, Result, ok}
use spkdfs.Inode.{Inode}
use spkdfs.Sdk.Read.{find_file}
use spkdfs.Sdk.Write.{Local, held}
use spkdfs.Sdk.Write.Links.{is_linked}
use spkdfs.Sdk.Fsync.{PutOk}
use spkdfs.Sdk.Fsync.Entries.{item}

module _ {S : Type 0} (encode_one : S → Text → S × Result Text) where
  -- Some call of `encode_one` for the block came to the text.
  abbrev pub IsEncoded : Text → Text → Type 0
  IsEncoded block text = (s : S) × (s' : S) × (encode_one s block ≡ (s', ok text))

  -- What is sent and what is left, for the blocks that were linked.
  abbrev pub Stored : Local → Local → Inode → ℕ → Option PutOk → Type 0
  Stored l l' inode bs request =
      (sent : PutOk) × (last : ℕ) × (request ≡ some sent)
      × (l'.linked ≡ [])
      × (l'.files ≡ l.files)
      × (is_linked last l.linked ≡ true)
      × ((i : ℕ) → is_linked i l.linked ≡ true → i ≤ last)
      × ((i : ℕ)
          → is_linked i l.linked ≡ true
          → IsEncoded (held (find_file l.files i)) (item sent.sub i))
      × ((i : ℕ) → is_linked i l.linked ≡ false → item sent.sub i ≡ item inode.sub i)
      × (max inode.filesize (last * bs + length (held (find_file l.files last))) ≤ int_max
          → sent.filesize ≡ max inode.filesize (last * bs + length (held (find_file l.files last))))
