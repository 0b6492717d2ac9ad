-- ===== src/Tests/Mounted.antt =====
-- The theorems on the mounted file system, at concrete values.
use spkdfs.Prelude.{
  ◌≡◌, refl, ℕ, zero, suc, ◌+◌, ◌-◌, ◌≤◌, ◌<◌, true, Bool, some, List, [], ◌∷◌, ◌++◌, length, take,
  drop, arith,
}
use spkdfs.Prelude.Int.{to_int, pos, int_max}
use spkdfs.Exn.{
  Text, Result, ok, throw, ErrorMessage, path_exists_exception, message_exception, runtime_error,
}
use spkdfs.Text.{codes, same_text}
use spkdfs.Node.{Node, unknown, node_discovery}
use spkdfs.Sdk.Read.{read_data}
use spkdfs.Sdk.Read.Contents.{contents}
use spkdfs.Fuse.{Client, Mount, choose_node, first_online}
use spkdfs.Fuse.Connect.{choose_node-is_first}
use spkdfs.Fuse.Calls.{
  returned, undefined, spkdfs_write, spkdfs_create, spkdfs_close, spkdfs_fsync, spkdfs_read,
}
use spkdfs.Fuse.Refusals.{Succeeded, callbacks-report}
use spkdfs.Fuse.Reading.{spkdfs_read-reads}
use spkdfs.Tests.Client.{open_inode, open_inode_size, opened, opened-IsCache, hello}

abbrev node_at : ℕ → Node
node_at c = record { ip = b'1' ∷ b'0' ∷ b'.' ∷ c ∷ []; port = pos 1; node_status = unknown }

-- Only the fourth node answers.
abbrev fourth : Node → Bool
fourth n = same_text n.ip (node_at b'4').ip

abbrev four : List Node
four = node_at b'1' ∷ node_at b'2' ∷ node_at b'3' ∷ node_at b'4' ∷ []

choose_node-is_first_example :
    choose_node fourth four [] ≡ first_online (node_discovery fourth ([] ++ four))
choose_node-is_first_example = choose_node-is_first fourth four []

abbrev exists : ErrorMessage
exists = record { code = path_exists_exception; message = codes "exists" }

-- A client that counts its connections. The first one is broken; the others write, refuse to make
-- or remove anything, and read one file.
abbrev broken_or : {A : Type 0} → ℕ → Result A → Result A
broken_or zero r = throw (runtime_error (codes "broken"))
broken_or (suc n) r = r

abbrev refusing : Client
refusing = record {
  State = ℕ;
  answers = λ s. fourth;
  connect = λ s address. (s + 1, ok tt);
  delete = λ s. s;
  open_path = λ s path flags. (s, ok tt);
  mkdir = λ s path. (s, broken_or s (throw (message_exception exists)));
  rm = λ s path. (s, broken_or s (throw (message_exception exists)));
  truncate = λ s path size. (s, ok tt);
  ls = λ s path. (s, ok open_inode);
  read_data = λ s path offset size.
      (s, (read_data (λ t. ok hello) (λ i. true) opened (some open_inode) offset size).1);
  create = λ s path. (s, broken_or s (ok tt));
  write_data = λ s path offset text. (s, broken_or s (ok tt));
  close = λ s path. (s, broken_or s (ok tt));
  fsync = λ s path. (s, broken_or s (ok tt));
}

abbrev mount : ℕ → Mount ℕ
mount n = record { nodes = four; sdk = true; state = n }

abbrev file : Text
file = b'/' ∷ b'f' ∷ []

callbacks-report_example :
    ((s : Text) (offset : ℕ)
      → length s ≤ int_max
      → spkdfs_write refusing file s offset (mount 0) ≡ (mount 1, returned (pos 0) tt)
      → Succeeded refusing (λ st. refusing.write_data st file offset s) (mount 1) tt)
    × (spkdfs_create refusing file (mount 0) ≡ (mount 1, returned (pos 0) tt)
        → Succeeded refusing (λ st. refusing.create st file) (mount 1) tt)
    × (spkdfs_close refusing file (mount 0) ≡ (mount 1, returned (pos 0) tt)
        → Succeeded refusing (λ st. refusing.close st file) (mount 1) tt)
    × (spkdfs_fsync refusing file (mount 0) ≡ (mount 1, returned (pos 0) tt)
        → Succeeded refusing (λ st. refusing.fsync st file) (mount 1) tt)
callbacks-report_example = callbacks-report refusing (mount 0) (mount 1) file 0

spkdfs_read-reads_example :
    (1 + 3 ≤ 5
      → spkdfs_read refusing file 3 1 (mount 1)
        ≡ (mount 1, returned (pos 3) (some (take 3 (drop 1 (contents (hello ∷ [])))))))
    × (3 ≡ 5 - 1 + 1
        → spkdfs_read refusing file 3 1 (mount 1) ≡ (
          mount 1,
          returned (to_int 3) (some (take (5 - 1) (drop 1 (contents (hello ∷ []))) ++ 0 ∷ [])),
        ))
    × (5 - 1 + 1 < 3 → spkdfs_read refusing file 3 1 (mount 1) ≡ (mount 1, undefined))
spkdfs_read-reads_example =
    spkdfs_read-reads refusing (λ t. ok hello) (λ i. true) (mount 1) 1 file 2097152 open_inode
      (hello ∷ []) opened 1 3 refl refl (λ i. refl) open_inode_size (omega arith) (refl, tt)
      (omega arith) opened-IsCache (omega arith) (omega arith) (omega arith)
