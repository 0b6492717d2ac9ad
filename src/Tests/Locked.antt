-- ===== src/Tests/Locked.antt =====
-- The theorem on truncating a path, at concrete values.
use spkdfs.Prelude.{◌≡◌, refl, ◌<◌, true, false, none, some, [], ◌∷◌, arith}
use spkdfs.Exn.{Text, ok}
use spkdfs.Reply.{succ_response, check_response}
use spkdfs.PathLocks.{shared, find_lock, find_or_make}
use spkdfs.Sdk.Transfer.{answered, check_call}
use spkdfs.Sdk.Session.{Session, Answers, done, broken, truncate}
use spkdfs.Sdk.Session.Truncate.{truncate-unlocks}
use spkdfs.Tests.Client.{open_inode, open_inode_size}

-- The namenode accepts everything, and knows a file that is not empty.
abbrev answers : Answers
answers = record {
  to_create = ok tt;
  to_lock = answered succ_response;
  to_ls = ok open_inode;
  to_put_ok = λ request. answered succ_response;
}

abbrev first_use : Session
first_use = record {
  locks = [];
  remote_lock = false;
  inode = none;
  local = record { files = []; linked = [] };
}

abbrev key : Text
key = b'k' ∷ []

truncate-unlocks_example :
    (open_inode.filesize ≡ 0
      → (s' : Session) × (truncate key answers 0 first_use ≡ done s')
        × (find_lock s'.locks key ≡ some (record { for_writer = true; mutex = shared 0 })))
    × (0 < open_inode.filesize → truncate key answers 0 first_use ≡ broken)
unfolding find_lock find_or_make check_call check_response
truncate-unlocks_example =
    truncate-unlocks key answers 0 2097152 first_use open_inode refl refl refl (λ r. refl)
      open_inode_size (omega arith)
