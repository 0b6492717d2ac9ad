-- ===== src/Sdk/Calls.antt =====
-- `mkdir`, `rm`, `ls` and `get_remote_inode` of src/client/sdk.cpp: the client's calls of the
-- namenodes, which are a parameter.
pub mod Served
use spkdfs.Prelude.{List}
use spkdfs.Exn.{Text, Result, ok, ◌>>=◌}
use spkdfs.Json.{JsonLib}
use spkdfs.Inode.{Inode, parse_inode}
use spkdfs.Reply.{Response}
use spkdfs.Sdk.Transfer.{Called, check_call, checked_data}

-- The stubs of the master, which changes, and of the slave.
pub record Stubs : Type 1 where
  pub State : Type 0
  pub call_mkdir : State → Text → State × Called Response
  pub call_rm : State → Text → State × Called Response
  pub call_ls : State → Text → Called (Response × Text)

module _ (N : Stubs) where
  unfoldable pub mkdir : N.State → Text → N.State × Result (Unit {0})
  mkdir s dst = let (s', called) = N.call_mkdir s dst in (s', check_call called)

  unfoldable pub rm : N.State → Text → N.State × Result (Unit {0})
  rm s dst = let (s', called) = N.call_rm s dst in (s', check_call called)

  unfoldable pub get_remote_inode : JsonLib → N.State → Text → Result Inode
  get_remote_inode J s dst = do data' ← checked_data (N.call_ls s dst); parse_inode J data'

  unfoldable pub ls : JsonLib → N.State → Text → Result Inode
  ls J s path = get_remote_inode J s path
