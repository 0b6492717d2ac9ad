-- ===== src/Fuse/Calls.antt =====
-- The callbacks that src/client/fuse.cpp hands to libfuse. An exception that leaves a callback ends
-- the process; so does what the language leaves undefined, here.
use spkdfs.Prelude.{
  ℕ, ◌+◌, ◌-◌, Option, none, some, List, [], ◌∷◌, ◌++◌, length, take, last?, pop_back, leb, ◌==◌,
  if◌then◌else◌,
}
use spkdfs.Prelude.Int.{ℤ, pos, negsuc, to_int}
use spkdfs.Exn.{
  Text, Result, ok, throw, abort, Exception, ErrorMessage, ErrorCode, message_exception,
  runtime_error, path_exists_exception, path_not_exists_exception,
}
use spkdfs.Text.{codes}
use spkdfs.Inode.{Inode}
use spkdfs.Fuse.{
  Client, Mount, open_path, mkdir, rm, truncate, ls, read, create, write, close, fsync,
}

-- What a callback returns, with what it writes to the caller's buffer; or what leaves it.
pub data Returned (A : Type 0) : Type 0 where
  returned : ℤ → A → Returned A
  escaped : Exception → Returned A
  undefined : Returned A

-- Of errno.h.
abbrev pub enoent : ℕ
enoent = 2

abbrev pub eio : ℕ
eio = 5

abbrev pub eexist : ℕ
eexist = 17

-- `-e`
abbrev pub minus : ℕ → ℤ
minus e = negsuc (e - 1)

-- What `getattr` fills in of a `struct stat`: `S_IFDIR | 0755` or `S_IFREG | 0644`.
pub record Stat : Type 0 where
  pub st_mode : ℕ
  pub st_nlink : ℕ
  pub st_size : ℕ

unfoldable pub stat_of : Inode → Stat
stat_of inode =
    if inode.is_directory
    then record { st_mode = 16877; st_nlink = 2; st_size = 0 }
    else record { st_mode = 33188; st_nlink = 1; st_size = inode.filesize }

stat_result : Result Inode → Returned (Option Stat)
unfolding stat_of
stat_result (ok inode) = returned (pos 0) (some (stat_of inode))
stat_result (throw (message_exception e)) = returned (minus enoent) none
stat_result (throw (runtime_error what)) = escaped (runtime_error what)
stat_result abort = undefined

-- `if (str.back() == '/') str.pop_back();`
unfoldable pub shown : Text → Option Text
shown str = elim (last? str) [
  | none ↦ none
  | some c ↦ some (if c == b'/' then pop_back str else str)
]

shown_before : Option Text → Option (List Text) → Option (List Text)
shown_before (some str) (some names) = some (str ∷ names)
shown_before (some str) none = none
shown_before none names = none

-- The names that are filled in; an empty name has no `back()`.
unfoldable pub entries : List Text → Option (List Text)
unfolding shown shown_before
entries [] = some []
entries (str ∷ sub) = shown_before (shown str) (entries sub)

listed : Option (List Text) → Returned (List Text)
listed (some names) = returned (pos 0) (codes "." ∷ codes ".." ∷ names)
listed none = undefined

dir_result : Result Inode → Returned (List Text)
unfolding listed entries
dir_result (ok inode) =
    if inode.is_directory
    then listed (entries inode.sub)
    else escaped (runtime_error (codes "not directory error"))
dir_result (throw e) = escaped e
dir_result abort = undefined

unfoldable pub mkdir_code : ErrorCode → ℤ
mkdir_code path_exists_exception = pos eexist
mkdir_code path_not_exists_exception = pos enoent
mkdir_code _ = pos eio

unfoldable pub mkdir_result : Result (Unit {0}) → Returned (Unit {0})
unfolding mkdir_code
mkdir_result (ok done) = returned (pos 0) tt
mkdir_result (throw (message_exception e)) = returned (mkdir_code e.code) tt
mkdir_result (throw (runtime_error what)) = returned (pos eio) tt
mkdir_result abort = undefined

-- `throw e` in a `catch` clause leaves the function: the next clause is not tried.
unfoldable pub rm_refused : ErrorMessage → ErrorCode → Returned (Unit {0})
rm_refused e path_exists_exception = returned (pos eexist) tt
rm_refused e path_not_exists_exception = returned (pos enoent) tt
rm_refused e _ = escaped (message_exception e)

unfoldable pub rm_result : Result (Unit {0}) → Returned (Unit {0})
unfolding rm_refused
rm_result (ok done) = returned (pos 0) tt
rm_result (throw (message_exception e)) = rm_refused e e.code
rm_result (throw (runtime_error what)) = returned (pos eio) tt
rm_result abort = undefined

-- `catch (const exception &e) { return -error; }`, or the value.
unfoldable pub or_errno : ℕ → ℤ → Result (Unit {0}) → Returned (Unit {0})
or_errno error value (ok done) = returned value tt
or_errno error value (throw e) = returned (minus error) tt
or_errno error value abort = undefined

open_result : Result (Unit {0}) → Returned (Unit {0})
open_result (ok done) = returned (pos 0) tt
open_result (throw e) = escaped e
open_result abort = undefined

-- `memcpy(buff, s.data(), size)`: a text has one byte more, which is 0; a longer range is undefined.
unfoldable pub memcpy : Text → ℕ → Option Text
memcpy s size = if leb size (length s + 1) then some (take size (s ++ 0 ∷ [])) else none

unfoldable pub copied : ℕ → Option Text → Returned (Option Text)
copied size (some bytes) = returned (to_int size) (some bytes)
copied size none = undefined

unfoldable pub read_result : ℕ → Result Text → Returned (Option Text)
unfolding copied memcpy
read_result size (ok s) = copied size (memcpy s size)
read_result size (throw e) = returned (minus enoent) none
read_result size abort = undefined

module _ (C : Client) where
  unfoldable pub spkdfs_getattr : Text → Mount C.State → Mount C.State × Returned (Option Stat)
  unfolding stat_result
  spkdfs_getattr path m = let (m', r) = ls C path m in (m', stat_result r)

  unfoldable pub spkdfs_readdir : Text → Mount C.State → Mount C.State × Returned (List Text)
  unfolding dir_result
  spkdfs_readdir path m = let (m', r) = ls C path m in (m', dir_result r)

  unfoldable pub spkdfs_mkdir : Text → Mount C.State → Mount C.State × Returned (Unit {0})
  unfolding mkdir_result
  spkdfs_mkdir path m = let (m', r) = mkdir C path m in (m', mkdir_result r)

  unfoldable pub spkdfs_rm : Text → Mount C.State → Mount C.State × Returned (Unit {0})
  unfolding rm_result
  spkdfs_rm path m = let (m', r) = rm C path m in (m', rm_result r)

  unfoldable pub spkdfs_truncate : Text → ℕ → Mount C.State → Mount C.State × Returned (Unit {0})
  unfolding or_errno
  spkdfs_truncate path size m =
      let (m', r) = truncate C path size m in (m', or_errno enoent (pos 0) r)

  unfoldable pub spkdfs_open : Text → ℕ → Mount C.State → Mount C.State × Returned (Unit {0})
  unfolding open_result
  spkdfs_open path flags m = let (m', r) = open_path C path flags m in (m', open_result r)

  unfoldable pub spkdfs_read : Text → ℕ → ℕ → Mount C.State → Mount C.State × Returned (Option Text)
  unfolding read_result
  spkdfs_read path size offset m =
      let (m', r) = read C path offset size m in (m', read_result size r)

  unfoldable pub spkdfs_write :
      Text → Text → ℕ → Mount C.State → Mount C.State × Returned (Unit {0})
  unfolding or_errno
  spkdfs_write path s offset m =
      let (m', r) = write C path offset s m in (m', or_errno eio (to_int (length s)) r)

  unfoldable pub spkdfs_close : Text → Mount C.State → Mount C.State × Returned (Unit {0})
  unfolding or_errno
  spkdfs_close path m = let (m', r) = close C path m in (m', or_errno eio (pos 0) r)

  unfoldable pub spkdfs_fsync : Text → Mount C.State → Mount C.State × Returned (Unit {0})
  unfolding or_errno
  spkdfs_fsync path m = let (m', r) = fsync C path m in (m', or_errno eio (pos 0) r)

  unfoldable pub spkdfs_create : Text → Mount C.State → Mount C.State × Returned (Unit {0})
  unfolding or_errno
  spkdfs_create path m = let (m', r) = create C path m in (m', or_errno eio (pos 0) r)
