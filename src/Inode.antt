-- ===== src/Inode.antt =====
-- include/common/inode.h and src/common/inode.cpp: the inode, its lock, its names, and the JSON
-- text that the database and the replies hold. The time is an argument.
pub mod RoundTrip
pub mod Lock
use spkdfs.Prelude.{
  ℕ, ◌+◌, ◌%◌, ◌^◌, ◌<◌, ◌≡◌, Bool, true, false, Option, none, some, List, [], ◌∷◌, ◌++◌, leb, ◌==◌,
  ◌&&◌, if◌then◌else◌,
}
use spkdfs.Prelude.Int.{ℤ, pos}
use spkdfs.Exn.{
  Text, Result, ok, throw, message_exception, expected_lock_conflict, ◌>>=◌, ◌>>◌, throw_if,
}
use spkdfs.Text.{codes, same_text}
use spkdfs.Text.Decimal.{print}
use spkdfs.FsPath.{simplify_path, slash}
use spkdfs.FsPath as FsPath
use spkdfs.Json.{JsonLib, or_json_error}
use spkdfs.Storage.{StorageType, get_block_size}
use spkdfs.Storage.JsonForm.{storage_to_json, storage_from_json}

pub record Inode : Type 0 where
  pub fullpath : Text
  pub is_directory : Bool
  pub filesize : ℕ
  pub storage_type_ptr : Option StorageType
  pub sub : List Text
  pub valid : Bool
  pub ddl_lock : ℕ

-- `Inode inode; inode.set_fullpath(path);`. The source leaves `valid` unset here, and every caller
-- sets it before it is read.
unfoldable pub new_inode : Text → Inode
new_inode path = record {
  fullpath = simplify_path path;
  is_directory = false;
  filesize = 0;
  storage_type_ptr = none;
  sub = [];
  valid = false;
  ddl_lock = 0;
}

unfoldable pub get_default_dir : Text → Inode
get_default_dir path = record {
  fullpath = simplify_path path;
  is_directory = true;
  filesize = 0;
  storage_type_ptr = none;
  sub = [];
  valid = true;
  ddl_lock = 0;
}

-- `LOCK_REFRESH_INTERVAL`, in seconds
abbrev pub lock_refresh_interval : ℕ
lock_refresh_interval = 60

-- `now` is what `get_time()` returns.
unfoldable pub update_ddl_lock : ℕ → Inode → Inode
update_ddl_lock now inode = record inode { ddl_lock = (now + lock_refresh_interval) % 2 ^ 64 }

pub being_edited : ℕ → Inode → Text
being_edited now inode =
    inode.fullpath
    ++ (codes " file is being edit! ddl_lock: "
        ++ (print inode.ddl_lock ++ (codes ", now: " ++ print now)))

unfoldable pub lock : ℕ → Inode → Result Inode
unfolding update_ddl_lock being_edited
lock now inode = do
  throw_if (leb now inode.ddl_lock) (
      message_exception
        (record { code = expected_lock_conflict; message = being_edited now inode }))
  ok (update_ddl_lock now inode)

unfoldable pub unlock : Inode → Inode
unlock inode = record inode { ddl_lock = 0 }

-- A directory's name ends in a separator.
unfoldable pub filename : Inode → Text
filename inode =
    if inode.is_directory
    then FsPath.filename inode.fullpath ++ slash
    else FsPath.filename inode.fullpath

unfoldable pub parent_path : Inode → Text
parent_path inode = FsPath.parent_path inode.fullpath

same_texts : List Text → List Text → Bool
same_texts [] [] = true
same_texts (s ∷ ss) (t ∷ ts) = let rest = same_texts ss ts in same_text s t && rest
same_texts _ _ = false

-- `operator==` looks at the blocks, or names, and the size alone.
unfoldable pub same_inode : Inode → Inode → Bool
unfolding same_texts
same_inode linode rinode = same_texts linode.sub rinode.sub && (linode.filesize == rinode.filesize)

unfoldable pub inode_block_size : Inode → Result ℤ
inode_block_size inode = elim inode.storage_type_ptr [
  | none ↦ ok (pos 0)
  | some st ↦ get_block_size st
]

-- The names of the fields in JSON.
unfoldable pub key_fullpath : Text
unfolding codes
key_fullpath = codes "fullpath"

unfoldable pub key_is_directory : Text
unfolding codes
key_is_directory = codes "is_directory"

unfoldable pub key_filesize : Text
unfolding codes
key_filesize = codes "filesize"

unfoldable pub key_sub : Text
unfolding codes
key_sub = codes "sub"

unfoldable pub key_valid : Text
unfolding codes
key_valid = codes "valid"

unfoldable pub key_ddl_lock : Text
unfolding codes
key_ddl_lock = codes "ddl_lock"

unfoldable pub key_storage_type : Text
unfolding codes
key_storage_type = codes "storage_type"

module _ (J : JsonLib) where
  inode_fields : Inode → List (Text × J.Json)
  inode_fields inode =
      (key_fullpath, J.of_text inode.fullpath)
      ∷ (key_is_directory, J.of_bool inode.is_directory)
      ∷ (key_filesize, J.of_uint inode.filesize)
      ∷ (key_sub, J.of_texts inode.sub)
      ∷ (key_valid, J.of_bool inode.valid)
      ∷ (key_ddl_lock, J.of_uint inode.ddl_lock)
      ∷ []

  -- The storage type is held as a text of its own.
  storage_field : Option StorageType → Result (List (Text × J.Json))
  storage_field none = ok []
  storage_field (some st) = do
    text ← or_json_error (J.dump (storage_to_json J st))
    ok ((key_storage_type, J.of_text text) ∷ [])

  unfoldable pub inode_to_json : Inode → Result J.Json
  unfolding inode_fields storage_field
  inode_to_json inode = do
    more ← storage_field inode.storage_type_ptr
    ok (J.object (inode_fields inode ++ more))

  storage_of_field : Option J.Json → Result (Option StorageType)
  storage_of_field none = ok none
  storage_of_field (some v) = do
    text ← or_json_error (J.to_text v)
    j ← or_json_error (J.parse text)
    st ← storage_from_json J j
    ok (some st)

  -- `j.at(name).get<T>()`
  get_at : {A : Type 0} → (J.Json → Option A) → J.Json → Text → Result A
  get_at get j name = do v ← or_json_error (J.at_key j name); or_json_error (get v)

  unfoldable pub inode_from_json : J.Json → Result Inode
  unfolding storage_of_field get_at
  inode_from_json j = do
    fullpath ← get_at J.to_text j key_fullpath
    is_directory ← get_at J.to_bool j key_is_directory
    filesize ← get_at J.to_uint j key_filesize
    storage ← storage_of_field (J.at_key j key_storage_type)
    sub ← get_at J.to_texts j key_sub
    valid ← get_at J.to_bool j key_valid
    ddl_lock ← get_at J.to_uint j key_ddl_lock
    ok (record {
      fullpath = simplify_path fullpath;
      is_directory = is_directory;
      filesize = filesize;
      storage_type_ptr = storage;
      sub = sub;
      valid = valid;
      ddl_lock = ddl_lock;
    })

  -- `value()`
  unfoldable pub inode_value : Inode → Result Text
  unfolding inode_to_json
  inode_value inode = do j ← inode_to_json inode; or_json_error (J.dump j)

  -- `json::parse(value).get<Inode>()`
  unfoldable pub parse_inode : Text → Result Inode
  unfolding inode_from_json
  parse_inode value = do j ← or_json_error (J.parse value); inode_from_json j
