-- ===== src/FsPath.antt =====
-- `std::filesystem::path` as include/common/inode.h and src/common/inode.cpp use it on POSIX:
-- `lexically_normal`, `filename` and `parent_path`, and `simplify_path` of src/common/utils.cpp.
pub mod Normal
pub mod Simplify
pub mod Parent
use mathlib.Core.List.{reverse}
use spkdfs.Prelude.{
  Bool, true, false, ◌&&◌, ◌||◌, not, Option, none, some, ltb, List, [], ◌∷◌, ◌++◌, ◌==◌, length,
  pop_back, last?, keep_if, any, ℕ, if◌then◌else◌,
}
use spkdfs.Exn.{Text}
use spkdfs.Text.{same_text}
use spkdfs.Text.Split.{tokens}

abbrev pub slash : Text
slash = b'/' ∷ []

abbrev pub dot : Text
dot = b'.' ∷ []

abbrev pub dot_dot : Text
dot_dot = b'.' ∷ b'.' ∷ []

abbrev pub is_empty : Text → Bool
is_empty [] = true
is_empty (c ∷ s) = false

abbrev pub is_absolute : Text → Bool
is_absolute [] = false
is_absolute (c ∷ s) = c == b'/'

-- The names between the separators, however many separators stand in a row.
unfoldable pub segments : Text → List Text
unfolding tokens
segments s = keep_if (λ t. not (is_empty t)) (tokens b'/' s)

-- The names kept so far, the last one first. A `..` takes a name away; it is dropped at the root,
-- and kept where nothing but `..` stands before it.
unfoldable pub up : Bool → List Text → List Text
up true [] = []
up false [] = dot_dot ∷ []
up absolute (t ∷ names) = if same_text t dot_dot then dot_dot ∷ t ∷ names else names

unfoldable pub enter : Bool → Text → List Text → List Text
unfolding up
enter absolute t names =
    if same_text t dot then names else if same_text t dot_dot then up absolute names else t ∷ names

unfoldable pub walk : Bool → List Text → List Text → List Text
walk absolute [] names = names
walk absolute (t ∷ ts) names = walk absolute ts (enter absolute t names)

unfoldable pub join : List Text → Text
join [] = []
join (t ∷ []) = t
join (t ∷ u ∷ ts) = t ++ b'/' ∷ join (u ∷ ts)

abbrev pub root : Bool → Text
root absolute = if absolute then slash else []

-- The path ends in a separator, in `.` or in `..`.
abbrev special : Option Text → Bool
special none = false
special (some t) = same_text t dot || same_text t dot_dot

abbrev ends_slash : Option ℕ → Bool
ends_slash none = false
ends_slash (some c) = c == b'/'

unfoldable pub names_directory : Text → Bool
names_directory s = ends_slash (last? s) || special (last? (segments s))

-- A name that is not `..` keeps a separator behind it if the path named a directory.
unfoldable pub trailing : Text → List Text → Text
unfolding names_directory
trailing s [] = []
trailing s (t ∷ names) = if not (same_text t dot_dot) && names_directory s then slash else []

unfoldable pub lexically_normal : Text → Text
unfolding segments enter walk join trailing
lexically_normal [] = []
lexically_normal (c ∷ s) =
    let names = walk (c == b'/') (segments (c ∷ s)) [] in
    let res = root (c == b'/') ++ (join (reverse names) ++ trailing (c ∷ s) names) in
    if is_empty res then dot else res

-- `if (res.size() > 1 && res.back() == '/') res.pop_back();`
unfoldable pub drop_slash : Text → Text
drop_slash res = if ltb 1 (length res) && ends_slash (last? res) then pop_back res else res

unfoldable pub simplify_path : Text → Text
unfolding lexically_normal drop_slash
simplify_path path = drop_slash (lexically_normal path)

abbrev pub has_slash : Text → Bool
has_slash = any (λ c. c == b'/')

-- What follows the last separator.
unfoldable pub filename : Text → Text
filename [] = []
filename (c ∷ s) =
    let rest = filename s in if has_slash s then rest else if c == b'/' then s else c ∷ s

-- What precedes it, the separator included.
unfoldable pub directory_part : Text → Text
directory_part [] = []
directory_part (c ∷ s) = let rest = directory_part s in if has_slash (c ∷ s) then c ∷ rest else []

unfoldable pub strip_slashes : Text → Text
strip_slashes [] = []
strip_slashes (c ∷ s) =
    let rest = strip_slashes s in if c == b'/' && is_empty rest then [] else c ∷ rest

unfoldable pub parent_path : Text → Text
unfolding directory_part strip_slashes
parent_path path =
    let parent = strip_slashes (directory_part path) in
    if is_empty (strip_slashes path)
    then path
    else if is_empty parent
    then root (is_absolute path)
    else parent
