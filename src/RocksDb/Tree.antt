-- ===== src/RocksDb/Tree.antt =====
-- The abstract file tree: an inode, or none, at each path. What the four operations do to it.
use spkdfs.Prelude.{◌≡◌, sym, ap, ◌∙◌, Option, none, some, if◌then◌else◌, true, List}
use spkdfs.Exn.{Text}
use spkdfs.Text.{same_text, same_text_refl}
use spkdfs.FsPath.{slash}
use spkdfs.Inode.{Inode, get_default_dir, new_inode, filename, parent_path, unlock}
use spkdfs.RocksDb.{add_name, remove_name}

abbrev pub Tree : Type 0
Tree = Text → Option Inode

abbrev pub insert : Inode → Tree → Tree
insert inode tree key = if same_text inode.fullpath key then some inode else tree key

-- The root needs no entry of its own.
abbrev pub root_if_slash : Text → Option Inode → Option Inode
root_if_slash path (some parent) = some parent
root_if_slash path none = if same_text path slash then some (get_default_dir slash) else none

unfoldable pub parent_in : Tree → Inode → Option Inode
parent_in tree inode = root_if_slash (parent_path inode) (tree (parent_path inode))

abbrev pub with_sub : (List Text → List Text) → Inode → Inode
with_sub f inode = record inode { sub = f inode.sub }

-- A node with a change to its parent's names, where it has a parent.
abbrev pub link : (List Text → List Text) → Option Inode → Inode → Tree → Tree
link f none inode tree = tree
link f (some parent) inode tree = insert inode (insert (with_sub f parent) tree)

unfoldable pub tree_mkdir : Inode → Tree → Tree
tree_mkdir inode tree = link (add_name (filename inode)) (parent_in tree inode) inode tree

unfoldable pub tree_rm : Inode → Tree → Tree
tree_rm inode tree = link (remove_name (filename inode)) (parent_in tree inode) inode tree

unfoldable pub tree_put : Inode → Tree → Tree
tree_put inode tree = insert inode tree

-- What `get_inode` finds at a path.
abbrev pub entry_or_new : Text → Option Inode → Inode
entry_or_new path (some inode) = inode
entry_or_new path none =
    if same_text path slash
    then record (new_inode path) { is_directory = true; valid = true }
    else new_inode path

-- The stored inode with the blocks and the size of `inode`, and its lock released.
unfoldable pub settled : Tree → Inode → Inode
settled tree inode = record (unlock (entry_or_new inode.fullpath (tree inode.fullpath))) {
  sub = inode.sub;
  filesize = inode.filesize;
}

unfoldable pub tree_put_ok : Inode → Tree → Tree
tree_put_ok inode tree =
    link (add_name (filename inode)) (parent_in tree inode) (settled tree inode) tree

pub insert_self :
    (inode : Inode) (tree : Tree) (path : Text)
    → inode.fullpath ≡ path
    → insert inode tree path ≡ some inode
insert_self inode tree path e =
    ap (λ b. if b then some inode else tree path)
      (ap (same_text inode.fullpath) (sym e) ∙ same_text_refl inode.fullpath)
