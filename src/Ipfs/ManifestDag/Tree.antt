-- ===== src/Ipfs/ManifestDag/Tree.antt =====
-- The directory tree of manifest_dag.go. A map is held in the order of its keys, which is the order
-- in which sort.Strings puts them.
use ib.Prelude.{
  ℕ, ◌+◌, ◌%◌, ◌^◌, Str, Dict, List, [], ◌∷◌, Bool, true, false, ◌&&◌, ◌||◌, ltb, ◌==◌, str_eq,
  is_empty, split, if◌then◌else◌,
}
use ib.Backup.Manifest.{FileType, dir, Entry}

mutual
  pub data DirNode : Type 0 where
    dir_node : Children → Dict Entry → DirNode

  pub data Children : Type 0 where
    no_children : Children
    child : Str → DirNode → Children → Children

abbrev pub empty_dir : DirNode
empty_dir = dir_node no_children []

-- The order of Go's strings.
unfoldable pub str_lt : Str → Str → Bool
str_lt s [] = false
str_lt [] (y ∷ t) = true
str_lt (x ∷ s) (y ∷ t) = ltb x y || (x == y && str_lt s t)

-- `files[name] = entry`
unfoldable pub set_file : Str → Entry → Dict Entry → Dict Entry
unfolding str_lt str_eq
set_file name e [] = (name, e) ∷ []
set_file name e ((n, f) ∷ files) =
    let rest = set_file name e files in
    if str_eq name n
    then (n, e) ∷ files
    else if str_lt name n
    then (name, e) ∷ (n, f) ∷ files
    else (n, f) ∷ rest

-- `children[name]`, made if it is nil, and changed.
unfoldable pub with_child : Str → (DirNode → DirNode) → Children → Children
unfolding str_lt str_eq
with_child name change no_children = child name (change empty_dir) no_children
with_child name change (child n d rest) =
    let more = with_child name change rest in
    if str_eq name n
    then child n (change d) rest
    else if str_lt name n
    then child name (change empty_dir) (child n d rest)
    else child n d more

-- The last part of a path.
unfoldable pub add_last : FileType → Str → Entry → DirNode → DirNode
unfolding with_child set_file
add_last dir name e (dir_node children files) = dir_node (with_child name (λ d. d) children) files
add_last _ name e (dir_node children files) = dir_node children (set_file name e files)

-- The walk down from a directory along the parts of a path.
unfoldable pub add_path : List Str → Entry → DirNode → DirNode
unfolding add_last with_child
add_path [] e d = d
add_path (name ∷ []) e d = if is_empty name then d else add_last e.type name e d
add_path (part ∷ p ∷ parts) e (dir_node children files) =
    if is_empty part
    then add_path (p ∷ parts) e (dir_node children files)
    else dir_node (with_child part (add_path (p ∷ parts) e) children) files

unfoldable pub add_entries : List Entry → DirNode → DirNode
unfolding add_path split
add_entries [] d = d
add_entries (e ∷ es) d = add_entries es (add_path (split b'/' e.path) e d)

unfoldable pub build_tree : List Entry → DirNode
unfolding add_entries
build_tree entries = add_entries entries empty_dir

-- The sums on uint64.
unfoldable pub files_size : Dict Entry → ℕ
files_size [] = 0
files_size ((name, e) ∷ files) = (e.size + files_size files) % 2 ^ 64

unfoldable mutual
  unfolding files_size

  pub calculate_dir_size : DirNode → ℕ
  calculate_dir_size (dir_node children files) =
      (children_size children + files_size files) % 2 ^ 64

  pub children_size : Children → ℕ
  children_size no_children = 0
  children_size (child name d rest) = (calculate_dir_size d + children_size rest) % 2 ^ 64
