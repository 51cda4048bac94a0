-- ===== src/Backup/Manifest.antt =====
-- internal/backup/manifest.go: entries, manifests and the look-ups by path.
pub mod Index
use ib.Prelude.{
  hex, codes, Bytes, ℕ, Str, Dict, List, [], ◌∷◌, ◌++◌, Option, none, some, insert, str_eq,
  if◌then◌else◌,
}

-- `other` is any string that is none of the three constants: a manifest read from JSON may hold one.
pub data FileType : Type 0 where
  file : FileType
  dir : FileType
  symlink : FileType
  other : Str → FileType

-- `Size` and `Mtime` are int64 values by their bit patterns. `Blocks` is `[]` for nil: the program
-- makes no empty slice that is not nil, since it only appends to a nil one, and JSON omits it.
pub record Entry : Type 0 where
  pub path : Str
  pub type : FileType
  pub mode : ℕ
  pub mtime : ℕ
  pub size : ℕ
  pub cid : Str
  pub blocks : List Str
  pub link_target : Str

-- `CreatedAt` in Unix seconds.
pub record Manifest : Type 0 where
  pub id : Str
  pub tags : Dict Str
  pub created_at : ℕ
  pub root_path : Str
  pub root_cid : Str
  pub entries : List Entry

-- The second of the clock as text, such as 20060102-150405, and four random bytes.
unfoldable pub generate_id : Str → Bytes → Str
unfolding hex
generate_id second random = second ++ (codes "-" ++ hex random)

-- The identifier and the clock are the environment's.
unfoldable pub new_manifest : Str → ℕ → Dict Str → Str → Manifest
new_manifest id now tags root_path = record {
  id = id;
  tags = tags;
  created_at = now;
  root_path = root_path;
  root_cid = [];
  entries = [];
}

unfoldable pub add_entry : Manifest → Entry → Manifest
add_entry m e = record m { entries = m.entries ++ (e ∷ []) }

pub find_loop : List Entry → Str → Option Entry
find_loop [] path = none
find_loop (e ∷ es) path = if str_eq e.path path then some e else find_loop es path

unfoldable pub find_entry : Manifest → Str → Option Entry
unfolding find_loop
find_entry m path = find_loop m.entries path

index_loop : List Entry → Dict Entry → Dict Entry
index_loop [] index = index
index_loop (e ∷ es) index = index_loop es (insert e.path e index)

unfoldable pub build_entry_index : Manifest → Dict Entry
unfolding index_loop
build_entry_index m = index_loop m.entries []
