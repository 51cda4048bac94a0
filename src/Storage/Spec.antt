-- ===== src/Storage/Spec.antt =====
-- What the storage promises, without its tables: blocks and nodes by CID, and backups by id.
-- Neither the reference tables nor the place of a block's bytes are seen.
pub mod References
pub mod Tracking
pub mod Rows
pub mod Refines
pub mod Steps
pub mod Dropping
pub mod Histories
use ib.Prelude.{
  ℕ, Str, Bytes, Dict, List, [], ◌∷◌, ◌++◌, Bool, true, false, not, ◌&&◌, ◌||◌, Option, none, some,
  any, filter, lookup, insert, str_eq, ltb, map, if◌then◌else◌,
}
use ib.Backup.Manifest.{Manifest}
use ib.Storage.ManifestStore.Save.{blocks_of}

-- A saved manifest: when it was made, its data, and what it refers to.
pub record Backup : Type 0 where
  pub tags : Dict Str
  pub created_at : ℕ
  pub content : Bytes
  pub blocks : List Str
  pub nodes : List Str

-- `pinned` are backups that are gone and still hold what they refer to, as happens where the
-- database does not cascade.
pub record Shelf : Type 0 where
  pub blocks : Str → Option Bytes
  pub nodes : Str → Option Bytes
  pub backups : Dict Backup
  pub pinned : List Backup

-- What a manifest is saved as, with the nodes that were made for it.
abbrev pub backup_of : Manifest → Bytes → List Str → Backup
backup_of m content node_cids = record {
  tags = m.tags;
  created_at = m.created_at;
  content = content;
  blocks = blocks_of m.entries;
  nodes = node_cids;
}

abbrev pub in_list : Str → List Str → Bool
in_list c cids = any (str_eq c) cids

-- Some backup, or some backup that is gone, refers to `c`; `refers` gives the references.
abbrev pub named : (Backup → List Str) → Str → Shelf → Bool
named refers c shelf =
    any (λ (i, b). in_list c (refers b)) shelf.backups
    || any (λ b. in_list c (refers b)) shelf.pinned

-- The calls that change the storage.
pub data Act : Type 0 where
  put_block : Str → Bytes → ℕ → Act
  put_node : Str → Bytes → Act
  put_backup : Manifest → Bytes → List Str → Act
  delete_backup : Str → Act
  prune_before : ℕ → Act

-- The backups that fail a test are gone.
unfoldable pub drop_backups : Bool → (Str × Backup → Bool) → Shelf → Shelf
drop_backups cascades keep shelf = record shelf {
  backups = filter keep shelf.backups;
  pinned =
      if cascades
      then shelf.pinned
      else map (λ (i, b). b) (filter (λ x. not (keep x)) shelf.backups) ++ shelf.pinned;
}

unfoldable pub sweep : Shelf → Shelf
sweep shelf = record shelf {
  blocks = λ c. if named (λ b. b.blocks) c shelf then shelf.blocks c else none;
  nodes = λ c. if named (λ b. b.nodes) c shelf then shelf.nodes c else none;
}

unfoldable pub act : Bool → Act → Shelf → Shelf
unfolding drop_backups sweep insert
act cascades (put_block cid content n) shelf = record shelf {
  blocks = λ c. if str_eq c cid then some content else shelf.blocks c;
}
act cascades (put_node cid content) shelf = record shelf {
  nodes = λ c. elim (shelf.nodes c) [
    | some old ↦ some old
    | none ↦ if str_eq c cid then some content else none
  ];
}
act cascades (put_backup m content node_cids) shelf = record shelf {
  backups = insert m.id (backup_of m content node_cids) shelf.backups;
}
act cascades (delete_backup id) shelf = drop_backups cascades (λ (i, b). not (str_eq id i)) shelf
act cascades (prune_before cutoff) shelf =
    sweep (drop_backups cascades (λ (i, b). not (ltb b.created_at cutoff)) shelf)
