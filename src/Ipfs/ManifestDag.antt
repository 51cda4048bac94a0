-- ===== src/Ipfs/ManifestDag.antt =====
-- internal/ipfsnode/manifest_dag.go: the nodes of a manifest's files and directories, and their
-- saving through a NodeCollector.
pub mod Tree
pub mod Blocks
pub mod Contents
pub mod Directories
pub mod Files
pub mod Inversions
pub mod Links
pub mod Look
pub mod Named
pub mod Order
pub mod Paths
pub mod Placed
pub mod Saved
pub mod Steps
use ib.Prelude.{
  ℕ, zero, suc, ◌+◌, ◌-◌, ◌*◌, ◌%◌, ◌^◌, Str, Bytes, codes, Dict, List, [], ◌∷◌, ◌++◌, Bool, true,
  false, ◌&&◌, ◌||◌, Option, none, some, Result, ok, err, length, ltb, ◌==◌, str_eq, is_empty,
  split, clean, if◌then◌else◌,
}
use ib.Backup.Manifest.{FileType, file, dir, symlink, other, Entry, Manifest}
use ib.Backup.Chunker.{chunk_size}
use ib.Storage.Object.{S3}
use ib.Storage.Tables.{Env, Store}
use ib.Storage.Node.{save_node}
use ib.Ipfs.Dag.{Cids, DagNode, DirEntry, build_file_node, build_dir_node}
use ib.Ipfs.ManifestDag.Tree.{
  DirNode, dir_node, Children, no_children, child, build_tree, calculate_dir_size,
}

-- A NodeCollector over a Storage.
pub record NodeCollector (S : S3) : Type 0 where
  pub saver : Store S
  pub node_cids : List Str

-- `blockSizes[j]` for each block, from the `j`-th on.
unfoldable pub block_sizes : ℕ → ℕ → List Str → List ℕ
block_sizes size j [] = []
block_sizes size j (c ∷ []) = (size + (2 ^ 64 - (j * chunk_size) % 2 ^ 64)) % 2 ^ 64 ∷ []
block_sizes size j (c ∷ d ∷ cids) = chunk_size ∷ block_sizes size (j + 1) (d ∷ cids)

module _ (S : S3) (k : Cids) (e : Env) where
  unfoldable pub collect_node : Str → Bytes → NodeCollector S → NodeCollector S × Option Str
  unfolding save_node
  collect_node cid content nc =
      let (s, failure) = save_node S e cid content nc.saver in
      elim failure [
        | some m ↦ (record nc { saver = s }, some m)
        | none ↦ (record { saver = s; node_cids = nc.node_cids ++ (cid ∷ []) }, none)
      ]

  -- The body of the first loop for a file: its CID, or an error.
  unfoldable pub file_cid : Entry → List Str → NodeCollector S → NodeCollector S × Result Str
  unfolding collect_node build_file_node block_sizes
  file_cid x [] nc = (nc, ok x.cid)
  file_cid x (c ∷ []) nc = (nc, ok c)
  file_cid x (c ∷ d ∷ cids) nc =
      elim (build_file_node k (c ∷ d ∷ cids) (block_sizes x.size 0 (c ∷ d ∷ cids)) x.size) [
        | err m ↦ (nc, err m)
        | ok none ↦ (nc, ok x.cid)
        | ok (some n) ↦
            let (nc', failure) = collect_node n.cid n.node_data nc in
            elim failure [ some m ↦ (nc', err m) | none ↦ (nc', ok n.cid) ]
      ]

  pub file_type_cid : FileType → Entry → NodeCollector S → NodeCollector S × Result Str
  unfolding file_cid
  file_type_cid file x nc = file_cid x x.blocks nc
  file_type_cid _ x nc = (nc, ok x.cid)

  -- Step 1. The entries that were not reached stay as they were, and are not used after an error.
  unfoldable pub process_files :
      List Entry → NodeCollector S → NodeCollector S × Result (List Entry)
  unfolding file_type_cid
  process_files [] nc = (nc, ok [])
  process_files (x ∷ xs) nc =
      let (nc1, r1) = file_type_cid x.type x nc in
      elim r1 [
        | err m ↦ (nc1, err m)
        | ok c ↦
            let (nc2, r2) = process_files xs nc1 in
            elim r2 [ err m ↦ (nc2, err m) | ok ys ↦ (nc2, ok (record x { cid = c } ∷ ys)) ]
      ]

  -- The files of a directory, by name. An entry without a CID, or with one that does not decode, is
  -- left out.
  unfoldable pub file_dir_entries : Dict Entry → List DirEntry
  file_dir_entries [] = []
  file_dir_entries ((name, x) ∷ files) =
      let rest = file_dir_entries files in
      if is_empty x.cid then rest else elim (k.decode x.cid) [
        | err m ↦ rest
        | ok c ↦ record { name = name; cid = c; size = x.size } ∷ rest
      ]

  pub save_dir : List DirEntry → NodeCollector S → NodeCollector S × Result Str
  unfolding collect_node build_dir_node
  save_dir entries nc =
      let n = build_dir_node k entries in
      let (nc', failure) = collect_node n.cid n.node_data nc in
      elim failure [ some m ↦ (nc', err m) | none ↦ (nc', ok n.cid) ]

  -- buildDirNodeRecursive: the children's nodes first, then the directory's own.
  unfoldable mutual
    unfolding save_dir file_dir_entries

    pub build_dir_node_recursive : DirNode → NodeCollector S → NodeCollector S × Result Str
    build_dir_node_recursive (dir_node children files) nc =
        let (nc1, r1) = build_children children nc in
        elim r1 [
          | err m ↦ (nc1, err m)
          | ok entries ↦ save_dir (entries ++ file_dir_entries files) nc1
        ]

    pub build_children : Children → NodeCollector S → NodeCollector S × Result (List DirEntry)
    build_children no_children nc = (nc, ok [])
    build_children (child name d rest) nc =
        let (nc1, r1) = build_dir_node_recursive d nc in
        elim r1 [
          | err m ↦ (nc1, err m)
          | ok c ↦
              let (nc2, r2) = build_children rest nc1 in
              elim r2 [
                | err m ↦ (nc2, err m)
                | ok entries ↦ (
                  nc2,
                  ok (record { name = name; cid = c; size = calculate_dir_size d } ∷ entries),
                )
              ]
        ]

  -- The manifest with its CIDs, or the error.
  unfoldable pub build_manifest_dag : Manifest → NodeCollector S → NodeCollector S × Result Manifest
  unfolding process_files build_dir_node_recursive build_tree
  build_manifest_dag m nc =
      let (nc1, r1) = process_files m.entries nc in
      elim r1 [
        | err msg ↦ (nc1, err msg)
        | ok entries ↦
            let (nc2, r2) = build_dir_node_recursive (build_tree entries) nc1 in
            elim r2 [
              | err msg ↦ (nc2, err msg)
              | ok root ↦ (nc2, ok (record m { entries = entries; root_cid = root }))
            ]
      ]

only_block : List Str → Str
only_block (c ∷ []) = c
only_block _ = []

unfoldable pub get_entry_cid : Entry → Str
unfolding only_block
get_entry_cid x = if is_empty x.cid then only_block x.blocks else x.cid

unfoldable pub get_entry_path : Str → Str → Str
get_entry_path root path = codes "/ipfs/" ++ (root ++ (codes "/" ++ clean path))
