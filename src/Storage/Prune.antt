-- ===== src/Storage/Prune.antt =====
-- PruneManifests and pruneOrphanedBlocksLocked of internal/storage/storage.go.
pub mod Safe
pub mod Leak
pub mod Complete
use ib.Prelude.{
  ℕ, Str, Dict, List, [], ◌∷◌, Bool, true, false, not, Option, none, some, erase, ltb, is_empty,
  map, filter, if◌then◌else◌,
}
use ib.Storage.Object.{S3}
use ib.Storage.Tables.{
  BlockRow, NodeRow, ManifestRow, Db, Env, Store, delete_old, select_orphans, select_orphan_nodes,
  delete_block, delete_node, is_referenced,
}
use ib.Storage.Block.{block_s3_key}
use ib.Storage.ManifestStore.{keep_manifests}

-- SELECT ... LEFT JOIN ... WHERE br.cid IS NULL: the rows that no reference names.
unfoldable pub orphans {ℓ} : {V : Type ℓ} → List (Str × Str) → Dict V → Dict V
unfolding is_referenced
orphans refs rows = filter (λ (c, row). not (is_referenced c refs)) rows

pub with_s3 : Dict BlockRow → List Str
with_s3 [] = []
with_s3 ((c, row) ∷ rows) =
    let rest = with_s3 rows in if is_empty row.s3_key then rest else c ∷ rest

pub keys {ℓ} : {V : Type ℓ} → Dict V → List Str
keys = map λ (c, row). c

-- DELETE FROM manifests WHERE created_at < ?
unfoldable pub drop_old : ℕ → Dict ManifestRow → Dict ManifestRow
drop_old cutoff rows = filter (λ (i, row). not (ltb row.created_at cutoff)) rows

module _ (S : S3) where
  -- A failure is printed and the loop goes on.
  pub delete_objects : List Str → S.State → S.State
  delete_objects [] o = o
  delete_objects (c ∷ cids) o = delete_objects cids (S.delete (block_s3_key c) o).0

  pub delete_blocks : Env → List Str → Store S → Store S × Option Str
  delete_blocks e [] s = (s, none)
  delete_blocks e (c ∷ cids) s = elim (e.db_error (delete_block c)) [
    | some m ↦ (s, some m)
    | none ↦ delete_blocks e cids (record s { db = record (s.db) { blocks = erase c s.db.blocks } })
  ]

  pub delete_nodes : Env → List Str → Store S → Store S × Option Str
  delete_nodes e [] s = (s, none)
  delete_nodes e (c ∷ cids) s = elim (e.db_error (delete_node c)) [
    | some m ↦ (s, some m)
    | none ↦ delete_nodes e cids (record s { db = record (s.db) { nodes = erase c s.db.nodes } })
  ]

  pub prune_nodes : Env → Store S → Store S × Option Str
  unfolding delete_nodes orphans keys
  prune_nodes e s = elim (e.db_error select_orphan_nodes) [
    | some m ↦ (s, some m)
    | none ↦ delete_nodes e (keys (orphans s.db.node_refs s.db.nodes)) s
  ]

  unfoldable pub prune_orphaned_blocks : Env → Store S → Store S × Option Str
  unfolding delete_objects delete_blocks prune_nodes orphans with_s3 keys
  prune_orphaned_blocks e s = elim (e.db_error select_orphans) [
    | some m ↦ (s, some m)
    | none ↦
        let found = orphans s.db.block_refs s.db.blocks in
        let s' : Store S = record s { objects = delete_objects (with_s3 found) s.objects } in
        let (s'', failure) = delete_blocks e (keys found) s' in
        elim failure [ some m ↦ (s'', some m) | none ↦ prune_nodes e s'' ]
  ]

  unfoldable pub prune_manifests : Env → ℕ → Store S → Store S × Option Str
  unfolding drop_old keep_manifests prune_orphaned_blocks
  prune_manifests e cutoff s = elim (e.db_error delete_old) [
    | some m ↦ (s, some m)
    | none ↦
        prune_orphaned_blocks e
          (record s { db = keep_manifests (drop_old cutoff s.db.manifests) s.db })
  ]
