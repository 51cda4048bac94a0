-- ===== src/Storage/Prune/Leak.antt =====
-- Where pruning does less, or more, than the owners of the blocks expect.
use ib.Prelude.{
  ℕ, ◌≡◌, refl, Str, Dict, codes, List, [], ◌∷◌, ◌++◌, Bool, true, false, err, arith, lookup, erase,
}
use ib.Storage.Object.{S3}
use ib.Storage.Tables.{ManifestRow, Env, IsHealthy, Store, select_block, is_referenced}
use ib.Storage.Block.{get_block}
use ib.Storage.ManifestStore.{keep_manifests, cascade, delete_manifest_row}
use ib.Storage.Prune.{
  orphans, keys, with_s3, drop_old, delete_objects, delete_blocks, delete_nodes, prune_nodes,
  prune_orphaned_blocks, prune_manifests,
}
use ib.Storage.Prune.Safe.{prune_keeps_row, delete_blocks_objects}
use ib.Storage.Prune.Complete.{prune_manifests_exact}

-- The calls that free storage, each with what it meets.
pub data Op : Type 0 where
  delete : Env → Str → Op
  prune : Env → ℕ → Op

module _ (S : S3) where
  unfoldable pub run : List Op → Store S → Store S
  run [] s = s
  run (delete e id ∷ ops) s = run ops (delete_manifest_row S e id s).0
  run (prune e cutoff ∷ ops) s = run ops (prune_manifests S e cutoff s).0

  delete_nodes_refs :
      (e : Env) (cids : List Str) (s : Store S)
      → ((delete_nodes S e cids s).0.db.block_refs ≡ s.db.block_refs)
        × ((delete_nodes S e cids s).0.db.foreign_keys ≡ s.db.foreign_keys)
  unfolding delete_nodes
  delete_nodes_refs e [] s = (refl, refl)
  delete_nodes_refs e (c ∷ cids) s = ground (
    arith,
    delete_nodes_refs e cids (record s { db = record (s.db) { nodes = erase c s.db.nodes } }),
  )

  delete_blocks_setting :
      (e : Env) (cids : List Str) (s : Store S)
      → (delete_blocks S e cids s).0.db.foreign_keys ≡ s.db.foreign_keys
  unfolding delete_blocks
  delete_blocks_setting e [] s = refl
  delete_blocks_setting e (c ∷ cids) s = ground (
    arith,
    delete_blocks_setting e cids (record s { db = record (s.db) { blocks = erase c s.db.blocks } }),
  )

  prune_orphaned_refs :
      (e : Env) (s : Store S)
      → ((prune_orphaned_blocks S e s).0.db.block_refs ≡ s.db.block_refs)
        × ((prune_orphaned_blocks S e s).0.db.foreign_keys ≡ s.db.foreign_keys)
  unfolding prune_orphaned_blocks prune_nodes
  prune_orphaned_refs e s =
      let found = orphans s.db.block_refs s.db.blocks in
      let s' : Store S = record s { objects = delete_objects S (with_s3 found) s.objects } in
      let t : Store S = (delete_blocks S e (keys found) s').0 in
      ground (
        arith,
        delete_blocks_objects S e (keys found) s',
        delete_blocks_setting e (keys found) s',
        delete_nodes_refs e (keys (orphans t.db.node_refs t.db.nodes)) t,
      )

  -- With foreign keys off, as SQLite has them by default, a block that was referenced once keeps
  -- its row, however many manifests are deleted and however often the server prunes.
  pub run_keeps_row :
      (ops : List Op) (c : Str) (s : Store S)
      → s.db.foreign_keys ≡ false
      → is_referenced c s.db.block_refs ≡ true
      → lookup c (run ops s).db.blocks ≡ lookup c s.db.blocks
  unfolding run delete_manifest_row prune_manifests keep_manifests
  run_keeps_row [] c s off h = refl
  run_keeps_row (delete e id ∷ ops) c s off h = ground (
    arith,
    run_keeps_row ops c s,
    run_keeps_row ops c (record s { db = keep_manifests (erase id s.db.manifests) s.db }),
  )
  run_keeps_row (prune e cutoff ∷ ops) c s off h =
      let s' : Store S = record s { db = keep_manifests (drop_old cutoff s.db.manifests) s.db } in
      ground (
        arith,
        run_keeps_row ops c s,
        run_keeps_row ops c (prune_orphaned_blocks S e s').0,
        prune_keeps_row S e c s',
        prune_orphaned_refs e s',
      )

cascade-unreferenced :
    (fk : Bool) (rows : Dict ManifestRow) (c : Str) (refs : List (Str × Str))
    → is_referenced c refs ≡ false
    → is_referenced c (cascade fk rows refs) ≡ false
unfolding cascade is_referenced
cascade-unreferenced true rows c [] h = refl
cascade-unreferenced true rows c ((i, d) ∷ refs) h =
    ground (arith, cascade-unreferenced true rows c refs)
cascade-unreferenced false rows c refs h = h

module _ (S : S3) where
  -- A block that no saved manifest references yet, such as one of a backup that is still being
  -- uploaded, is not found any more after a pruning in which no statement fails.
  pub get_block-prune_in_flight :
      (e e' : Env) (cutoff : ℕ) (c : Str) (s : Store S)
      → IsHealthy e
      → IsHealthy e'
      → is_referenced c s.db.block_refs ≡ false
      → get_block S e' c (prune_manifests S e cutoff s).0 ≡ err (codes "block not found: " ++ c)
  unfolding get_block keep_manifests
  get_block-prune_in_flight e e' cutoff c s H H' h = ground (
    arith,
    H'.no_error select_block,
    prune_manifests_exact S e H cutoff c s,
    cascade-unreferenced s.db.foreign_keys (drop_old cutoff s.db.manifests) c s.db.block_refs h,
  )
