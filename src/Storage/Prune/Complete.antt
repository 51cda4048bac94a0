-- ===== src/Storage/Prune/Complete.antt =====
-- A pruning in which no statement fails removes what no reference names, and nothing else.
use ib.Prelude.{
  ℕ, ◌≡◌, refl, Str, Dict, List, [], ◌∷◌, none, arith, lookup, erase, lookup-erase, if◌then◌else◌,
}
use ib.Storage.Object.{S3}
use ib.Storage.Tables.{
  Db, Env, IsHealthy, Store, delete_old, select_orphans, select_orphan_nodes, delete_block,
  delete_node, is_referenced, has_row,
}
use ib.Storage.ManifestStore.{keep_manifests}
use ib.Storage.Prune.{
  prune_orphaned_blocks, orphans, with_s3, keys, drop_old, delete_objects, delete_blocks,
  delete_nodes, prune_nodes, prune_manifests,
}
use ib.Storage.Prune.Safe.{mem, mem-orphans, delete_blocks_objects, prune_nodes_frame}

module _ (S : S3) (e : Env) (H : IsHealthy e) where
  delete_blocks_all :
      (c : Str) (cids : List Str) (s : Store S)
      → ((delete_blocks S e cids s).1 ≡ none)
        × (lookup c (delete_blocks S e cids s).0.db.blocks
            ≡ (if mem c cids then none else lookup c s.db.blocks))
  unfolding delete_blocks
  delete_blocks_all c [] s = (refl, refl)
  delete_blocks_all c (d ∷ cids) s = ground (
    arith,
    H.no_error (delete_block d),
    lookup-erase c d s.db.blocks,
    delete_blocks_all c cids (record s { db = record (s.db) { blocks = erase d s.db.blocks } }),
  )

  delete_nodes_all :
      (c : Str) (cids : List Str) (s : Store S)
      → ((delete_nodes S e cids s).1 ≡ none)
        × (lookup c (delete_nodes S e cids s).0.db.nodes
            ≡ (if mem c cids then none else lookup c s.db.nodes))
  unfolding delete_nodes
  delete_nodes_all c [] s = (refl, refl)
  delete_nodes_all c (d ∷ cids) s = ground (
    arith,
    H.no_error (delete_node d),
    lookup-erase c d s.db.nodes,
    delete_nodes_all c cids (record s { db = record (s.db) { nodes = erase d s.db.nodes } }),
  )

lookup-referenced {ℓ} :
    {V : Type ℓ} (c : Str) (refs : List (Str × Str)) (rows : Dict V)
    → (if mem c (keys (orphans refs rows)) then none else lookup c rows)
      ≡ (if is_referenced c refs then lookup c rows else none)
unfolding has_row
lookup-referenced c refs rows = ground (arith, mem-orphans c refs rows)

module _ (S : S3) (e : Env) (H : IsHealthy e) where
  prune_nodes_all :
      (c : Str) (s : Store S)
      → ((prune_nodes S e s).1 ≡ none)
        × (lookup c (prune_nodes S e s).0.db.nodes
            ≡ (if is_referenced c s.db.node_refs then lookup c s.db.nodes else none))
  unfolding prune_nodes
  prune_nodes_all c s = ground (
    arith,
    H.no_error select_orphan_nodes,
    delete_nodes_all S e H c (keys (orphans s.db.node_refs s.db.nodes)) s,
    lookup-referenced c s.db.node_refs s.db.nodes,
  )

  -- The rows of blocks and of nodes that a reference names stay, and no others.
  pub prune_orphaned_blocks_exact :
      (c : Str) (s : Store S)
      → let after : Db = (prune_orphaned_blocks S e s).0.db in
        ((prune_orphaned_blocks S e s).1 ≡ none)
        × (after.manifests ≡ s.db.manifests)
        × (lookup c after.blocks
            ≡ (if is_referenced c s.db.block_refs then lookup c s.db.blocks else none))
        × (lookup c after.nodes
            ≡ (if is_referenced c s.db.node_refs then lookup c s.db.nodes else none))
  unfolding prune_orphaned_blocks
  prune_orphaned_blocks_exact c s =
      let found = orphans s.db.block_refs s.db.blocks in
      let s1 : Store S = record s { objects = delete_objects S (with_s3 found) s.objects } in
      let s2 : Store S = (delete_blocks S e (keys found) s1).0 in
      ground (
        arith,
        H.no_error select_orphans,
        delete_blocks_all S e H c (keys found) s1,
        delete_blocks_objects S e (keys found) s1,
        prune_nodes_all c s2,
        prune_nodes_frame S e s2,
        lookup-referenced c s.db.block_refs s.db.blocks,
      )

  -- With no failing statement PruneManifests succeeds and keeps exactly the manifests that are not
  -- older than the cutoff, and exactly the rows of blocks and of nodes that a reference names
  -- among the references which the deletion of the old manifests leaves.
  pub prune_manifests_exact :
      (cutoff : ℕ) (c : Str) (s : Store S)
      → let kept : Db = keep_manifests (drop_old cutoff s.db.manifests) s.db in
        let after : Db = (prune_manifests S e cutoff s).0.db in
        ((prune_manifests S e cutoff s).1 ≡ none)
        × (after.manifests ≡ drop_old cutoff s.db.manifests)
        × (lookup c after.blocks
            ≡ (if is_referenced c kept.block_refs then lookup c s.db.blocks else none))
        × (lookup c after.nodes
            ≡ (if is_referenced c kept.node_refs then lookup c s.db.nodes else none))
  unfolding prune_manifests keep_manifests
  prune_manifests_exact cutoff c s =
      let kept : Db = keep_manifests (drop_old cutoff s.db.manifests) s.db in
      rw (H.no_error delete_old, prune_manifests)
        (prune_orphaned_blocks_exact c (record s { db = kept }))

module _ (S : S3) (e : Env) where
  delete_blocks_frame :
      (cids : List Str) (s : Store S)
      → let after : Db = (delete_blocks S e cids s).0.db in
        after ≡ record (s.db) { blocks = after.blocks }
  unfolding delete_blocks
  delete_blocks_frame [] s = refl
  delete_blocks_frame (d ∷ cids) s = ground (
    arith,
    delete_blocks_frame cids (record s { db = record (s.db) { blocks = erase d s.db.blocks } }),
  )

  delete_nodes_frame :
      (cids : List Str) (s : Store S)
      → let after : Db = (delete_nodes S e cids s).0.db in
        after ≡ record (s.db) { nodes = after.nodes }
  unfolding delete_nodes
  delete_nodes_frame [] s = refl
  delete_nodes_frame (d ∷ cids) s = ground (
    arith,
    delete_nodes_frame cids (record s { db = record (s.db) { nodes = erase d s.db.nodes } }),
  )

  -- Pruning of orphans changes the tables of blocks and nodes only.
  pub prune_orphaned_blocks_frame :
      (s : Store S)
      → let after : Db = (prune_orphaned_blocks S e s).0.db in
        after ≡ record (s.db) { blocks = after.blocks; nodes = after.nodes }
  unfolding prune_orphaned_blocks prune_nodes
  prune_orphaned_blocks_frame s =
      let found = orphans s.db.block_refs s.db.blocks in
      let s1 : Store S = record s { objects = delete_objects S (with_s3 found) s.objects } in
      let s2 : Store S = (delete_blocks S e (keys found) s1).0 in
      ground (
        arith,
        delete_blocks_frame (keys found) s1,
        delete_nodes_frame (keys (orphans s2.db.node_refs s2.db.nodes)) s2,
      )
