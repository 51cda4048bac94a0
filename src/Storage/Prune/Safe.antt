-- ===== src/Storage/Prune/Safe.antt =====
-- What PruneManifests removes and what it must keep.
use ib.Prelude.{
  ℕ, ◌≡◌, refl, ◌∙◌, Str, Dict, List, [], ◌∷◌, Bool, true, false, not, ◌&&◌, any, arith, str_eq,
  str_eq_iff, lookup, erase, lookup-erase, inl, inr, Option-cases,
}
use ib.Storage.Object.{S3, IsLawful}
use ib.Storage.Tables.{
  BlockRow, ManifestRow, Env, Store, delete_old, is_referenced, has_row, has_ref,
}
use ib.Storage.Block.{block_s3_key, get_block}
use ib.Storage.Block.Key.{str_eq-block_s3_key}
use ib.Storage.ManifestStore.{keep_manifests, cascade}
use ib.Storage.Prune.{
  orphans, with_s3, keys, drop_old, delete_objects, delete_blocks, delete_nodes, prune_nodes,
  prune_orphaned_blocks, prune_manifests,
}

abbrev pub mem : Str → List Str → Bool
mem c cids = any (str_eq c) cids

-- The keys of the orphans are the rows that no reference names.
pub mem-orphans {ℓ} :
    {V : Type ℓ} (c : Str) (refs : List (Str × Str)) (rows : Dict V)
    → mem c (keys (orphans refs rows)) ≡ (has_row c rows && not (is_referenced c refs))
unfolding orphans keys has_row lookup
mem-orphans c refs [] = refl
mem-orphans c refs ((d, row) ∷ rows) = ground (arith, mem-orphans c refs rows, str_eq_iff c d)

mem-with_s3 :
    (c : Str) (rows : Dict BlockRow) → mem c (keys rows) ≡ false → mem c (with_s3 rows) ≡ false
unfolding with_s3 keys
mem-with_s3 c [] h = refl
mem-with_s3 c ((d, row) ∷ rows) h = ground (arith, mem-with_s3 c rows)

module _ (S : S3) (e : Env) where
  -- Up to a statement that fails, what is named goes and what is not named stays.
  delete_blocks_keeps :
      (c : Str) (cids : List Str) (s : Store S)
      → mem c cids ≡ false
      → lookup c (delete_blocks S e cids s).0.db.blocks ≡ lookup c s.db.blocks
  unfolding delete_blocks
  delete_blocks_keeps c [] s h = refl
  delete_blocks_keeps c (d ∷ cids) s h = ground (
    arith,
    lookup-erase c d s.db.blocks,
    delete_blocks_keeps c cids (record s { db = record (s.db) { blocks = erase d s.db.blocks } }),
  )

  pub delete_blocks_objects :
      (cids : List Str) (s : Store S)
      → ((delete_blocks S e cids s).0.objects ≡ s.objects)
        × ((delete_blocks S e cids s).0.db.block_refs ≡ s.db.block_refs)
        × ((delete_blocks S e cids s).0.db.node_refs ≡ s.db.node_refs)
        × ((delete_blocks S e cids s).0.db.nodes ≡ s.db.nodes)
        × ((delete_blocks S e cids s).0.db.manifests ≡ s.db.manifests)
  unfolding delete_blocks
  delete_blocks_objects [] s = (refl, refl, refl, refl, refl)
  delete_blocks_objects (d ∷ cids) s = ground (
    arith,
    delete_blocks_objects cids (record s { db = record (s.db) { blocks = erase d s.db.blocks } }),
  )

  delete_nodes_frame :
      (cids : List Str) (s : Store S)
      → ((delete_nodes S e cids s).0.objects ≡ s.objects)
        × ((delete_nodes S e cids s).0.db.blocks ≡ s.db.blocks)
        × ((delete_nodes S e cids s).0.db.manifests ≡ s.db.manifests)
  unfolding delete_nodes
  delete_nodes_frame [] s = (refl, refl, refl)
  delete_nodes_frame (d ∷ cids) s = ground (
    arith,
    delete_nodes_frame cids (record s { db = record (s.db) { nodes = erase d s.db.nodes } }),
  )

  pub prune_nodes_frame :
      (s : Store S)
      → ((prune_nodes S e s).0.objects ≡ s.objects)
        × ((prune_nodes S e s).0.db.blocks ≡ s.db.blocks)
        × ((prune_nodes S e s).0.db.manifests ≡ s.db.manifests)
  unfolding prune_nodes
  prune_nodes_frame s =
      ground (arith, delete_nodes_frame (keys (orphans s.db.node_refs s.db.nodes)) s)

  pub prune_keeps_row :
      (c : Str) (s : Store S)
      → is_referenced c s.db.block_refs ≡ true
      → lookup c (prune_orphaned_blocks S e s).0.db.blocks ≡ lookup c s.db.blocks
  unfolding prune_orphaned_blocks
  prune_keeps_row c s h =
      let found = orphans s.db.block_refs s.db.blocks in
      let s' : Store S = record s { objects = delete_objects S (with_s3 found) s.objects } in
      ground (
        arith,
        mem-orphans c s.db.block_refs s.db.blocks,
        delete_blocks_keeps c (keys found) s',
        prune_nodes_frame (delete_blocks S e (keys found) s').0,
      )

module _ (S : S3) (L : IsLawful S) where
  delete_objects_keeps :
      (c : Str) (cids : List Str) (o : S.State)
      → mem c cids ≡ false
      → S.get (block_s3_key c) (delete_objects S cids o) ≡ S.get (block_s3_key c) o
  unfolding delete_objects
  delete_objects_keeps c [] o h = refl
  delete_objects_keeps c (d ∷ cids) o h = ground (
    arith,
    delete_objects_keeps c cids (S.delete (block_s3_key d) o).0,
    L.get-delete_other (block_s3_key c) (block_s3_key d) o,
    str_eq-block_s3_key c d,
  )

  prune_keeps_object :
      (e : Env) (c : Str) (s : Store S)
      → is_referenced c s.db.block_refs ≡ true
      → S.get (block_s3_key c) (prune_orphaned_blocks S e s).0.objects
        ≡ S.get (block_s3_key c) s.objects
  unfolding prune_orphaned_blocks
  prune_keeps_object e c s h =
      let found = orphans s.db.block_refs s.db.blocks in
      let s' : Store S = record s { objects = delete_objects S (with_s3 found) s.objects } in
      ground (
        arith,
        mem-orphans c s.db.block_refs s.db.blocks,
        mem-with_s3 c found,
        delete_objects_keeps c (with_s3 found) s.objects,
        delete_blocks_objects S e (keys found) s',
        prune_nodes_frame S e (delete_blocks S e (keys found) s').0,
      )

  pub get_block-prune_orphaned_blocks :
      (e e' : Env) (c : Str) (s : Store S)
      → is_referenced c s.db.block_refs ≡ true
      → get_block S e' c (prune_orphaned_blocks S e s).0 ≡ get_block S e' c s
  unfolding get_block
  get_block-prune_orphaned_blocks e e' c s h =
      ground (arith, prune_keeps_object e c s h, prune_keeps_row S e c s h)

-- A reference of a manifest that stays is a reference after the cascade.
cascade-is_referenced :
    (fk : Bool) (rows : Dict ManifestRow) (i c : Str) (refs : List (Str × Str))
    → has_ref i c refs ≡ true
    → has_row i rows ≡ true
    → is_referenced c (cascade fk rows refs) ≡ true
unfolding cascade has_ref is_referenced
cascade-is_referenced fk rows i c [] h k = absurd (cc)
cascade-is_referenced true rows i c ((j, d) ∷ refs) h k =
    ground (arith, str_eq_iff i j, str_eq_iff c d, cascade-is_referenced true rows i c refs)
cascade-is_referenced false rows i c ((j, d) ∷ refs) h k =
    ground (arith, str_eq_iff i j, str_eq_iff c d, cascade-is_referenced false rows i c refs)

module _ (S : S3) (L : IsLawful S) where
  get_block-keep_manifests :
      (e' : Env) (rows : Dict ManifestRow) (c : Str) (s : Store S)
      → get_block S e' c (record s { db = keep_manifests rows s.db }) ≡ get_block S e' c s
  unfolding get_block keep_manifests
  get_block-keep_manifests e' rows c s = ground arith

  -- A block that a manifest references reads the same after PruneManifests if the manifest is not
  -- older than the cutoff, whichever statements and S3 calls of the pruning fail, and whether
  -- foreign keys are on or not.
  pub get_block-prune_manifests :
      (e e' : Env) (cutoff : ℕ) (i c : Str) (s : Store S)
      → has_ref i c s.db.block_refs ≡ true
      → has_row i (drop_old cutoff s.db.manifests) ≡ true
      → get_block S e' c (prune_manifests S e cutoff s).0 ≡ get_block S e' c s
  unfolding prune_manifests
  get_block-prune_manifests e e' cutoff i c s h k = elim (Option-cases (e.db_error delete_old)) [
    | inr (msg, p) ↦ rw (p, prune_manifests) refl
    | inl p ↦
        rw (p, prune_manifests)
          (get_block-prune_orphaned_blocks S L e e' c _ (kept_ref h k)
            ∙ get_block-keep_manifests e' (drop_old cutoff s.db.manifests) c s)
  ]
    where
      kept_ref :
          has_ref i c s.db.block_refs ≡ true
          → has_row i (drop_old cutoff s.db.manifests) ≡ true
          → is_referenced c (keep_manifests (drop_old cutoff s.db.manifests) s.db).block_refs ≡ true
      kept_ref h k =
          unfold keep_manifests in
          cascade-is_referenced s.db.foreign_keys (drop_old cutoff s.db.manifests) i c
            s.db.block_refs h k
