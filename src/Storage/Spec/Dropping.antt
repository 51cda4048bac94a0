-- ===== src/Storage/Spec/Dropping.antt =====
-- The calls that remove keep the store and the shelf together.
use ib.Prelude.{
  ℕ, ◌≡◌, sym, ◌∙◌, ap, subst, inl, inr, Str, Dict, Bool, not, filter, erase, str_eq, ltb, arith,
  Bool-cases,
}
use ib.Storage.Object.{S3, IsLawful}
use ib.Storage.Tables.{ManifestRow, Db, Env, IsHealthy, Store, has_row, delete_manifest, delete_old}
use ib.Storage.Block.{get_block}
use ib.Storage.ManifestStore.{delete_manifest_row, keep_manifests, cascade}
use ib.Storage.Prune.{drop_old, prune_manifests, prune_orphaned_blocks}
use ib.Storage.Prune.Safe.{get_block-prune_orphaned_blocks}
use ib.Storage.Prune.Complete.{prune_orphaned_blocks_exact, prune_orphaned_blocks_frame}
use ib.Storage.Spec.{Backup, Shelf, named, delete_backup, prune_before, act, drop_backups, sweep}
use ib.Storage.Spec.Rows.{rows_of, rows_of-erase, rows_of-drop_old, has_row-rows_of}
use ib.Storage.Spec.Tracking.{Tracks, Tracks-filter, filter-NodupKeys}
use ib.Storage.Spec.Refines.{Represents}

module _ (S : S3) (cascades : Bool) (s : Store S) (shelf : Shelf)
    (R : Represents S cascades s shelf) where
  -- The same rows as the store has, under its own setting for foreign keys.
  keep_step :
      (keep : Str × Backup → Bool) (rows : Dict ManifestRow)
      → rows ≡ rows_of (filter keep shelf.backups)
      → Represents S cascades
          (record s { db = keep_manifests rows s.db })
          (drop_backups cascades keep shelf)
  unfolding keep_manifests drop_backups get_block
  keep_step keep rows same =
      let found =
        λ (i : Str). ap (has_row i) same ∙ has_row-rows_of i (filter keep shelf.backups) in
      record {
        setting = R.setting;
        present = R.present;
        reads = R.reads;
        node_bytes = R.node_bytes;
        table = same;
        distinct = filter-NodupKeys keep shelf.backups R.distinct;
        tracked_blocks =
            subst
              (λ k.
                Tracks cascades (λ b. b.blocks) (cascade k rows s.db.block_refs)
                  (filter keep shelf.backups) ((drop_backups cascades keep shelf).pinned))
              (sym R.setting)
              (Tracks-filter (λ b. b.blocks) s.db.block_refs shelf.backups shelf.pinned keep rows
                R.distinct found cascades R.tracked_blocks);
        tracked_nodes =
            subst
              (λ k.
                Tracks cascades (λ b. b.nodes) (cascade k rows s.db.node_refs)
                  (filter keep shelf.backups) ((drop_backups cascades keep shelf).pinned))
              (sym R.setting)
              (Tracks-filter (λ b. b.nodes) s.db.node_refs shelf.backups shelf.pinned keep rows
                R.distinct found cascades R.tracked_nodes);
      }

module _ (S : S3) (L : IsLawful S) (cascades : Bool) (e : Env) (H : IsHealthy e) where
  sweep_step :
      (s : Store S) (shelf : Shelf)
      → Represents S cascades s shelf
      → Represents S cascades (prune_orphaned_blocks S e s).0 (sweep shelf)
  unfolding sweep has_row
  sweep_step s shelf R =
      let s' : Store S = (prune_orphaned_blocks S e s).0 in
      let frame : s'.db ≡ record (s.db) { blocks = s'.db.blocks; nodes = s'.db.nodes } =
        prune_orphaned_blocks_frame S e s in
      record {
        setting = ap (λ (d : Db). d.foreign_keys) frame ∙ R.setting;
        present = λ c. ground (
          arith,
          (prune_orphaned_blocks_exact S e H c s).2,
          R.tracked_blocks.counted c,
          R.present c,
        );
        reads = λ e' H' c d q. elim (Bool-cases (named (λ b. b.blocks) c shelf)) [
          | inl t ↦
              get_block-prune_orphaned_blocks S L e e' c s (R.tracked_blocks.counted c ∙ t)
              ∙ R.reads e' H' c d (ground (arith, t, q))
          | inr f ↦ absurd (ground (arith, f, q))
        ];
        node_bytes = λ c. ground (
          arith,
          (prune_orphaned_blocks_exact S e H c s).3,
          R.tracked_nodes.counted c,
          R.node_bytes c,
        );
        table = ap (λ (d : Db). d.manifests) frame ∙ R.table;
        distinct = R.distinct;
        tracked_blocks =
            subst (λ refs. Tracks cascades (λ b. b.blocks) refs shelf.backups shelf.pinned)
              (sym (ap (λ (d : Db). d.block_refs) frame)) R.tracked_blocks;
        tracked_nodes =
            subst (λ refs. Tracks cascades (λ b. b.nodes) refs shelf.backups shelf.pinned)
              (sym (ap (λ (d : Db). d.node_refs) frame)) R.tracked_nodes;
      }

  module _ (s : Store S) (shelf : Shelf) (R : Represents S cascades s shelf) where
    pub delete_backup_step :
        (id : Str)
        → Represents S cascades
            (delete_manifest_row S e id s).0
            (act cascades (delete_backup id) shelf)
    unfolding delete_manifest_row act
    delete_backup_step id =
        rw (H.no_error delete_manifest, delete_manifest_row)
          (keep_step S cascades s shelf R (λ (i, b). not (str_eq id i)) (erase id s.db.manifests)
            (ap (erase id) R.table ∙ rows_of-erase id shelf.backups))

    pub prune_before_step :
        (cutoff : ℕ)
        → Represents S cascades
            (prune_manifests S e cutoff s).0
            (act cascades (prune_before cutoff) shelf)
    unfolding prune_manifests act
    prune_before_step cutoff =
        rw (H.no_error delete_old, prune_manifests)
          (sweep_step _ _ (
            keep_step S cascades s shelf R (λ (i, b). not (ltb b.created_at cutoff))
              (drop_old cutoff s.db.manifests)
              (ap (drop_old cutoff) R.table ∙ rows_of-drop_old cutoff shelf.backups)))
