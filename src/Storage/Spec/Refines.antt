-- ===== src/Storage/Spec/Refines.antt =====
-- The storage's calls do what the abstract shelf does.
use ib.Prelude.{
  ℕ, ◌≡◌, ◌⊎◌, inl, inr, Str, Bytes, Bool, true, false, ◌||◌, Option, none, some, ok, lookup,
  NodupKeys, str_eq, is_empty, arith, Option-cases,
}
use ib.Storage.Object.{S3, IsLawful}
use ib.Storage.Tables.{
  NodeRow, Db, Env, IsHealthy, Store, has_row, insert_or_ignore_present, has_row-insert_or_ignore,
}
use ib.Storage.Block.{block_s3_key, inline_row, s3_row, save_block, get_block}
use ib.Storage.Node.{save_node}
use ib.Storage.ManifestStore.{save_manifest, delete_manifest_row}
use ib.Storage.Prune.{prune_manifests}
use ib.Storage.Spec.{Shelf, Act, put_block, put_node, put_backup, delete_backup, prune_before}
use ib.Storage.Spec.Rows.{rows_of}
use ib.Storage.Spec.Tracking.{Tracks}

abbrev pub is_some {ℓ} : {A : Type ℓ} → Option A → Bool
is_some none = false
is_some (some _) = true

abbrev pub bytes_of : Option NodeRow → Option Bytes
bytes_of none = none
bytes_of (some row) = some row.node_data

-- The store holds what the shelf says. Every healthy environment reads the blocks so.
pub record Represents (S : S3) (cascades : Bool) (s : Store S) (shelf : Shelf) : Type 0 where
  pub setting : s.db.foreign_keys ≡ cascades
  pub present : (c : Str) → has_row c s.db.blocks ≡ is_some (shelf.blocks c)
  pub reads :
      (e : Env)
      → IsHealthy e
      → (c : Str) (d : Bytes) → shelf.blocks c ≡ some d
      → get_block S e c s ≡ ok d
  pub node_bytes : (c : Str) → bytes_of (lookup c s.db.nodes) ≡ shelf.nodes c
  pub table : s.db.manifests ≡ rows_of shelf.backups
  pub distinct : NodupKeys shelf.backups
  pub tracked_blocks : Tracks cascades (λ b. b.blocks) s.db.block_refs shelf.backups shelf.pinned
  pub tracked_nodes : Tracks cascades (λ b. b.nodes) s.db.node_refs shelf.backups shelf.pinned

module _ (S : S3) where
  unfoldable pub perform : Env → Act → Store S → Store S × Option Str
  unfolding save_block save_node save_manifest delete_manifest_row prune_manifests
  perform e (put_block cid content n) s = save_block S e cid content n s
  perform e (put_node cid content) s = save_node S e cid content s
  perform e (put_backup m content node_cids) s = save_manifest S e m content node_cids s
  perform e (delete_backup id) s = delete_manifest_row S e id s
  perform e (prune_before cutoff) s = prune_manifests S e cutoff s

-- A block is not empty, and comes under a CID that is new or has the same bytes already. A backup
-- has a new id.
abbrev pub Fits : Act → Shelf → Type 0
Fits (put_block cid content n) shelf =
    (is_empty content ≡ false) × ((shelf.blocks cid ≡ none) ⊎ (shelf.blocks cid ≡ some content))
Fits (put_backup m content node_cids) shelf = lookup m.id shelf.backups ≡ none
Fits _ shelf = Unit

module _ (S : S3) (L : IsLawful S) (e : Env) where
  pub save_block_frame :
      (cid : Str) (content : Bytes) (n : ℕ) (s : Store S)
      → let after : Db = (save_block S e cid content n s).0.db in
        after ≡ record (s.db) { blocks = after.blocks }
  unfolding save_block
  save_block_frame cid content n s = ground arith

  pub has_row-save_block :
      (cid : Str) (content : Bytes) (n : ℕ) (s : Store S) (c : Str)
      → (save_block S e cid content n s).1 ≡ none
      → has_row c (save_block S e cid content n s).0.db.blocks
        ≡ (str_eq c cid || has_row c s.db.blocks)
  unfolding save_block
  has_row-save_block cid content n s c done = ground (
    arith,
    has_row-insert_or_ignore c cid (inline_row e content n) s.db.blocks,
    has_row-insert_or_ignore c cid (s3_row e cid content n) s.db.blocks,
  )

  -- A block that is there with the same bytes is read as before.
  pub get_block-save_block_same :
      (e' : Env) (cid : Str) (content : Bytes) (n : ℕ) (s : Store S)
      → has_row cid s.db.blocks ≡ true
      → get_block S e' cid s ≡ ok content
      → (save_block S e cid content n s).1 ≡ none
      → get_block S e' cid (save_block S e cid content n s).0 ≡ ok content
  unfolding save_block get_block has_row
  get_block-save_block_same e' cid content n s there same done =
      elim (Option-cases (lookup cid s.db.blocks)) [
        | inl q ↦ absurd (ground (arith, q))
        | inr (row, q) ↦ ground (
          arith,
          q,
          insert_or_ignore_present cid (inline_row e content n) row s.db.blocks q,
          insert_or_ignore_present cid (s3_row e cid content n) row s.db.blocks q,
          L.get-put (block_s3_key cid) content s.objects,
        )
      ]
