-- ===== src/Server/Jobs/Retention.antt =====
-- What the pruning job keeps.
use ib.Prelude.{
  ℕ, ◌+◌, ◌*◌, ◌≤◌, ◌≡◌, refl, ◌∙◌, ap, inl, inr, Str, Dict, List, [], ◌∷◌, Bool, true, false, some,
  ltb, lookup, arith, All, Option-cases,
}
use ib.Storage.Object.{S3, IsLawful}
use ib.Storage.Tables.{Db, Env, Store, ManifestRow, has_ref, has_row, delete_old}
use ib.Storage.Block.{get_block}
use ib.Storage.ManifestStore.{cascade, keep_manifests}
use ib.Storage.Prune.{drop_old, prune_manifests}
use ib.Storage.Prune.Safe.{get_block-prune_manifests}
use ib.Storage.Prune.Complete.{prune_orphaned_blocks_frame}
use ib.Storage.Spec.References.{has_ref-cascade}
use ib.Server.Jobs.{day, cutoff_at, prune, run_pruner}

lookup-drop_old :
    (cutoff : ℕ) (i : Str) (row : ManifestRow) (rows : Dict ManifestRow)
    → ltb row.created_at cutoff ≡ false
    → lookup i rows ≡ some row
    → lookup i (drop_old cutoff rows) ≡ some row
unfolding drop_old lookup
lookup-drop_old cutoff i row [] young h = absurd (cc)
lookup-drop_old cutoff i row ((j, r) ∷ rows) young h =
    ground (arith, lookup-drop_old cutoff i row rows)

has_row_of_lookup :
    (i : Str) (row : ManifestRow) (rows : Dict ManifestRow)
    → lookup i rows ≡ some row
    → has_row i rows ≡ true
unfolding has_row
has_row_of_lookup i row rows h = ground (arith, h)

has_ref-cascade_kept :
    (fk : Bool) (rows : Dict ManifestRow) (i c : Str) (refs : List (Str × Str))
    → has_row i rows ≡ true
    → has_ref i c refs ≡ true
    → has_ref i c (cascade fk rows refs) ≡ true
has_ref-cascade_kept true rows i c refs h k = ground (arith, has_ref-cascade rows i c refs)
has_ref-cascade_kept false rows i c refs h k = unfold cascade in k

module _ (S : S3) (L : IsLawful S) (i c : Str) (row : ManifestRow) where
  -- The manifest's row and its reference to `c` are there.
  abbrev IsKept : Store S → Type 0
  IsKept s = (lookup i s.db.manifests ≡ some row) × (has_ref i c s.db.block_refs ≡ true)

  prune_manifests-IsKept :
      (e : Env) (cutoff : ℕ) (s : Store S)
      → ltb row.created_at cutoff ≡ false
      → IsKept s
      → IsKept (prune_manifests S e cutoff s).0
  unfolding prune_manifests keep_manifests
  prune_manifests-IsKept e cutoff s young (there, named) =
      elim (Option-cases (e.db_error delete_old)) [
        | inr (m, p) ↦ rw (p, prune_manifests) (there, named)
        | inl p ↦
            let rows = drop_old cutoff s.db.manifests in
            let stays = lookup-drop_old cutoff i row s.db.manifests young there in
            let s1 : Store S = record s { db = keep_manifests rows s.db } in
            let frame = prune_orphaned_blocks_frame S e s1 in
            rw (p, prune_manifests)
              (
                ap (λ (d : Db). lookup i d.manifests) frame ∙ stays,
                ap (λ (d : Db). has_ref i c d.block_refs) frame
                    ∙ has_ref-cascade_kept s.db.foreign_keys rows i c s.db.block_refs
                        (has_row_of_lookup i row rows stays) named,
              )
      ]

  -- A manifest that has a row and refers to a block keeps its row, and the block reads the same,
  -- through any number of rounds of the pruning job that all happen within the retention period
  -- after the manifest's time, whichever statements and S3 calls of them fail.
  pub run_pruner_keeps :
      (days : ℕ) (es : List Env) (e' : Env) (s : Store S)
      → All (λ (e : Env). e.now ≤ row.created_at + days * day) es
      → lookup i s.db.manifests ≡ some row
      → has_ref i c s.db.block_refs ≡ true
      → (lookup i (run_pruner S days es s).db.manifests ≡ some row)
        × (get_block S e' c (run_pruner S days es s) ≡ get_block S e' c s)
  unfolding run_pruner prune cutoff_at
  run_pruner_keeps days [] e' s young there named = (there, refl)
  run_pruner_keeps days (e ∷ es) e' s (now, young) there named =
      let cutoff : ℕ = cutoff_at days e.now in
      let fresh : ltb row.created_at cutoff ≡ false = ground arith in
      let (there', named') = prune_manifests-IsKept e cutoff s fresh (there, named) in
      let (stays, same) = run_pruner_keeps days es e' (prune S days e s) young there' named' in
      (
        stays,
        same
            ∙ get_block-prune_manifests S L e e' cutoff i c s named (
                has_row_of_lookup i row (drop_old cutoff s.db.manifests)
                  (lookup-drop_old cutoff i row s.db.manifests fresh there)),
      )
