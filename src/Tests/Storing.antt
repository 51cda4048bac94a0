-- ===== src/Tests/Storing.antt =====
-- The storage.
use ib.Prelude.{
  ◌≡◌, ◌≤◌, ◌⊎◌, refl, Str, Option, codes, [], ◌∷◌, true, ◌||◌, ◌&&◌, none, some, ok, err, lookup,
  if◌then◌else◌, str_eq, All,
}
use ib.Backup.Manifest.{Manifest}
use ib.Storage.Tables.{Stmt, insert_node_ref, Db, Env, Store, has_ref, has_row, is_referenced}
use ib.Storage.Block.{get_block}
use ib.Storage.ManifestStore.{
  ManifestInfo, matches_tags, keep_manifests, save_manifest, get_manifest, get_latest_manifest,
}
use ib.Storage.ManifestStore.Atomic.{save_failure, save_manifest_atomic}
use ib.Storage.ManifestStore.Save.{save_manifest_refs, mem_cid, blocks_of}
use ib.Storage.ManifestStore.Latest.{IsRow, get_latest_manifest_newest}
use ib.Storage.Prune.{drop_old, prune_manifests}
use ib.Storage.Prune.Safe.{get_block-prune_manifests}
use ib.Storage.Prune.Complete.{prune_manifests_exact}
use ib.Storage.Prune.Leak.{delete, prune, run, run_keeps_row, get_block-prune_in_flight}
use ib.Tests.Fixtures.{
  block_row, memory, memory-IsLawful, calm, calm-IsHealthy, store, lax_store, file_entry,
  manifest_with,
}

get_block-prune_manifests_example :
    get_block memory calm (codes "cid-new") (prune_manifests memory calm 50 store).0
    ≡ get_block memory calm (codes "cid-new") store
unfolding has_ref has_row drop_old str_eq lookup
get_block-prune_manifests_example =
    get_block-prune_manifests memory memory-IsLawful calm calm 50 (codes "new") (codes "cid-new")
      store refl refl

prune_manifests_exact_example :
    let kept : Db = keep_manifests (drop_old 50 store.db.manifests) store.db in
    let after : Db = (prune_manifests memory calm 50 store).0.db in
    ((prune_manifests memory calm 50 store).1 ≡ none)
    × (after.manifests ≡ drop_old 50 store.db.manifests)
    × (lookup (codes "cid-old") after.blocks ≡ (
        if is_referenced (codes "cid-old") kept.block_refs
        then lookup (codes "cid-old") store.db.blocks
        else none))
    × (lookup (codes "cid-old") after.nodes ≡ (
        if is_referenced (codes "cid-old") kept.node_refs
        then lookup (codes "cid-old") store.db.nodes
        else none))
prune_manifests_exact_example =
    prune_manifests_exact memory calm calm-IsHealthy 50 (codes "cid-old") store

abbrev manifest : Manifest
manifest = manifest_with (codes "next") (file_entry (codes "f") 2 (codes "cid-new" ∷ []) ∷ [])

-- The second reference to a node cannot be written.
abbrev disk_full : Stmt → Option Str
disk_full (insert_node_ref cid) = if str_eq cid (codes "n2") then some (codes "disk full") else none
disk_full _ = none

abbrev failing : Env
failing = record calm { db_error = disk_full }

save_manifest_atomic_example :
    let after =
      save_manifest memory failing manifest (1 ∷ []) (codes "n1" ∷ codes "n2" ∷ []) store in
    let failure = save_failure failing manifest (codes "n1" ∷ codes "n2" ∷ []) store.db in
    (after.1 ≡ failure) × ((after.0 ≡ store) ⊎ (failure ≡ none))
save_manifest_atomic_example =
    save_manifest_atomic memory failing manifest (1 ∷ []) (codes "n1" ∷ codes "n2" ∷ []) store

save_manifest_fails :
    save_manifest memory failing manifest (1 ∷ []) (codes "n1" ∷ codes "n2" ∷ []) store
    ≡ (store, some (codes "disk full"))
unfolding save_manifest str_eq lookup
save_manifest_fails = refl

save_manifest_refs_example :
    let after : Db = (save_manifest memory calm manifest (1 ∷ []) [] store).0.db in
    (lookup (codes "next") store.db.manifests ≡ none)
    × (lookup (codes "next") after.manifests ≡ (
        if str_eq (codes "next") (codes "next")
        then some (record { tags = []; created_at = 100; row_data = 1 ∷ [] })
        else lookup (codes "next") store.db.manifests))
    × (has_ref (codes "next") (codes "cid-new") after.block_refs ≡ (
        has_ref (codes "next") (codes "cid-new") store.db.block_refs
        || (str_eq (codes "next") (codes "next")
            && mem_cid (codes "cid-new") (blocks_of manifest.entries))))
    × (has_ref (codes "next") (codes "cid-new") after.node_refs ≡ (
        has_ref (codes "next") (codes "cid-new") store.db.node_refs
        || (str_eq (codes "next") (codes "next") && mem_cid (codes "cid-new") [])))
unfolding save_manifest lookup str_eq
save_manifest_refs_example =
    save_manifest_refs memory calm manifest (1 ∷ []) [] store (codes "next") (codes "cid-new") refl

get_latest_manifest_newest_example :
    (info : ManifestInfo) × (get_manifest memory calm info.id store ≡ ok (9 ∷ []))
    × IsRow info store.db.manifests
    × (matches_tags info.tags [] ≡ true)
    × All
        (λ (id, row). matches_tags row.tags [] ≡ true → row.created_at ≤ info.created_at)
        store.db.manifests
unfolding get_latest_manifest lookup str_eq
get_latest_manifest_newest_example =
    get_latest_manifest_newest memory calm [] store {content = 9 ∷ []} refl

run_keeps_row_example :
    lookup
      (codes "cid-old")
      (run memory (delete calm (codes "old") ∷ prune calm 50 ∷ []) lax_store).db.blocks
    ≡ lookup (codes "cid-old") lax_store.db.blocks
unfolding is_referenced str_eq
run_keeps_row_example =
    run_keeps_row memory (delete calm (codes "old") ∷ prune calm 50 ∷ []) (codes "cid-old")
      lax_store refl refl

-- A block that a backup has uploaded, whose manifest is not there yet.
abbrev uploading : Store memory
uploading = record store {
  db = record (store.db) { blocks = (codes "cid-up", block_row 2 (6 ∷ 7 ∷ [])) ∷ store.db.blocks };
}

is_uploaded : get_block memory calm (codes "cid-up") uploading ≡ ok (6 ∷ 7 ∷ [])
unfolding get_block lookup str_eq
is_uploaded = refl

get_block-prune_in_flight_example :
    get_block memory calm (codes "cid-up") (prune_manifests memory calm 50 uploading).0
    ≡ err (codes "block not found: cid-up")
unfolding is_referenced str_eq
get_block-prune_in_flight_example =
    get_block-prune_in_flight memory calm calm 50 (codes "cid-up") uploading calm-IsHealthy
      calm-IsHealthy refl
