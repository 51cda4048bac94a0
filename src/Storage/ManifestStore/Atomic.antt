-- ===== src/Storage/ManifestStore/Atomic.antt =====
-- The error of SaveManifest, and what it leaves then.
use ib.Prelude.{
  ◌≡◌, ◌⊎◌, refl, ◌∙◌, Option-cases, inl, inr, Str, Bytes, List, [], ◌∷◌, ◌++◌, Option, none, some,
  codes, map, arith, if◌then◌else◌,
}
use ib.Backup.Manifest.{Entry, Manifest}
use ib.Storage.Object.{S3}
use ib.Storage.Tables.{
  Db, Env, Store, Stmt, begin, commit, insert_manifest, insert_ref, insert_node_ref, add_ref,
  has_row,
}
use ib.Storage.ManifestStore.{
  save_block_refs, save_entry_refs, save_node_refs, insert_manifest_row, transaction, rollback,
  save_manifest,
}
use ib.Storage.ManifestStore.Save.{blocks_of}

abbrev or_else : Option Str → Option Str → Option Str
or_else none other = other
or_else (some m) other = some m

-- The error of the first statement that fails.
abbrev pub first_failure : Env → List Stmt → Option Str
first_failure e [] = none
first_failure e (q ∷ qs) = or_else (e.db_error q) (first_failure e qs)

-- The statements of SaveManifest in order, of which the insertion of the manifest also fails if its
-- id is taken.
abbrev pub save_failure : Env → Manifest → List Str → Db → Option Str
save_failure e m node_cids db = or_else (first_failure e (begin ∷ insert_manifest ∷ [])) (
    if has_row m.id db.manifests
    then some (codes "UNIQUE constraint failed: manifests.id")
    else first_failure e
        (map insert_ref (blocks_of m.entries) ++ (map insert_node_ref node_cids ++ (commit ∷ []))))

module _ (e : Env) where
  first_failure-append :
      (xs ys : List Stmt)
      → first_failure e (xs ++ ys) ≡ or_else (first_failure e xs) (first_failure e ys)
  first_failure-append [] ys = refl
  first_failure-append (x ∷ xs) ys = ground (arith, first_failure-append xs ys)

  map-insert_ref-append :
      (xs ys : List Str) → map insert_ref (xs ++ ys) ≡ map insert_ref xs ++ map insert_ref ys
  map-insert_ref-append [] ys = refl
  map-insert_ref-append (x ∷ xs) ys = ground (arith, map-insert_ref-append xs ys)

  module _ (id : Str) where
    save_block_refs-first_failure :
        (cids : List Str) (db : Db)
        → (save_block_refs e id cids db).1 ≡ first_failure e (map insert_ref cids)
    unfolding save_block_refs
    save_block_refs-first_failure [] db = refl
    save_block_refs-first_failure (c ∷ cids) db = ground (
      arith,
      save_block_refs-first_failure cids (record db { block_refs = add_ref id c db.block_refs }),
    )

    save_entry_refs-first_failure :
        (xs : List Entry) (db : Db)
        → (save_entry_refs e id xs db).1 ≡ first_failure e (map insert_ref (blocks_of xs))
    unfolding save_entry_refs
    save_entry_refs-first_failure [] db = refl
    save_entry_refs-first_failure (x ∷ xs) db = ground (
      arith,
      map-insert_ref-append x.blocks (blocks_of xs),
      first_failure-append (map insert_ref x.blocks) (map insert_ref (blocks_of xs)),
      save_block_refs-first_failure x.blocks db,
      save_entry_refs-first_failure xs (save_block_refs e id x.blocks db).0,
    )

    save_node_refs-first_failure :
        (cids : List Str) (db : Db)
        → (save_node_refs e id cids db).1 ≡ first_failure e (map insert_node_ref cids)
    unfolding save_node_refs
    save_node_refs-first_failure [] db = refl
    save_node_refs-first_failure (c ∷ cids) db = ground (
      arith,
      save_node_refs-first_failure cids (record db { node_refs = add_ref id c db.node_refs }),
    )

module _ (S : S3) where
  save_manifest_failure :
      (e : Env) (m : Manifest) (content : Bytes) (node_cids : List Str) (s : Store S)
      → (save_manifest S e m content node_cids s).1 ≡ save_failure e m node_cids s.db
  unfolding save_manifest transaction insert_manifest_row
  save_manifest_failure e m content node_cids s =
      let (db1, _) = insert_manifest_row e m content s.db in
      let (db2, _) = save_entry_refs e m.id m.entries db1 in
      ground (
        arith,
        first_failure-append e (map insert_ref (blocks_of m.entries))
            (map insert_node_ref node_cids ++ (commit ∷ [])),
        first_failure-append e (map insert_node_ref node_cids) (commit ∷ []),
        save_entry_refs-first_failure e m.id m.entries db1,
        save_node_refs-first_failure e m.id node_cids db2,
      )

  save_manifest_undone :
      (e : Env) (m : Manifest) (content : Bytes) (node_cids : List Str) (s : Store S) {msg : Str}
      → (save_manifest S e m content node_cids s).1 ≡ some msg
      → (save_manifest S e m content node_cids s).0 ≡ s
  unfolding save_manifest rollback
  save_manifest_undone e m content node_cids s h = ground arith

  -- SaveManifest returns the error of the first of its statements that fails, the Commit included,
  -- or of an id that is taken, and returns none if there is no such error. Where there is one, the
  -- store is as it was before: what the statements before it did has been rolled back.
  pub save_manifest_atomic :
      (e : Env) (m : Manifest) (content : Bytes) (node_cids : List Str) (s : Store S)
      → ((save_manifest S e m content node_cids s).1 ≡ save_failure e m node_cids s.db)
        × (((save_manifest S e m content node_cids s).0 ≡ s)
            ⊎ (save_failure e m node_cids s.db ≡ none))
  save_manifest_atomic e m content node_cids s =
      let failed = save_manifest_failure e m content node_cids s in
      (
        failed,
        elim (Option-cases (save_failure e m node_cids s.db)) [
          | inl p ↦ inr p
          | inr (msg, p) ↦ inl (save_manifest_undone e m content node_cids s (failed ∙ p))
        ],
      )
