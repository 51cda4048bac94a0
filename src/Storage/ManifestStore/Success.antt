-- ===== src/Storage/ManifestStore/Success.antt =====
-- Saving of manifests on a healthy database.
use ib.Prelude.{◌≡◌, refl, Str, Bytes, List, [], ◌∷◌, none, lookup, insert, arith}
use ib.Backup.Manifest.{Entry, Manifest}
use ib.Storage.Object.{S3}
use ib.Storage.Tables.{
  Db, Env, IsHealthy, Store, begin, commit, insert_manifest, insert_ref, insert_node_ref, add_ref,
  has_row,
}
use ib.Storage.ManifestStore.{
  save_block_refs, save_entry_refs, save_node_refs, insert_manifest_row, transaction, save_manifest,
}
use ib.Storage.ManifestStore.Reading.{row_of_manifest}

module _ (e : Env) (H : IsHealthy e) (id : Str) where
  save_block_refs_succeeds :
      (cids : List Str) (db : Db) → (db' : Db) × (save_block_refs e id cids db ≡ (db', none))
  unfolding save_block_refs
  save_block_refs_succeeds [] db = (db, refl)
  save_block_refs_succeeds (c ∷ cids) db =
      let (db', p) =
        save_block_refs_succeeds cids (record db { block_refs = add_ref id c db.block_refs }) in
      (db', rw (H.no_error (insert_ref c), save_block_refs) p)

  save_entry_refs_succeeds :
      (xs : List Entry) (db : Db) → (db' : Db) × (save_entry_refs e id xs db ≡ (db', none))
  unfolding save_entry_refs
  save_entry_refs_succeeds [] db = (db, refl)
  save_entry_refs_succeeds (x ∷ xs) db =
      let (db1, p) = save_block_refs_succeeds x.blocks db in
      let (db2, q) = save_entry_refs_succeeds xs db1 in (db2, ground (arith, p, q))

  save_node_refs_succeeds :
      (cids : List Str) (db : Db) → (db' : Db) × (save_node_refs e id cids db ≡ (db', none))
  unfolding save_node_refs
  save_node_refs_succeeds [] db = (db, refl)
  save_node_refs_succeeds (c ∷ cids) db =
      let (db', p) =
        save_node_refs_succeeds cids (record db { node_refs = add_ref id c db.node_refs }) in
      (db', rw (H.no_error (insert_node_ref c), save_node_refs) p)

module _ (S : S3) (e : Env) (H : IsHealthy e) where
  transaction_succeeds :
      (m : Manifest) (content : Bytes) (cids : List Str) (db : Db)
      → lookup m.id db.manifests ≡ none
      → (db' : Db) × (transaction e m content cids db ≡ (db', none))
  unfolding transaction insert_manifest_row has_row
  transaction_succeeds m content cids db fresh =
      let db1 : Db = record db {
        manifests = insert m.id (row_of_manifest m content) db.manifests;
      } in
      let (db2, p) = save_entry_refs_succeeds e H m.id m.entries db1 in
      let (db3, q) = save_node_refs_succeeds e H m.id cids db2 in
      (db3, ground (arith, H.no_error insert_manifest, H.no_error commit, fresh, p, q))

  pub save_manifest_succeeds :
      (m : Manifest) (content : Bytes) (cids : List Str) (s : Store S)
      → lookup m.id s.db.manifests ≡ none
      → (save_manifest S e m content cids s).1 ≡ none
  unfolding save_manifest
  save_manifest_succeeds m content cids s fresh =
      let (db', p) = transaction_succeeds m content cids s.db fresh in
      ground (arith, H.no_error begin, p)
