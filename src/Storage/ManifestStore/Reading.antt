-- ===== src/Storage/ManifestStore/Reading.antt =====
-- What GetManifest reads after SaveManifest.
use ib.Prelude.{
  ◌≡◌, refl, ◌∙◌, ap, Str, Bytes, List, [], ◌∷◌, none, some, ok, lookup, lookup-insert, insert,
  str_eq_refl, arith, inl, inr,
}
use ib.Backup.Manifest.{Entry, Manifest}
use ib.Storage.Object.{S3}
use ib.Storage.Tables.{ManifestRow, Db, Env, Store, select_manifest, add_ref}
use ib.Storage.ManifestStore.{
  Tried-cases, save_block_refs, save_entry_refs, save_node_refs, insert_manifest_row, transaction,
  save_manifest, get_manifest,
}

module _ (e : Env) (id : Str) where
  save_block_refs_frame :
      (cids : List Str) (db db' : Db)
      → save_block_refs e id cids db ≡ (db', none)
      → db' ≡ record db { block_refs = db'.block_refs }
  unfolding save_block_refs
  save_block_refs_frame [] db db' h = ground arith
  save_block_refs_frame (c ∷ cids) db db' h = ground (
    arith,
    save_block_refs_frame cids (record db { block_refs = add_ref id c db.block_refs }) db',
  )

  save_entry_refs_frame :
      (xs : List Entry) (db db' : Db)
      → save_entry_refs e id xs db ≡ (db', none)
      → db' ≡ record db { block_refs = db'.block_refs }
  unfolding save_entry_refs
  save_entry_refs_frame [] db db' h = ground arith
  save_entry_refs_frame (x ∷ xs) db db' h = elim (Tried-cases (save_block_refs e id x.blocks db)) [
    | inr (m, q) ↦ absurd (ground (arith, q))
    | inl (db1, q) ↦ ground (
      arith,
      q,
      save_entry_refs_frame xs db1 db' (ground (arith, q)),
      save_block_refs_frame x.blocks db db1 q,
    )
  ]

  save_node_refs_frame :
      (cids : List Str) (db db' : Db)
      → save_node_refs e id cids db ≡ (db', none)
      → db' ≡ record db { node_refs = db'.node_refs }
  unfolding save_node_refs
  save_node_refs_frame [] db db' h = ground arith
  save_node_refs_frame (c ∷ cids) db db' h =
      ground
        (arith, save_node_refs_frame cids (record db { node_refs = add_ref id c db.node_refs }) db')

abbrev pub row_of_manifest : Manifest → Bytes → ManifestRow
row_of_manifest m content = record { tags = m.tags; created_at = m.created_at; row_data = content }

-- A transaction that commits adds its row, and changes the references besides.
transaction_frame :
    (e : Env) (m : Manifest) (content : Bytes) (cids : List Str) (db db' : Db)
    → transaction e m content cids db ≡ (db', none)
    → db' ≡ record db {
      manifests = insert m.id (row_of_manifest m content) db.manifests;
      block_refs = db'.block_refs;
      node_refs = db'.node_refs;
    }
unfolding transaction insert_manifest_row
transaction_frame e m content cids db db' h =
    elim (Tried-cases (insert_manifest_row e m content db)) [
      | inr (msg, q) ↦ absurd (ground (arith, q))
      | inl (db1, q) ↦ elim (Tried-cases (save_entry_refs e m.id m.entries db1)) [
        | inr (msg, q1) ↦ absurd (ground (arith, q, q1))
        | inl (db2, q1) ↦ elim (Tried-cases (save_node_refs e m.id cids db2)) [
          | inr (msg, q2) ↦ absurd (ground (arith, q, q1, q2))
          | inl (db3, q2) ↦ ground (
            arith,
            q,
            q1,
            q2,
            save_entry_refs_frame e m.id m.entries db1 db2 q1,
            save_node_refs_frame e m.id cids db2 db3 q2,
          )
        ]
      ]
    ]

transaction-lookup :
    (e : Env) (m : Manifest) (content : Bytes) (cids : List Str) (db db' : Db)
    → transaction e m content cids db ≡ (db', none)
    → lookup m.id db'.manifests ≡ some (row_of_manifest m content)
transaction-lookup e m content cids db db' h =
    ap (λ (d : Db). lookup m.id d.manifests) (transaction_frame e m content cids db db' h)
    ∙ lookup-insert m.id m.id (row_of_manifest m content) db.manifests
    ∙ rw (str_eq_refl m.id) refl

module _ (S : S3) where
  -- What SaveManifest changes, where it returns no error.
  pub save_manifest_frame :
      (e : Env) (m : Manifest) (content : Bytes) (cids : List Str) (s : Store S)
      → (save_manifest S e m content cids s).1 ≡ none
      → let after : Store S = (save_manifest S e m content cids s).0 in
        after ≡ record s {
          db = record (s.db) {
            manifests = insert m.id (row_of_manifest m content) s.db.manifests;
            block_refs = after.db.block_refs;
            node_refs = after.db.node_refs;
          };
        }
  unfolding save_manifest
  save_manifest_frame e m content cids s h =
      elim (Tried-cases (transaction e m content cids s.db)) [
        | inr (msg, q) ↦ absurd (ground (arith, q))
        | inl (db', q) ↦ ground (arith, q, transaction_frame e m content cids s.db db' q)
      ]

  -- What SaveManifest saved without an error is what GetManifest reads under the manifest's id.
  pub get_manifest-save_manifest :
      (e e' : Env) (m : Manifest) (content : Bytes) (cids : List Str) (s : Store S)
      → (save_manifest S e m content cids s).1 ≡ none
      → e'.db_error select_manifest ≡ none
      → get_manifest S e' m.id (save_manifest S e m content cids s).0 ≡ ok content
  unfolding save_manifest get_manifest
  get_manifest-save_manifest e e' m content cids s h healthy =
      elim (Tried-cases (transaction e m content cids s.db)) [
        | inr (msg, q) ↦ absurd (ground (arith, q))
        | inl (db', q) ↦ ground (arith, q, healthy, transaction-lookup e m content cids s.db db' q)
      ]
