-- ===== src/Storage/ManifestStore/Save.antt =====
-- What SaveManifest leaves in the tables.
use ib.Prelude.{
  ◌≡◌, Str, Bytes, List, [], ◌∷◌, ◌++◌, none, some, Bool, ◌&&◌, ◌||◌, any, any-append, arith,
  str_eq, str_eq_iff, lookup, lookup-insert, insert, if◌then◌else◌, inl, inr,
}
use ib.Backup.Manifest.{Entry, Manifest}
use ib.Storage.Object.{S3}
use ib.Storage.Tables.{ManifestRow, Db, Env, Store, add_ref, has_ref}
use ib.Storage.ManifestStore.{
  Tried-cases, save_block_refs, save_entry_refs, save_node_refs, insert_manifest_row, transaction,
  save_manifest,
}

has_ref-add_ref :
    (i c j d : Str) (refs : List (Str × Str))
    → has_ref i c (add_ref j d refs) ≡ (has_ref i c refs || (str_eq i j && str_eq c d))
unfolding has_ref add_ref
has_ref-add_ref i c j d refs = ground (
  arith,
  any-append (λ (p : Str × Str). str_eq i p.0 && str_eq c p.1) refs ((j, d) ∷ []),
  str_eq_iff i j,
  str_eq_iff c d,
)

abbrev pub mem_cid : Str → List Str → Bool
mem_cid c cids = any (str_eq c) cids

-- Every block that an entry names, in order.
abbrev pub blocks_of : List Entry → List Str
blocks_of [] = []
blocks_of (e ∷ es) = e.blocks ++ blocks_of es

module _ (e : Env) (id i c : Str) where
  save_block_refs_lem :
      (cids : List Str) (db db' : Db)
      → save_block_refs e id cids db ≡ (db', none)
      → has_ref i c db'.block_refs ≡ (has_ref i c db.block_refs || (str_eq i id && mem_cid c cids))
  unfolding save_block_refs
  save_block_refs_lem [] db db' h = ground arith
  save_block_refs_lem (d ∷ cids) db db' h = ground (
    arith,
    save_block_refs_lem cids (record db { block_refs = add_ref id d db.block_refs }) db',
    has_ref-add_ref i c id d db.block_refs,
  )

  save_entry_refs_lem :
      (entries : List Entry) (db db' : Db)
      → save_entry_refs e id entries db ≡ (db', none)
      → has_ref i c db'.block_refs
        ≡ (has_ref i c db.block_refs || (str_eq i id && mem_cid c (blocks_of entries)))
  unfolding save_entry_refs
  save_entry_refs_lem [] db db' h = ground arith
  save_entry_refs_lem (x ∷ entries) db db' h =
      elim (Tried-cases (save_block_refs e id x.blocks db)) [
        | inl (mid, p) ↦ ground (
          arith,
          p,
          save_block_refs_lem x.blocks db mid p,
          save_entry_refs_lem entries mid db',
          any-append (str_eq c) x.blocks (blocks_of entries),
        )
        | inr (m, p) ↦ ground (arith, p)
      ]

  save_block_refs_frame :
      (cids : List Str) (db db' : Db)
      → save_block_refs e id cids db ≡ (db', none)
      → (db'.node_refs ≡ db.node_refs) × (db'.manifests ≡ db.manifests)
  unfolding save_block_refs
  save_block_refs_frame [] db db' h = ground arith
  save_block_refs_frame (d ∷ cids) db db' h = ground (
    arith,
    save_block_refs_frame cids (record db { block_refs = add_ref id d db.block_refs }) db',
  )

  save_entry_refs_frame :
      (entries : List Entry) (db db' : Db)
      → save_entry_refs e id entries db ≡ (db', none)
      → (db'.node_refs ≡ db.node_refs) × (db'.manifests ≡ db.manifests)
  unfolding save_entry_refs
  save_entry_refs_frame [] db db' h = ground arith
  save_entry_refs_frame (x ∷ entries) db db' h =
      elim (Tried-cases (save_block_refs e id x.blocks db)) [
        | inl (mid, p) ↦ ground (
          arith,
          p,
          save_block_refs_frame x.blocks db mid p,
          save_entry_refs_frame entries mid db',
        )
        | inr (m, p) ↦ ground (arith, p)
      ]

  save_node_refs_lem :
      (cids : List Str) (db db' : Db)
      → save_node_refs e id cids db ≡ (db', none)
      → (db'.block_refs ≡ db.block_refs)
        × (db'.manifests ≡ db.manifests)
        × (has_ref i c db'.node_refs
            ≡ (has_ref i c db.node_refs || (str_eq i id && mem_cid c cids)))
  unfolding save_node_refs
  save_node_refs_lem [] db db' h = ground arith
  save_node_refs_lem (d ∷ cids) db db' h = ground (
    arith,
    save_node_refs_lem cids (record db { node_refs = add_ref id d db.node_refs }) db',
    has_ref-add_ref i c id d db.node_refs,
  )

abbrev manifest_row : Manifest → Bytes → ManifestRow
manifest_row m content = record { tags = m.tags; created_at = m.created_at; row_data = content }

insert_manifest_row_lem :
    (e : Env) (m : Manifest) (content : Bytes) (db db' : Db)
    → insert_manifest_row e m content db ≡ (db', none)
    → (lookup m.id db.manifests ≡ none)
      × (db' ≡ record db { manifests = insert m.id (manifest_row m content) db.manifests })
unfolding insert_manifest_row
insert_manifest_row_lem e m content db db' h = ground arith

-- The three loops of the transaction, when none of its statements fails.
transaction_parts :
    (e : Env) (m : Manifest) (content : Bytes) (node_cids : List Str) (db db' : Db)
    → transaction e m content node_cids db ≡ (db', none)
    → (db1 : Db) × (db2 : Db) × (insert_manifest_row e m content db ≡ (db1, none))
      × (save_entry_refs e m.id m.entries db1 ≡ (db2, none))
      × (save_node_refs e m.id node_cids db2 ≡ (db', none))
unfolding transaction
transaction_parts e m content node_cids db db' h =
    elim (Tried-cases (insert_manifest_row e m content db)) [
      | inr (msg, p) ↦ absurd (ground (arith, p))
      | inl (db1, p) ↦ elim (Tried-cases (save_entry_refs e m.id m.entries db1)) [
        | inr (msg, q) ↦ absurd (ground (arith, p, q))
        | inl (db2, q) ↦ elim (Tried-cases (save_node_refs e m.id node_cids db2)) [
          | inr (msg, r) ↦ absurd (ground (arith, p, q, r))
          | inl (db3, r) ↦ (db1, db2, p, q, ground (arith, p, q, r))
        ]
      ]
    ]

transaction_refs :
    (e : Env) (m : Manifest) (content : Bytes) (node_cids : List Str) (db db' : Db) (i c : Str)
    → transaction e m content node_cids db ≡ (db', none)
    → (lookup m.id db.manifests ≡ none)
      × (lookup i db'.manifests
          ≡ (if str_eq i m.id then some (manifest_row m content) else lookup i db.manifests))
      × (has_ref i c db'.block_refs
          ≡ (has_ref i c db.block_refs || (str_eq i m.id && mem_cid c (blocks_of m.entries))))
      × (has_ref i c db'.node_refs
          ≡ (has_ref i c db.node_refs || (str_eq i m.id && mem_cid c node_cids)))
transaction_refs e m content node_cids db db' i c h =
    let (db1, db2, p, q, r) = transaction_parts e m content node_cids db db' h in
    ground (
      arith,
      insert_manifest_row_lem e m content db db1 p,
      save_entry_refs_lem e m.id i c m.entries db1 db2 q,
      save_entry_refs_frame e m.id i c m.entries db1 db2 q,
      save_node_refs_lem e m.id i c node_cids db2 db' r,
      lookup-insert i m.id (manifest_row m content) db.manifests,
    )

module _ (S : S3) where
  -- A SaveManifest that returns no error has stored the manifest's data under its id, which no
  -- manifest had before. It has added the references of the manifest's id to the blocks of its
  -- entries and to the given nodes, and no other references.
  pub save_manifest_refs :
      (e : Env) (m : Manifest) (content : Bytes) (node_cids : List Str) (s : Store S) (i c : Str)
      → (save_manifest S e m content node_cids s).1 ≡ none
      → let after : Db = (save_manifest S e m content node_cids s).0.db in
        (lookup m.id s.db.manifests ≡ none)
        × (lookup i after.manifests ≡ (
            if str_eq i m.id
            then some (record { tags = m.tags; created_at = m.created_at; row_data = content })
            else lookup i s.db.manifests))
        × (has_ref i c after.block_refs
            ≡ (has_ref i c s.db.block_refs || (str_eq i m.id && mem_cid c (blocks_of m.entries))))
        × (has_ref i c after.node_refs
            ≡ (has_ref i c s.db.node_refs || (str_eq i m.id && mem_cid c node_cids)))
  unfolding save_manifest
  save_manifest_refs e m content node_cids s i c h =
      elim (Tried-cases (transaction e m content node_cids s.db)) [
        | inl (db', p) ↦ ground (arith, p, transaction_refs e m content node_cids s.db db' i c p)
        | inr (msg, p) ↦ absurd (ground (arith, p))
      ]
