-- ===== src/Storage/ManifestStore.antt =====
-- SaveManifest, GetManifest, ListManifests, GetLatestManifest and DeleteManifest of
-- internal/storage/storage.go.
pub mod Save
pub mod Atomic
pub mod Latest
pub mod Reading
pub mod Success
use ib.Prelude.{
  ℕ, ◌≡◌, ◌⊎◌, refl, inl, inr, Str, Bytes, Dict, codes, List, [], ◌∷◌, ◌++◌, Bool, true, false,
  ◌&&◌, Option, none, some, Result, ok, err, lookup, insert, erase, str_eq, leb, filter, not,
  if◌then◌else◌,
}
use ib.Backup.Manifest.{Entry, Manifest}
use ib.Storage.Object.{S3}
use ib.Storage.Tables.{
  ManifestRow, Db, Env, Store, begin, insert_manifest, commit, insert_ref, insert_node_ref,
  select_manifest, list_manifests, delete_manifest, add_ref, has_row,
}

-- A row of `rows` as `Scan` reads it.
pub record ManifestInfo : Type 0 where
  pub id : Str
  pub tags : Dict Str
  pub created_at : ℕ

-- The value of a map of strings, "" for a missing key.
unfoldable pub tag_value : Str → Dict Str → Str
tag_value k tags = elim (lookup k tags) [ none ↦ [] | some v ↦ v ]

unfoldable pub matches_tags : Dict Str → Dict Str → Bool
unfolding tag_value str_eq
matches_tags manifest_tags [] = true
matches_tags manifest_tags ((k, v) ∷ filter_tags) =
    str_eq (tag_value k manifest_tags) v && matches_tags manifest_tags filter_tags

-- The transaction's view of the tables after some of its statements, and the error of the last.
abbrev pub Tried : Type 0
Tried = Db × Option Str

pub Tried-cases :
    (t : Tried) → ((db : Db) × (t ≡ (db, none))) ⊎ ((x : Db × Str) × (t ≡ (x.0, some x.1)))
Tried-cases (db, none) = inl (db, refl)
Tried-cases (db, some m) = inr ((db, m), refl)

-- The statements of one loop, in order, up to the first that fails.
save_block_refs : Env → Str → List Str → Db → Tried
unfolding add_ref
save_block_refs e id [] db = (db, none)
save_block_refs e id (cid ∷ cids) db = elim (e.db_error (insert_ref cid)) [
  | some m ↦ (db, some m)
  | none ↦ save_block_refs e id cids (record db { block_refs = add_ref id cid db.block_refs })
]

save_entry_refs : Env → Str → List Entry → Db → Tried
unfolding save_block_refs
save_entry_refs e id [] db = (db, none)
save_entry_refs e id (entry ∷ entries) db =
    let (db', failure) = save_block_refs e id entry.blocks db in
    elim failure [ some m ↦ (db', some m) | none ↦ save_entry_refs e id entries db' ]

save_node_refs : Env → Str → List Str → Db → Tried
unfolding add_ref
save_node_refs e id [] db = (db, none)
save_node_refs e id (cid ∷ cids) db = elim (e.db_error (insert_node_ref cid)) [
  | some m ↦ (db, some m)
  | none ↦ save_node_refs e id cids (record db { node_refs = add_ref id cid db.node_refs })
]

-- INSERT INTO manifests: a primary key that is taken is an error.
insert_manifest_row : Env → Manifest → Bytes → Db → Tried
unfolding has_row
insert_manifest_row e m content db = elim (e.db_error insert_manifest) [
  | some msg ↦ (db, some msg)
  | none ↦
      if has_row m.id db.manifests
      then (db, some (codes "UNIQUE constraint failed: manifests.id"))
      else (
        record db {
          manifests =
              insert m.id (record { tags = m.tags; created_at = m.created_at; row_data = content })
                db.manifests;
        },
        none,
      )
]

-- The statements between BeginTx and Commit, and the Commit, on the transaction's view of the
-- tables.
transaction : Env → Manifest → Bytes → List Str → Db → Tried
unfolding insert_manifest_row save_entry_refs save_node_refs
transaction e m content node_cids db =
    let (db1, failure1) = insert_manifest_row e m content db in
    elim failure1 [
      | some msg ↦ (db1, some msg)
      | none ↦
          let (db2, failure2) = save_entry_refs e m.id m.entries db1 in
          elim failure2 [
            | some msg ↦ (db2, some msg)
            | none ↦
                let (db3, failure3) = save_node_refs e m.id node_cids db2 in
                elim failure3 [ some msg ↦ (db3, some msg) | none ↦ (db3, e.db_error commit) ]
          ]
    ]

-- tx.Rollback: from the transaction's view back to the tables at BeginTx.
rollback : Db → Db → Db
rollback begun view = begun

module _ (S : S3) where
  -- The deferred Rollback comes to a transaction that has not committed.
  unfoldable pub save_manifest : Env → Manifest → Bytes → List Str → Store S → Store S × Option Str
  unfolding transaction rollback
  save_manifest e m content node_cids s = elim (e.db_error begin) [
    | some msg ↦ (s, some msg)
    | none ↦
        let (view, failure) = transaction e m content node_cids s.db in
        elim failure [
          | some msg ↦ (record s { db = rollback s.db view }, some msg)
          | none ↦ (record s { db = view }, none)
        ]
  ]

  unfoldable pub get_manifest : Env → Str → Store S → Result Bytes
  get_manifest e id s = elim (e.db_error select_manifest) [
    | some m ↦ err m
    | none ↦ elim (lookup id s.db.manifests) [
      | none ↦ err (codes "manifest not found: " ++ id)
      | some row ↦ ok row.row_data
    ]
  ]

-- ORDER BY created_at DESC. Rows of one time keep the table's order, which SQLite leaves open.
insert_sorted : ManifestInfo → List ManifestInfo → List ManifestInfo
insert_sorted x [] = x ∷ []
insert_sorted x (y ∷ ys) =
    if leb y.created_at x.created_at then x ∷ y ∷ ys else y ∷ insert_sorted x ys

order_by_created : Dict ManifestRow → List ManifestInfo
unfolding insert_sorted
order_by_created [] = []
order_by_created ((id, row) ∷ rows) =
    insert_sorted (record { id = id; tags = row.tags; created_at = row.created_at })
      (order_by_created rows)

module _ (S : S3) where
  unfoldable pub list_manifests_by : Env → Dict Str → Store S → Result (List ManifestInfo)
  unfolding order_by_created matches_tags
  list_manifests_by e tags s = elim (e.db_error list_manifests) [
    | some m ↦ err m
    | none ↦ ok (filter (λ info. matches_tags info.tags tags) (order_by_created s.db.manifests))
  ]

  unfoldable pub get_latest_manifest : Env → Dict Str → Store S → Result Bytes
  unfolding list_manifests_by get_manifest
  get_latest_manifest e tags s = elim (list_manifests_by e tags s) [
    | err m ↦ err m
    | ok [] ↦ err (codes "no manifests found matching tags")
    | ok (info ∷ _) ↦ get_manifest S e info.id s
  ]

-- ON DELETE CASCADE: the rows whose manifest is not there any more go, where foreign keys are on.
unfoldable pub cascade : Bool → Dict ManifestRow → List (Str × Str) → List (Str × Str)
unfolding has_row
cascade true manifests refs = filter (λ (i, c). has_row i manifests) refs
cascade false manifests refs = refs

-- DELETE FROM manifests, given the rows that stay.
unfoldable pub keep_manifests : Dict ManifestRow → Db → Db
unfolding cascade
keep_manifests rows db = record db {
  manifests = rows;
  block_refs = cascade db.foreign_keys rows db.block_refs;
  node_refs = cascade db.foreign_keys rows db.node_refs;
}

module _ (S : S3) where
  unfoldable pub delete_manifest_row : Env → Str → Store S → Store S × Option Str
  unfolding keep_manifests erase
  delete_manifest_row e id s = elim (e.db_error delete_manifest) [
    | some m ↦ (s, some m)
    | none ↦ (record s { db = keep_manifests (erase id s.db.manifests) s.db }, none)
  ]
