-- ===== src/Storage/Tables.antt =====
-- The schema of `migrate` in internal/storage/storage.go, and the state of a `Storage`.
use ib.Prelude.{
  Option-cases, inl, inr, arith, ap, str_eq_iff, ◌||◌, ℕ, Str, Bytes, Dict, List, [], ◌∷◌, ◌++◌,
  Bool, true, false, ◌&&◌, Option, none, some, any, lookup, insert, str_eq, if◌then◌else◌, ◌≡◌,
  is_empty, lookup-insert,
}
use ib.Storage.Object.{S3}

pub record BlockRow : Type 0 where
  pub size : ℕ
  pub original_size : ℕ
  pub inline_data : Option Bytes
  pub s3_key : Str
  pub created_at : ℕ

-- `tags` is the JSON text of a map of strings, by the map that it decodes to.
pub record ManifestRow : Type 0 where
  pub tags : Dict Str
  pub created_at : ℕ
  pub row_data : Bytes

pub record NodeRow : Type 0 where
  pub node_data : Bytes
  pub created_at : ℕ

-- Each table with its primary key. `foreign_keys` is SQLite's setting of that name for the
-- connection: ON DELETE CASCADE acts only where it is on.
pub record Db : Type 0 where
  pub blocks : Dict BlockRow
  pub manifests : Dict ManifestRow
  pub block_refs : List (Str × Str)
  pub nodes : Dict NodeRow
  pub node_refs : List (Str × Str)
  pub foreign_keys : Bool

abbrev pub empty_db : Bool → Db
empty_db fk = record {
  blocks = [];
  manifests = [];
  block_refs = [];
  nodes = [];
  node_refs = [];
  foreign_keys = fk;
}

-- The statements that can fail, each on its own.
pub data Stmt : Type 0 where
  insert_block select_block count_block : Stmt
  insert_node select_node count_node : Stmt
  begin insert_manifest commit : Stmt
  insert_ref : Str → Stmt
  insert_node_ref : Str → Stmt
  select_manifest list_manifests delete_manifest : Stmt
  delete_old select_orphans select_orphan_nodes : Stmt
  delete_block : Str → Stmt
  delete_node : Str → Stmt

-- What one call meets: the clock, the message of each statement that fails, and the value that the
-- driver gives back for a stored blob (`none` is nil).
pub record Env : Type 0 where
  pub now : ℕ
  pub db_error : Stmt → Option Str
  pub blob : Bytes → Option Bytes

-- Every statement succeeds, and a blob that is not empty is read back.
pub record IsHealthy (e : Env) : Type 0 where
  pub no_error : (q : Stmt) → e.db_error q ≡ none
  pub blob_back : (d : Bytes) → is_empty d ≡ false → e.blob d ≡ some d

pub record Store (S : S3) : Type 0 where
  pub db : Db
  pub objects : S.State

-- INSERT OR IGNORE at a primary key
unfoldable pub insert_or_ignore {ℓ} : {V : Type ℓ} → Str → V → Dict V → Dict V
insert_or_ignore k v d = elim (lookup k d) [ none ↦ insert k v d | some _ ↦ d ]

pub lookup-insert_or_ignore {ℓ} :
    {V : Type ℓ} (j k : Str) (v : V) (d : Dict V)
    → lookup k d ≡ none
    → lookup j (insert_or_ignore k v d) ≡ (if str_eq j k then some v else lookup j d)
unfolding insert_or_ignore
lookup-insert_or_ignore j k v d fresh = rw (fresh, insert_or_ignore) (lookup-insert j k v d)

pub insert_or_ignore_present {ℓ} :
    {V : Type ℓ} (k : Str) (v w : V) (d : Dict V) → lookup k d ≡ some w → insert_or_ignore k v d ≡ d
unfolding insert_or_ignore
insert_or_ignore_present k v w d there = rw (there, insert_or_ignore)

-- The row (manifest_id, cid) is there.
unfoldable pub has_ref : Str → Str → List (Str × Str) → Bool
has_ref m c refs = any (λ (i, j). str_eq m i && str_eq c j) refs

-- Some row has this cid.
unfoldable pub is_referenced : Str → List (Str × Str) → Bool
is_referenced c refs = any (λ (i, j). str_eq c j) refs

-- INSERT OR IGNORE into a table of references
unfoldable pub add_ref : Str → Str → List (Str × Str) → List (Str × Str)
unfolding has_ref
add_ref m c refs = if has_ref m c refs then refs else refs ++ ((m, c) ∷ [])

-- SELECT COUNT(*) FROM t WHERE cid = ?, and `count > 0`
unfoldable pub has_row {ℓ} : {V : Type ℓ} → Str → Dict V → Bool
has_row k d = elim (lookup k d) [ none ↦ false | some _ ↦ true ]

pub has_row-insert_or_ignore {ℓ} :
    {V : Type ℓ} (j k : Str) (v : V) (d : Dict V)
    → has_row j (insert_or_ignore k v d) ≡ (str_eq j k || has_row j d)
unfolding has_row
has_row-insert_or_ignore j k v d = elim (Option-cases (lookup k d)) [
  | inl q ↦ ground (arith, q, lookup-insert_or_ignore j k v d q)
  | inr (w, q) ↦ ground (
    arith,
    q,
    insert_or_ignore_present k v w d q,
    str_eq_iff j k,
    ap (λ i. lookup i d) {x = j} {y = k},
  )
]
