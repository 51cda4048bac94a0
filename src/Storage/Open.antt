-- ===== src/Storage/Open.antt =====
-- New and Close of internal/storage/storage.go.
use ib.Prelude.{Str, codes, List, [], ◌∷◌, ◌++◌, false, Option, none, some, Result, ok, err}
use ib.Config.{ServerConfig}
use ib.Storage.Object.{S3}
use ib.Storage.Tables.{Db, Store}

-- What the opening meets: the error of each call, `none` for success.
pub record Opening : Type 0 where
  pub open_error : Str → Option Str
  pub busy_timeout_error : Option Str
  pub journal_mode_error : Option Str
  pub s3_error : Option Str
  pub migrate_error : Option Str

unfoldable pub data_source : ServerConfig → Str
data_source cfg = cfg.db_path ++ codes "?_pragma=busy_timeout(10000)&_pragma=journal_mode(WAL)"

-- The errors in the order of the calls, each with the words in front of it.
first_failure : List (Str × Option Str) → Option Str
first_failure [] = none
first_failure ((what, none) ∷ calls) = first_failure calls
first_failure ((what, some m) ∷ calls) = some (what ++ m)

-- The tables of the file, whose schema `migrate` makes where it is not there, behind a connection
-- without PRAGMA foreign_keys, which SQLite then has off.
unfoldable pub new_storage : (S : S3) → Opening → ServerConfig → Db → S.State → Result (Store S)
unfolding first_failure data_source
new_storage S o cfg db bucket =
    let failure : Option Str = first_failure (
      (codes "failed to open database: ", o.open_error (data_source cfg))
      ∷ (codes "failed to set busy_timeout: ", o.busy_timeout_error)
      ∷ (codes "failed to enable WAL mode: ", o.journal_mode_error)
      ∷ (codes "failed to initialize S3 client: ", o.s3_error)
      ∷ (codes "failed to migrate database: ", o.migrate_error)
      ∷ []) in
    elim failure [
      | some m ↦ err m
      | none ↦ ok (record { db = record db { foreign_keys = false }; objects = bucket })
    ]
