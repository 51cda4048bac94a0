-- ===== src/Storage/Node.antt =====
-- SaveNode, GetNode and NodeExists of internal/storage/storage.go.
use ib.Prelude.{Str, Bytes, codes, ◌++◌, Bool, Option, none, some, Result, ok, err, lookup}
use ib.Storage.Object.{S3}
use ib.Storage.Tables.{Env, Store, insert_node, select_node, count_node, insert_or_ignore, has_row}

module _ (S : S3) where
  unfoldable pub save_node : Env → Str → Bytes → Store S → Store S × Option Str
  unfolding insert_or_ignore
  save_node e cid content s = elim (e.db_error insert_node) [
    | some m ↦ (s, some m)
    | none ↦ (
      record s {
        db = record (s.db) {
          nodes =
              insert_or_ignore cid (record { node_data = content; created_at = e.now }) s.db.nodes;
        };
      },
      none,
    )
  ]

  unfoldable pub get_node : Env → Str → Store S → Result Bytes
  get_node e cid s = elim (e.db_error select_node) [
    | some m ↦ err m
    | none ↦ elim (lookup cid s.db.nodes) [
      | none ↦ err (codes "node not found: " ++ cid)
      | some row ↦ ok row.node_data
    ]
  ]

  unfoldable pub node_exists : Env → Str → Store S → Result Bool
  unfolding has_row
  node_exists e cid s = elim (e.db_error count_node) [
    | some m ↦ err m
    | none ↦ ok (has_row cid s.db.nodes)
  ]
