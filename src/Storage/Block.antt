-- ===== src/Storage/Block.antt =====
-- SaveBlock, GetBlock and BlockExists of internal/storage/storage.go.
pub mod Key
pub mod RoundTrip
pub mod Success
use ib.Prelude.{
  ℕ, ◌*◌, Str, Bytes, codes, List, [], ◌++◌, Bool, Option, none, some, Result, ok, err, lookup,
  length, take, drop, ltb, leb, to_lower, is_empty, not, if◌then◌else◌,
}
use ib.Storage.Object.{S3}
use ib.Storage.Tables.{
  BlockRow, Env, Store, insert_block, select_block, count_block, insert_or_ignore, has_row,
}

abbrev pub inline_threshold : ℕ
inline_threshold = 256 * 1024

abbrev pub s3_path_prefix : Str
s3_path_prefix = codes "backups/ib"

-- A CID is ASCII, so its bytes are its code points.
key_prefix : Str → Str
key_prefix cid = if leb 10 (length cid) then to_lower (take 2 (drop 8 cid)) else codes "00"

unfoldable pub block_s3_key : Str → Str
unfolding key_prefix to_lower
block_s3_key cid =
    s3_path_prefix ++ (codes "/" ++ (key_prefix cid ++ (codes "/" ++ (cid ++ codes ".lz4"))))

abbrev pub inline_row : Env → Bytes → ℕ → BlockRow
inline_row e content original_size = record {
  size = length content;
  original_size = original_size;
  inline_data = some content;
  s3_key = [];
  created_at = e.now;
}

abbrev pub s3_row : Env → Str → Bytes → ℕ → BlockRow
s3_row e cid content original_size = record {
  size = length content;
  original_size = original_size;
  inline_data = none;
  s3_key = block_s3_key cid;
  created_at = e.now;
}

module _ (S : S3) where
  insert_row : Env → Str → BlockRow → Store S → Store S × Option Str
  unfolding insert_or_ignore
  insert_row e cid row s = elim (e.db_error insert_block) [
    | some m ↦ (s, some m)
    | none ↦
        (record s { db = record (s.db) { blocks = insert_or_ignore cid row s.db.blocks } }, none)
  ]

  -- The error is `none` for nil.
  unfoldable pub save_block : Env → Str → Bytes → ℕ → Store S → Store S × Option Str
  unfolding insert_row
  save_block e cid content original_size s =
      if ltb (length content) inline_threshold
      then insert_row e cid (inline_row e content original_size) s
      else let (objects', failure) = S.put (block_s3_key cid) content s.objects in
        elim failure [
          | some m ↦ (record s { objects = objects' }, some (codes "failed to upload to S3: " ++ m))
          | none ↦
              insert_row e cid (s3_row e cid content original_size)
                (record s { objects = objects' })
        ]

  -- What the query's columns give: the blob as the driver reads it, and whether there is a key.
  read_row : Env → Str → BlockRow → Store S → Result Bytes
  read_row e cid row s =
      let inline : Option Bytes = elim row.inline_data [ none ↦ none | some b ↦ e.blob b ] in
      elim inline [
        | some b ↦ ok b
        | none ↦
            if not (is_empty row.s3_key)
            then S.get (block_s3_key cid) s.objects
            else err (codes "block has no data: " ++ cid)
      ]

  unfoldable pub get_block : Env → Str → Store S → Result Bytes
  unfolding read_row
  get_block e cid s = elim (e.db_error select_block) [
    | some m ↦ err m
    | none ↦ elim (lookup cid s.db.blocks) [
      | none ↦ err (codes "block not found: " ++ cid)
      | some row ↦ read_row e cid row s
    ]
  ]

  unfoldable pub block_exists : Env → Str → Store S → Result Bool
  unfolding has_row
  block_exists e cid s = elim (e.db_error count_block) [
    | some m ↦ err m
    | none ↦ ok (has_row cid s.db.blocks)
  ]
