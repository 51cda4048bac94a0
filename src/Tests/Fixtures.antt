-- ===== src/Tests/Fixtures.antt =====
-- A bucket in memory, a database without errors, a codec that knows one chunk, and two backups.
use ib.Prelude.{
  ℕ, refl, Str, Bytes, Dict, codes, List, [], ◌∷◌, ◌++◌, true, false, none, some, Result, ok, err,
  lookup, insert, erase, lookup-insert, lookup-erase, str_eq, str_eq_refl, str_eq_iff, length, leb,
  arith, if◌then◌else◌, Bool-cases, inl, inr,
}
use ib.Backup.Manifest.{file, Entry, Manifest}
use ib.Backup.Codec as Codec
use ib.Backup.Codec.{Codec}
use ib.Ipfs.Dag.{Cids}
use ib.Storage.Object as Object
use ib.Storage.Object.{S3}
use ib.Storage.Tables.{BlockRow, Db, Env, IsHealthy, Store, empty_db}

abbrev get_object : Str → Dict Bytes → Result Bytes
get_object k s = elim (lookup k s) [ none ↦ err (codes "NoSuchKey") | some d ↦ ok d ]

abbrev pub memory : S3
memory = record {
  State = Dict Bytes;
  put = λ k d s. (insert k d s, none);
  get = get_object;
  delete = λ k s. (erase k s, none);
}

pub memory-IsLawful : Object.IsLawful memory
memory-IsLawful = record {
  get-put = λ k d s h. ground (arith, lookup-insert k k d s, str_eq_refl k);
  get-put_other = λ j k d s h. ground (arith, lookup-insert j k d s);
  get-delete_other = λ j k s h. ground (arith, lookup-erase j k s);
}

abbrev pub calm : Env
calm = record { now = 1000; db_error = λ q. none; blob = λ d. some d }

pub calm-IsHealthy : IsHealthy calm
calm-IsHealthy = record { no_error = λ q. refl; blob_back = λ d h. refl }

-- Four sevens are compressed, and nothing else; a seven alone is refused.
abbrev pub sevens : Bytes
sevens = 7 ∷ 7 ∷ 7 ∷ 7 ∷ []

abbrev toy_compress : Bytes → ℕ → Result Bytes
toy_compress src room =
    if str_eq src sevens
    then ok (7 ∷ [])
    else if str_eq src (7 ∷ [])
    then err (codes "refused")
    else ok []

abbrev toy_uncompress : Bytes → ℕ → Result Bytes
toy_uncompress src room =
    if str_eq src (7 ∷ [])
    then if leb 4 room then ok sevens else err (codes "short buffer")
    else err (codes "corrupt input")

abbrev pub toy : Codec
toy = record {
  compress = toy_compress;
  uncompress = toy_uncompress;
  bound = λ n. n;
  generate = λ content. ok (codes "cid-" ++ content);
}

pub toy-IsLawful : Codec.IsLawful toy
toy-IsLawful = record {
  uncompress-compress = λ src out cap room h full small.
      ground (arith, str_eq_iff src sevens, str_eq_iff out (7 ∷ []));
  uncompress_short = λ src out cap room h full small. elim (Bool-cases (str_eq out (7 ∷ []))) [
    | inl t ↦ (codes "short buffer", ground (arith, t, str_eq_iff src sevens))
    | inr t ↦ (codes "corrupt input", ground (arith, t))
  ];
}

abbrev pub block_row : ℕ → Bytes → BlockRow
block_row n content = record {
  size = length content;
  original_size = n;
  inline_data = some content;
  s3_key = [];
  created_at = 7;
}

abbrev pub two_blocks : Dict BlockRow
two_blocks =
    (codes "cid-old", block_row 3 (1 ∷ 2 ∷ 3 ∷ []))
    ∷ (codes "cid-new", block_row 2 (4 ∷ 5 ∷ []))
    ∷ []

-- An old backup of one block and a new one of the other.
abbrev pub two_backups : Db
two_backups = record (empty_db true) {
  blocks = two_blocks;
  manifests =
      (codes "old", record { tags = []; created_at = 10; row_data = 8 ∷ [] })
      ∷ (
        codes "new",
        record { tags = (codes "host", codes "a") ∷ []; created_at = 90; row_data = 9 ∷ [] },
      )
      ∷ [];
  block_refs = (codes "old", codes "cid-old") ∷ (codes "new", codes "cid-new") ∷ [];
}

abbrev pub store : Store memory
store = record { db = two_backups; objects = [] }

abbrev pub lax_store : Store memory
lax_store = record { db = record two_backups { foreign_keys = false }; objects = [] }

abbrev pub file_entry : Str → ℕ → List Str → Entry
file_entry path size blocks = record {
  path = path;
  type = file;
  mode = 420;
  mtime = 5;
  size = size;
  cid = [];
  blocks = blocks;
  link_target = [];
}

abbrev pub manifest_with : Str → List Entry → Manifest
manifest_with id entries = record {
  id = id;
  tags = [];
  created_at = 100;
  root_path = codes "/home";
  root_cid = [];
  entries = entries;
}

-- Every text is a CID, and every node has one and the same.
abbrev pub plain_cids : Cids
plain_cids = record {
  decode = λ text. ok text;
  to_bytes = λ cid. cid;
  dag_pb = λ content. codes "node";
  is_dag_pb = λ cid. str_eq cid (codes "node");
}
