-- ===== src/Server/Api.antt =====
-- The handlers of internal/server/api.go, but the downloads, and internal/server/metrics.go.
pub mod Facts
use ib.Prelude.{
  ℕ, ◌+◌, ◌*◌, Str, Bytes, Dict, codes, List, [], ◌∷◌, ◌++◌, Bool, true, false, ◌||◌, ◌&&◌, not,
  Option, none, some, Result, ok, err, length, leb, lookup, insert, is_empty, contains, has_prefix,
  trim_prefix, if◌then◌else◌,
}
use ib.Backup.Manifest.{Manifest}
use ib.Backup.Codec.{Codec}
use ib.Backup.Chunker.{compress_block}
use ib.Storage.Object.{S3}
use ib.Storage.Tables.{Env, Store}
use ib.Storage.Block.{save_block, get_block, block_exists}
use ib.Storage.ManifestStore.{
  ManifestInfo, save_manifest, get_manifest, list_manifests_by, get_latest_manifest,
  delete_manifest_row,
}
use ib.Ipfs.Dag.{Cids}
use ib.Ipfs.Blockstore.{decompress_or_raw}
use ib.Ipfs.ManifestDag.{NodeCollector, build_manifest_dag}

-- The packages encoding/json and strconv, by what the handlers call: a manifest from JSON, a
-- manifest to JSON, and ParseInt, which gives a number on errors too.
pub record Formats : Type 0 where
  pub unmarshal : Bytes → Option Manifest
  pub marshal : Manifest → Option Bytes
  pub parse_int : Str → ℕ

-- A gauge, by the sums of what was added to it and of what was taken from it.
pub record Gauge : Type 0 where
  pub added : ℕ
  pub removed : ℕ

pub record Metrics : Type 0 where
  pub blocks_total : Gauge
  pub manifests_total : Gauge
  pub storage_bytes : Gauge
  pub bandwidth_upload : ℕ
  pub bandwidth_download : ℕ

abbrev pub new_gauge : Gauge
new_gauge = record { added = 0; removed = 0 }

abbrev pub new_metrics : Metrics
new_metrics = record {
  blocks_total = new_gauge;
  manifests_total = new_gauge;
  storage_bytes = new_gauge;
  bandwidth_upload = 0;
  bandwidth_download = 0;
}

abbrev pub gauge_add : ℕ → Gauge → Gauge
gauge_add n g = record g { added = g.added + n }

abbrev pub gauge_dec : Gauge → Gauge
gauge_dec g = record g { removed = g.removed + 1 }

-- The handlers' part of a Server. `root_cids` is none where no IPFS node runs.
pub record Server (S : S3) : Type 0 where
  pub storage : Store S
  pub metrics : Metrics
  pub root_cids : Option (List Str)

-- What is sent, with its status.
pub data Response : Type 0 where
  failed : ℕ → Str → Response
  manifests_found : List ManifestInfo → Response
  manifest_found : Manifest → Response
  manifest_created : Str → Str → Response
  manifest_deleted : Str → Response
  block_data : Bytes → Response
  block_state : Bool → Response
  block_created : Str → Response
  static_data : Str → Bytes → Response

abbrev pub status : Response → ℕ
status (failed n m) = n
status (manifest_created id root) = 201
status (block_created cid) = 201
status (block_state false) = 404
status _ = 200

-- The keys of the query, which are distinct, with their values.
unfoldable pub extract_tags : List (Str × List Str) → Dict Str
unfolding has_prefix trim_prefix
extract_tags [] = []
extract_tags ((key, []) ∷ query) = extract_tags query
extract_tags ((key, v ∷ vs) ∷ query) =
    let rest = extract_tags query in
    if has_prefix key (codes "tag.") then insert (trim_prefix key (codes "tag.")) v rest else rest

-- A stored manifest: decompressed into ten times its length, or taken as it is.
unfoldable pub read_manifest : Codec → Formats → Bytes → Option Manifest
unfolding decompress_or_raw
read_manifest C F content = F.unmarshal (decompress_or_raw C content (length content * 10))

unfoldable pub compress_data : Codec → Bytes → Bytes
unfolding compress_block
compress_data C content = elim (compress_block C content (length content)) [
  | err m ↦ content
  | ok out ↦ if leb (length content) (length out) then content else out
]

module _ (S : S3) where
  unfoldable pub handle_list_manifests : Env → List (Str × List Str) → Server S → Response
  unfolding extract_tags list_manifests_by
  handle_list_manifests e query s = elim (list_manifests_by S e (extract_tags query) s.storage) [
    | err m ↦ failed 500 m
    | ok infos ↦ manifests_found infos
  ]

module _ (S : S3) (C : Codec) (F : Formats) where
  -- The answer for the bytes of a manifest.
  unfoldable pub manifest_reply : Bytes → Response
  unfolding read_manifest
  manifest_reply content = elim (read_manifest C F content) [
    | none ↦ failed 500 (codes "failed to parse manifest")
    | some m ↦ manifest_found m
  ]

  unfoldable pub handle_get_manifest : Env → Str → Server S → Response
  unfolding get_manifest contains manifest_reply
  handle_get_manifest e id s = elim (get_manifest S e id s.storage) [
    | err m ↦
        if contains m (codes "not found")
        then failed 404 (codes "manifest not found")
        else failed 500 m
    | ok content ↦ manifest_reply content
  ]

  unfoldable pub handle_get_latest_manifest : Env → List (Str × List Str) → Server S → Response
  unfolding extract_tags get_latest_manifest contains manifest_reply
  handle_get_latest_manifest e query s =
      elim (get_latest_manifest S e (extract_tags query) s.storage) [
        | err m ↦
            if contains m (codes "not found") || contains m (codes "no manifests")
            then failed 404 (codes "no matching manifest found")
            else failed 500 m
        | ok content ↦ manifest_reply content
      ]

  -- `body` is the request's JSON.
  unfoldable pub handle_create_manifest :
      Cids → Env → Option Manifest → Server S → Server S × Response
  unfolding build_manifest_dag compress_data save_manifest
  handle_create_manifest k e none s = (s, failed 400 (codes "invalid manifest JSON"))
  handle_create_manifest k e (some body) s =
      let (nc, built) =
        build_manifest_dag S k e body (record { saver = s.storage; node_cids = [] }) in
      let s1 : Server S = record s { storage = nc.saver } in
      elim built [
        | err m ↦ (s1, failed 500 (codes "failed to build DAG: " ++ m))
        | ok m ↦ elim (F.marshal m) [
          | none ↦ (s1, failed 500 (codes "failed to serialize manifest"))
          | some content ↦
              let (st, failure) =
                save_manifest S e m (compress_data C content) nc.node_cids nc.saver in
              elim failure [
                | some msg ↦ (record s1 { storage = st }, failed 500 msg)
                | none ↦ (
                  record {
                    storage = st;
                    metrics = record (s.metrics) {
                      manifests_total = gauge_add 1 s.metrics.manifests_total;
                    };
                    root_cids = elim s.root_cids [
                      | none ↦ none
                      | some roots ↦
                          if is_empty m.root_cid then some roots else elim (k.decode m.root_cid) [
                            | err msg ↦ some roots
                            | ok c ↦ some (roots ++ (c ∷ []))
                          ]
                    ];
                  },
                  manifest_created m.id m.root_cid,
                )
              ]
        ]
      ]

module _ (S : S3) where
  unfoldable pub handle_delete_manifest : Env → Str → Server S → Server S × Response
  unfolding delete_manifest_row
  handle_delete_manifest e id s =
      let (st, failure) = delete_manifest_row S e id s.storage in
      elim failure [
        | some m ↦ (record s { storage = st }, failed 500 m)
        | none ↦ (
          record s {
            storage = st;
            metrics = record (s.metrics) { manifests_total = gauge_dec s.metrics.manifests_total };
          },
          manifest_deleted id,
        )
      ]

  unfoldable pub handle_get_block : Env → Str → Server S → Server S × Response
  unfolding get_block contains
  handle_get_block e cid s = elim (get_block S e cid s.storage) [
    | err m ↦ (
      s,
      if contains m (codes "not found") then failed 404 (codes "block not found") else failed 500 m,
    )
    | ok content ↦ (
      record s {
        metrics = record (s.metrics) {
          bandwidth_download = s.metrics.bandwidth_download + length content;
        };
      },
      block_data content,
    )
  ]

  unfoldable pub handle_block_exists : Env → Str → Server S → Response
  unfolding block_exists
  handle_block_exists e cid s = elim (block_exists S e cid s.storage) [
    | err m ↦ failed 500 m
    | ok b ↦ block_state b
  ]

  -- The headers X-Block-CID and X-Original-Size, and the body, `none` where it cannot be read.
  unfoldable pub handle_upload_block :
      Formats → Env → Str → Str → Option Bytes → Server S → Server S × Response
  unfolding save_block
  handle_upload_block F e cid original_size body s =
      if is_empty cid then (s, failed 400 (codes "missing X-Block-CID header")) else elim body [
        | none ↦ (s, failed 400 (codes "failed to read body"))
        | some content ↦
            let (st, failure) = save_block S e cid content (F.parse_int original_size) s.storage in
            elim failure [
              | some m ↦ (record s { storage = st }, failed 500 m)
              | none ↦ (
                record s {
                  storage = st;
                  metrics = record (s.metrics) {
                    blocks_total = gauge_add 1 s.metrics.blocks_total;
                    storage_bytes = gauge_add (length content) s.metrics.storage_bytes;
                    bandwidth_upload = s.metrics.bandwidth_upload + length content;
                  };
                },
                block_created cid,
              )
            ]
      ]
