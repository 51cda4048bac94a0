-- ===== src/Server/Api/Facts.antt =====
-- What the handlers answer after one another.
use ib.Prelude.{
  ◌+◌, ◌*◌, ◌<◌, ◌≡◌, ap, Str, Bytes, [], ◌∷◌, false, none, some, ok, length, leb, lookup,
  lookup-erase, is_empty, str_eq_iff, if◌then◌else◌, arith, Result-cases, Option-cases, Bool-cases,
  inl, inr,
}
use ib.Backup.Manifest.{Manifest}
use ib.Backup.Codec as Codec
use ib.Backup.Codec.{Codec}
use ib.Backup.Chunker.{compress_block, decompress}
use ib.Storage.Object as Object
use ib.Storage.Object.{S3}
use ib.Storage.Tables.{Env, IsHealthy, select_manifest, delete_manifest}
use ib.Storage.Block.{save_block}
use ib.Storage.Block.RoundTrip.{get_block-save_block}
use ib.Storage.ManifestStore.{save_manifest, delete_manifest_row, keep_manifests}
use ib.Storage.ManifestStore.Reading.{get_manifest-save_manifest}
use ib.Ipfs.Dag.{Cids}
use ib.Ipfs.Blockstore.{decompress_or_raw}
use ib.Ipfs.ManifestDag.{NodeCollector, build_manifest_dag}
use ib.Server.Api.{
  Formats, Server, manifest_created, manifest_deleted, block_data, block_created, read_manifest,
  compress_data, manifest_reply, handle_get_manifest, handle_create_manifest,
  handle_delete_manifest, handle_get_block, handle_upload_block,
}

module _ (S : S3) (L : Object.IsLawful S) (F : Formats) (e e' : Env) (H : IsHealthy e)
    (H' : IsHealthy e') where
  -- If the upload of a body that is not empty is answered with 201, and its CID was new, then the
  -- block is answered with that body, and counted as downloaded by its length; with a healthy
  -- database and a lawful S3.
  pub handle_get_block-handle_upload_block :
      (cid size : Str) (content : Bytes) (s : Server S)
      → lookup cid s.storage.db.blocks ≡ none
      → is_empty content ≡ false
      → (handle_upload_block S F e cid size (some content) s).1 ≡ block_created cid
      → let s' = (handle_upload_block S F e cid size (some content) s).0 in
        ((handle_get_block S e' cid s').1 ≡ block_data content)
        × ((handle_get_block S e' cid s').0.metrics.bandwidth_download
            ≡ s.metrics.bandwidth_download + length content)
  unfolding handle_upload_block handle_get_block
  handle_get_block-handle_upload_block cid size content s fresh full created =
      elim (Bool-cases (is_empty cid)) [
        | inl q ↦ absurd (ground (arith, q))
        | inr q ↦
            elim (Option-cases ((save_block S e cid content (F.parse_int size) s.storage).1)) [
              | inr (m, t) ↦ absurd (ground (arith, q, t))
              | inl t ↦ ground (
                arith,
                q,
                t,
                get_block-save_block S L e e' H H' cid content (F.parse_int size) s.storage fresh
                    full t,
              )
            ]
      ]

is_empty-length : (out : Bytes) → is_empty out ≡ false → 0 < length out
is_empty-length [] h = absurd (ground arith)
is_empty-length (x ∷ out) h = omega arith

module _ (C : Codec) (L : Codec.IsLawful C) (F : Formats) where
  -- Take the JSON of a manifest that LZ4 compresses into fewer bytes. What is read of what is
  -- stored is that JSON if it is at most ten times as long as the compressed bytes. If it is
  -- longer, the compressed bytes themselves are parsed as JSON.
  pub read_manifest-compress_data :
      (content out : Bytes)
      → C.compress content (length content) ≡ ok out
      → is_empty out ≡ false
      → length out < length content
      → read_manifest C F (compress_data C content)
        ≡ F.unmarshal (if leb (length content) (length out * 10) then content else out)
  unfolding read_manifest compress_data compress_block decompress_or_raw decompress
  read_manifest-compress_data content out h full less =
      elim (Bool-cases (leb (length content) (length out * 10))) [
        | inl t ↦
            let u : C.uncompress out (length out * 10) ≡ ok content =
              L.uncompress-compress content out (length content) (length out * 10) h full
                (ground (arith, t)) in
            ground (arith, t, h, less, u)
        | inr t ↦
            let (m, u) =
              L.uncompress_short content out (length content) (length out * 10) h full
                (ground (arith, t)) in
            ground (arith, t, h, less, full, u, is_empty-length out)
      ]

  -- JSON that LZ4 reports as incompressible, which it does by writing nothing, is stored as no
  -- bytes at all.
  pub compress_data_incompressible :
      (content : Bytes)
      → C.compress content (length content) ≡ ok []
      → 0 < length content
      → compress_data C content ≡ []
  unfolding compress_data compress_block
  compress_data_incompressible content h full = ground (arith, h)

module _ (S : S3) where
  -- Deleting a manifest that is not there is answered like any other: it leaves every manifest as
  -- it was, and takes one from the gauge of manifests; with a healthy database.
  pub handle_delete_manifest_missing :
      (e : Env) (H : IsHealthy e) (id j : Str) (s : Server S)
      → lookup id s.storage.db.manifests ≡ none
      → let s' = (handle_delete_manifest S e id s).0 in
        ((handle_delete_manifest S e id s).1 ≡ manifest_deleted id)
        × (lookup j s'.storage.db.manifests ≡ lookup j s.storage.db.manifests)
        × (s'.metrics.manifests_total.removed ≡ s.metrics.manifests_total.removed + 1)
  unfolding handle_delete_manifest delete_manifest_row keep_manifests
  handle_delete_manifest_missing e H id j s missing = ground (
    arith,
    H.no_error delete_manifest,
    lookup-erase j id s.storage.db.manifests,
    ap (λ i. lookup i s.storage.db.manifests) {x = j} {y = id},
    str_eq_iff j id,
  )

module _ (S : S3) (C : Codec) (F : Formats) (k : Cids) (e e' : Env) where
  -- If the creation of a manifest is answered with an id and a root CID, there is a manifest with
  -- both, which was serialized, and reading the id from then on is answered with what is parsed
  -- from the stored form of that serialization, where the query does not fail.
  pub handle_get_manifest-handle_create_manifest :
      (body : Manifest) (id root : Str) (s : Server S)
      → e'.db_error select_manifest ≡ none
      → (handle_create_manifest S C F k e (some body) s).1 ≡ manifest_created id root
      → (m : Manifest) × (content : Bytes) × (m.id ≡ id)
        × (m.root_cid ≡ root)
        × (F.marshal m ≡ some content)
        × (handle_get_manifest S C F e' id (handle_create_manifest S C F k e (some body) s).0
            ≡ manifest_reply S C F (compress_data C content))
  unfolding handle_create_manifest handle_get_manifest
  handle_get_manifest-handle_create_manifest body id root s healthy created =
      let nc : NodeCollector S =
        (build_manifest_dag S k e body (record { saver = s.storage; node_cids = [] })).0 in
      elim (Result-cases
        ((build_manifest_dag S k e body (record { saver = s.storage; node_cids = [] })).1)) [
          | inr (msg, q) ↦ absurd (ground (arith, q))
          | inl (m, q) ↦ elim (Option-cases (F.marshal m)) [
            | inl q1 ↦ absurd (ground (arith, q, q1))
            | inr (content, q1) ↦
                elim (Option-cases
                  ((save_manifest S e m (compress_data C content) nc.node_cids nc.saver).1)) [
                    | inr (msg, q2) ↦ absurd (ground (arith, q, q1, q2))
                    | inl q2 ↦
                        let same : m.id ≡ id = ground (arith, q, q1, q2) in
                        (
                          m,
                          content,
                          same,
                          ground (arith, q, q1, q2),
                          q1,
                          ground (
                            arith,
                            q,
                            q1,
                            q2,
                            same,
                            get_manifest-save_manifest S e e' m (compress_data C content)
                                nc.node_cids nc.saver q2 healthy,
                          ),
                        )
                  ]
          ]
        ]
