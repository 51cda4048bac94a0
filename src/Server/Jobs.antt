-- ===== src/Server/Jobs.antt =====
-- The jobs of internal/server/server.go beside the requests: prune and runPruner,
-- loadExistingRootCIDs and Close.
pub mod Retention
use ib.Prelude.{
  ℕ, suc, ◌+◌, ◌*◌, ◌-◌, Str, Bytes, List, [], ◌∷◌, ◌++◌, Bool, true, false, Option, none, some,
  Result, ok, err, is_empty, length, ltb, if◌then◌else◌,
}
use ib.Backup.Codec.{Codec}
use ib.Ipfs.Dag.{Cids}
use ib.Ipfs.Blockstore.{decompress_or_raw}
use ib.Storage.Object.{S3}
use ib.Storage.Tables.{Env, Store}
use ib.Storage.ManifestStore.{ManifestInfo, get_manifest, list_manifests_by}
use ib.Storage.Prune.{prune_manifests}

abbrev pub day : ℕ
day = 24 * (60 * 60)

-- now.AddDate(0, 0, -days) in Unix seconds, where each day has 24 hours. No stored time is before
-- 1970, so a cutoff before that removes as little as 0 does.
unfoldable pub cutoff_at : ℕ → ℕ → ℕ
cutoff_at retention_days now = now - retention_days * day

module _ (S : S3) where
  -- A failure is printed.
  unfoldable pub prune : ℕ → Env → Store S → Store S
  unfolding cutoff_at prune_manifests
  prune retention_days e s = (prune_manifests S e (cutoff_at retention_days e.now) s).0

  -- One round at the start and one at each tick: what each round meets, in order.
  unfoldable pub run_pruner : ℕ → List Env → Store S → Store S
  unfolding prune
  run_pruner retention_days [] s = s
  run_pruner retention_days (e ∷ es) s = run_pruner retention_days es (prune retention_days e s)

module _ (S : S3) (C : Codec) (k : Cids) where
  -- The roots of the manifests that can be read, decoded and have one, in the order of the list.
  -- `parse_root` is json.Unmarshal into the structure with the field root_cid.
  roots_loop : (Bytes → Option Str) → Env → List ManifestInfo → Store S → List Str
  unfolding get_manifest decompress_or_raw
  roots_loop parse_root e [] s = []
  roots_loop parse_root e (info ∷ infos) s =
      let rest = roots_loop parse_root e infos s in
      elim (get_manifest S e info.id s) [
        | err m ↦ rest
        | ok content ↦ elim (parse_root (decompress_or_raw C content (length content * 10))) [
          | none ↦ rest
          | some root ↦
              if is_empty root
              then rest
              else elim (k.decode root) [ err m ↦ rest | ok c ↦ c ∷ rest ]
        ]
      ]

  -- The roots that the node has afterwards, and whether it advertises them.
  unfoldable pub load_existing_root_cids :
      (Bytes → Option Str) → Env → Store S → List Str → List Str × Bool
  unfolding list_manifests_by roots_loop
  load_existing_root_cids parse_root e s roots = elim (list_manifests_by S e [] s) [
    | err m ↦ (roots, false)
    | ok infos ↦
        let loaded = roots_loop parse_root e infos s in (roots ++ loaded, ltb 0 (length loaded))
  ]
