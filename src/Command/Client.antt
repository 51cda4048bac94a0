-- ===== src/Command/Client.antt =====
-- cmd/client: login.go and backup/create.go, list.go and restore.go.
pub mod Pairs
pub mod Whole
use ib.Prelude.{
  ℕ, Str, Bytes, Dict, codes, List, [], ◌∷◌, ◌++◌, Bool, true, false, ◌&&◌, Option, none, some,
  Result, ok, err, insert, is_empty, map, ◌==◌, if◌then◌else◌,
}
use ib.Backup.Manifest.{Manifest, generate_id, new_manifest, Entry}
use ib.Backup.Scanner.{Root, ScanResult, found, scan_error, scan}
use ib.Backup.Creator as Creator
use ib.Backup.Restore as Restore
use ib.Storage.ManifestStore.{tag_value}
use ib.Config.{ClientConfig, Os, Session, load_client, save_client}
use ib.Client.Manifests as Manifests
use ib.Client.Manifests.{Client, Remote, new_client, new_request, ManifestInfo}
use ib.Client.{download_block}

-- strings.SplitN(t, "=", 2) where it has two parts.
cut_equals : Str → Option (Str × Str)
cut_equals [] = none
cut_equals (c ∷ s) =
    let rest = cut_equals s in
    if c == b'=' then some ([], s) else elim rest [ none ↦ none | some (k, v) ↦ some (c ∷ k, v) ]

-- The loop over the flags --tag.
unfoldable pub parse_tags : List Str → Dict Str → Result (Dict Str)
unfolding cut_equals insert
parse_tags [] tags = ok tags
parse_tags (t ∷ ts) tags = elim (cut_equals t) [
  | none ↦ err (codes "invalid tag format: " ++ (t ++ codes " (expected key=value)"))
  | some (k, v) ↦ parse_tags ts (insert k v tags)
]

module _ (O : Os) where
  unfoldable pub run_login : Str → Str → Session O → Session O × Option Str
  unfolding load_client save_client
  run_login server_url token s =
      let (s1, r) = load_client O s in
      elim r [
        | err m ↦ (s1, some (codes "failed to load config: " ++ m))
        | ok cfg ↦
            let (s2, failure) =
              save_client O
                (record {
                  server_url = server_url;
                  token = if is_empty token then cfg.token else token;
                })
                s1 in
            elim failure [
              | some m ↦ (s2, some (codes "failed to save config: " ++ m))
              | none ↦ (s2, none)
            ]
      ]

  -- LoadClient and client.New.
  open_client : Session O → Session O × Result Client
  unfolding load_client new_client
  open_client s =
      let (s1, r) = load_client O s in
      elim r [
        | err m ↦ (s1, err (codes "failed to load config: " ++ m))
        | ok cfg ↦ (s1, new_client cfg)
      ]

-- What Create meets beside the files and the uploader: filepath.Abs, the clock in seconds as
-- text and as a number, the random bytes of the new manifest's id, and the tree.
pub record Place : Type 0 where
  pub abs : Str → Result Str
  pub second : Str
  pub random : Bytes
  pub now : ℕ
  pub tree : Str → Root

unfoldable pub as_result : ScanResult → Result Entry
as_result (found e) = ok e
as_result (scan_error m) = err m

-- The previous backup, or none where it cannot be fetched.
previous : Result (Option Manifest) → Option Manifest
previous (err m) = none
previous (ok m) = m

module _ (O : Os) (r : Remote) where
  -- Creator.Create, with the manifest and the scan that it makes.
  create_backup : Place → Creator.World → Str → Dict Str → Option Manifest → Result Manifest
  unfolding Creator.create generate_id new_manifest scan as_result
  create_backup p w path tags prev = elim (p.abs path) [
    | err m ↦ err m
    | ok abs ↦
        Creator.create w (new_manifest (generate_id p.second p.random) p.now tags abs)
          (map as_result (scan (p.tree path))) prev
  ]

  -- The backup that is uploaded, or an error.
  finish_create : Client → Result Manifest → Result Manifest
  unfolding Manifests.upload_manifest
  finish_create c (err m) = err (codes "backup failed: " ++ m)
  finish_create c (ok m) = elim (Manifests.upload_manifest r c m) [
    | some msg ↦ err (codes "failed to upload manifest: " ++ msg)
    | none ↦ ok m
  ]

  create_with : Place → Creator.World → Str → Dict Str → Session O → Session O × Result Manifest
  unfolding open_client create_backup finish_create previous Manifests.get_latest_manifest
  create_with p w path tags s =
      let (s1, opened) = open_client O s in
      elim opened [
        | err m ↦ (s1, err m)
        | ok c ↦ (
          s1,
          finish_create c
              (create_backup p w path tags (previous (Manifests.get_latest_manifest r c tags))),
        )
      ]

  unfoldable pub run_create :
      Place → Creator.World → List Str → Str → Session O → Session O × Result Manifest
  unfolding parse_tags tag_value create_with
  run_create p w flags path s = elim (parse_tags flags []) [
    | err m ↦ (s, err m)
    | ok tags ↦
        if is_empty (tag_value (codes "name") tags)
        then (s, err (codes "the 'name' tag is required: use --tag name=<backup-name>"))
        else create_with p w path tags s
  ]

  unfoldable pub run_list : List Str → Session O → Session O × Result (List ManifestInfo)
  unfolding parse_tags open_client Manifests.list_manifests
  run_list flags s = elim (parse_tags flags []) [
    | err m ↦ (s, err m)
    | ok tags ↦
        let (s1, opened) = open_client O s in
        elim opened [
          | err m ↦ (s1, err m)
          | ok c ↦ elim (Manifests.list_manifests r c tags) [
            | err m ↦ (s1, err (codes "failed to list manifests: " ++ m))
            | ok infos ↦ (s1, ok infos)
          ]
        ]
  ]

  fetched : Result (Option Manifest) → Result Manifest
  fetched (err m) = err (codes "failed to fetch manifest: " ++ m)
  fetched (ok none) = err (codes "no backup found matching tags")
  fetched (ok (some m)) = ok m

  -- The manifest to restore: by its id, or the latest with the tags.
  fetch : Client → Str → List Str → Result Manifest
  unfolding parse_tags fetched Manifests.get_manifest Manifests.get_latest_manifest
  fetch c id flags =
      if is_empty id
      then elim (parse_tags flags []) [
        | err m ↦ err m
        | ok tags ↦ fetched (Manifests.get_latest_manifest r c tags)
      ]
      else elim (Manifests.get_manifest r c id) [
        | err m ↦ err (codes "failed to fetch manifest: " ++ m)
        | ok m ↦ ok m
      ]

  -- The fetcher gives the bytes of DownloadBlock as they are.
  decompressing_fetch : Client → Str → Result Bytes
  unfolding new_request download_block
  decompressing_fetch c cid =
      download_block (r.answer (new_request c (codes "GET") (codes "/api/blocks/" ++ cid) []))

  restore_with : Client → Restore.World → Str → Result Manifest → Result (Unit {0})
  unfolding Restore.restore decompressing_fetch
  restore_with c w out (err m) = err m
  restore_with c w out (ok m) =
      elim (Restore.restore (record w { fetch = decompressing_fetch c }) m out).1 [
        | some msg ↦ err (codes "restore failed: " ++ msg)
        | none ↦ ok tt
      ]

  unfoldable pub run_restore :
      Restore.World → Str → List Str → Str → Session O → Session O × Result (Unit {0})
  unfolding open_client fetch restore_with
  run_restore w id flags out s =
      if is_empty id && is_empty flags
      then (s, err (codes "must specify either --id or --tag"))
      else let (s1, opened) = open_client O s in
        elim opened [ err m ↦ (s1, err m) | ok c ↦ (s1, restore_with c w out (fetch c id flags)) ]
