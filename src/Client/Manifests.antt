-- ===== src/Client/Manifests.antt =====
-- The calls of internal/client/client.go for manifests, each tried once.
pub mod Tags
use ib.Prelude.{
  ℕ, Str, Bytes, Dict, codes, List, [], ◌∷◌, ◌++◌, Bool, true, false, ◌||◌, Option, none, some,
  Result, ok, err, insert, is_empty, decimal, ◌==◌, if◌then◌else◌,
}
use ib.Backup.Manifest.{Manifest}
use ib.Config.{ClientConfig}
use ib.Client.{Reply, request_error, transport_error, response}

pub record Client : Type 0 where
  pub base_url : Str
  pub token : Str

unfoldable pub new_client : ClientConfig → Result Client
new_client cfg =
    if is_empty cfg.server_url
    then err (codes "server URL not configured. Run 'ib login <server-url>'")
    else ok (record { base_url = cfg.server_url; token = cfg.token })

-- An HTTP request: `authorization` is "" where the header is not set, and `query` holds what is
-- added to that of the base URL.
pub record Request : Type 0 where
  pub method : Str
  pub url : Str
  pub query : Dict (List Str)
  pub authorization : Str
  pub body : Bytes

unfoldable pub new_request : Client → Str → Str → Bytes → Request
new_request c method path body = record {
  method = method;
  url = c.base_url ++ path;
  query = [];
  authorization = if is_empty c.token then [] else codes "Bearer " ++ c.token;
  body = body;
}

-- `q.Set` for each tag.
query_loop : Dict Str → Dict (List Str) → Dict (List Str)
unfolding insert
query_loop [] q = q
query_loop ((k, v) ∷ tags) q = query_loop tags (insert (codes "tag." ++ k) (v ∷ []) q)

-- The query for some tags, on a base URL without one.
unfoldable pub tags_query : Dict Str → Dict (List Str)
unfolding query_loop
tags_query tags = query_loop tags []

-- A request for everybody, without the token.
tags_request : Client → Str → Dict Str → Request
unfolding tags_query
tags_request c path tags = record {
  method = codes "GET";
  url = c.base_url ++ path;
  query = tags_query tags;
  authorization = [];
  body = [];
}

-- A row of the answer of ListManifests, by its JSON.
pub record ManifestInfo : Type 0 where
  pub id : Str
  pub tags : Dict Str
  pub created_at : ℕ

-- What a request is answered with, and encoding/json.
pub record Remote : Type 0 where
  pub answer : Request → Reply
  pub decode_manifest : Bytes → Result Manifest
  pub decode_infos : Bytes → Result (List ManifestInfo)
  pub marshal : Manifest → Result Bytes

-- The body of an answer with status 200, decoded.
expect_ok {ℓ} : {A : Type ℓ} → Str → (Bytes → Result A) → Reply → Result A
unfolding decimal
expect_ok failed decode (request_error m) = err m
expect_ok failed decode (transport_error m) = err m
expect_ok failed decode (response status body) =
    if status == 200 then decode body else err (failed ++ decimal status)

-- A manifest, or none.
as_found : Result Manifest → Result (Option Manifest)
as_found (err m) = err m
as_found (ok m) = ok (some m)

latest_of : (Bytes → Result Manifest) → Reply → Result (Option Manifest)
unfolding expect_ok as_found decimal
latest_of decode (request_error m) = err m
latest_of decode (transport_error m) = err m
latest_of decode (response status body) =
    if status == 404
    then ok none
    else as_found (expect_ok (codes "failed to get manifest: ") decode (response status body))

module _ (r : Remote) (c : Client) where
  -- No manifest for the tags is no error.
  unfoldable pub get_latest_manifest : Dict Str → Result (Option Manifest)
  unfolding tags_request latest_of
  get_latest_manifest tags =
      latest_of r.decode_manifest (r.answer (tags_request c (codes "/api/manifests/latest") tags))

  unfoldable pub get_manifest : Str → Result Manifest
  unfolding new_request expect_ok
  get_manifest id =
      expect_ok (codes "failed to get manifest: ") r.decode_manifest
        (r.answer (new_request c (codes "GET") (codes "/api/manifests/" ++ id) []))

  unfoldable pub list_manifests : Dict Str → Result (List ManifestInfo)
  unfolding tags_request expect_ok
  list_manifests tags =
      expect_ok (codes "failed to list manifests: ") r.decode_infos
        (r.answer (tags_request c (codes "/api/manifests") tags))

  upload_reply : Reply → Option Str
  unfolding decimal
  upload_reply (request_error m) = some m
  upload_reply (transport_error m) = some m
  upload_reply (response status body) =
      if status == 200 || status == 201
      then none
      else some (codes "manifest upload failed: " ++ (decimal status ++ (codes " - " ++ body)))

  unfoldable pub upload_manifest : Manifest → Option Str
  unfolding new_request upload_reply
  upload_manifest m = elim (r.marshal m) [
    | err msg ↦ some msg
    | ok content ↦
        upload_reply (r.answer (new_request c (codes "POST") (codes "/api/manifests") content))
  ]
