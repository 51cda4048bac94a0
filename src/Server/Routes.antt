-- ===== src/Server/Routes.antt =====
-- setupRoutes, the middleware in front of the handlers, handleHealth and handleConfig of
-- internal/server/server.go.
pub mod Guard
use ib.Prelude.{
  ℕ, zero, suc, Str, Bytes, Dict, codes, List, [], ◌∷◌, ◌++◌, Bool, true, false, Option, none, some,
  lookup, map, if◌then◌else◌,
}
use ib.Backup.Manifest.{Manifest}
use ib.Backup.Codec.{Codec}
use ib.Storage.Object.{S3}
use ib.Storage.Tables.{Env}
use ib.Ipfs.Dag.{Cids}
use ib.Server.RateLimit.{RateLimiter, Net, Request, get_header}
use ib.Server.Auth.{
  Verdict, next, too_many_requests, missing_header, invalid_token, auth_middleware,
}
use ib.Server.Api.{
  Formats, Server, Response, failed, handle_list_manifests, handle_get_manifest,
  handle_get_latest_manifest, handle_create_manifest, handle_delete_manifest, handle_get_block,
  handle_block_exists, handle_upload_block,
}
use ib.Server.Archive.{
  Peer, Download, handle_download, handle_download_file, handle_download_folder,
}
use ib.Server.Static.{handle_static_files, handle_cli_download}

pub data Handler : Type 0 where
  health show_config list_all get_one get_latest get_blob : Handler
  download_file download_folder download cli : Handler
  create_manifest delete_manifest block_exists upload_block : Handler
  static_files : Handler

pub data Method : Type 0 where
  get_method post_method delete_method : Method
  other_method : Str → Method

-- What is registered at the router; `guarded` by the group with authMiddleware.
pub record Route : Type 0 where
  pub method : Method
  pub pattern : Str
  pub guarded : Bool
  pub handler : Handler

abbrev open_get : Str → Handler → Route
open_get p h = record { method = get_method; pattern = p; guarded = false; handler = h }

-- A route of the group "/api" with the middleware.
abbrev protect : Method → Str → Handler → Route
protect m p h = record { method = m; pattern = codes "/api" ++ p; guarded = true; handler = h }

abbrev pub setup_routes : List Route
setup_routes =
    open_get (codes "/api/health") health
    ∷ open_get (codes "/api/config") show_config
    ∷ open_get (codes "/api/manifests") list_all
    ∷ open_get (codes "/api/manifests/:id") get_one
    ∷ open_get (codes "/api/manifests/latest") get_latest
    ∷ open_get (codes "/api/blocks/:cid") get_blob
    ∷ open_get (codes "/api/download/:manifest_id/file/*path") download_file
    ∷ open_get (codes "/api/download/:manifest_id/folder/*path") download_folder
    ∷ open_get (codes "/api/download/:manifest_id") download
    ∷ open_get (codes "/cli/:os/:arch") cli
    ∷ protect post_method (codes "/manifests") create_manifest
    ∷ protect delete_method (codes "/manifests/:id") delete_manifest
    ∷ protect post_method (codes "/blocks/:cid/exists") block_exists
    ∷ protect post_method (codes "/blocks") upload_block
    ∷ []

-- A request. `body` is none where it cannot be read.
pub record Http : Type 0 where
  pub method : Method
  pub path : Str
  pub query : List (Str × List Str)
  pub request : Request
  pub body : Option Bytes
  pub peer : Peer

-- gin: the position of the route that a request goes to, with the path's parameters, among the
-- methods and patterns; `none` where no route is for it. And the manifest that ShouldBindJSON gives.
pub record Gin : Type 0 where
  pub find_route : Method → Str → List (Method × Str) → Option (ℕ × Dict Str)
  pub bind_json : Option Bytes → Option Manifest

-- What a Server holds and calls. The clock of the limiter is in nanoseconds, that of the storage
-- in `Env`.
pub record Host : Type 0 where
  pub codec : Codec
  pub formats : Formats
  pub cids : Cids
  pub gin : Gin
  pub net : Net
  pub token : Str
  pub title : Str
  pub frontend_fs : Str → Option Bytes
  pub client_binaries : Str → Option Bytes

pub data Answer : Type 0 where
  response : Response → Answer
  archive : Download → Answer
  healthy : Answer
  titled : Str → Answer

-- c.Param: "" for a parameter that the pattern does not have.
unfoldable pub param : Str → Dict Str → Str
param name ps = elim (lookup name ps) [ none ↦ [] | some v ↦ v ]

unfoldable pub route_at : ℕ → List Route → Option Route
route_at n [] = none
route_at zero (r ∷ rs) = some r
route_at (suc n) (r ∷ rs) = route_at n rs

module _ (S : S3) (host : Host) where
  abbrev pub with_response : Server S × Response → Server S × Answer
  with_response (s, r) = (s, response r)

  abbrev pub with_archive : Server S × Download → Server S × Answer
  with_archive (s, d) = (s, archive d)

  unfoldable pub handle : Handler → Env → Http → Dict Str → Server S → Server S × Answer
  unfolding handle_list_manifests handle_get_manifest handle_get_latest_manifest handle_get_block
      handle_download_file handle_download_folder handle_download handle_cli_download
      handle_create_manifest handle_delete_manifest handle_block_exists handle_upload_block
      handle_static_files get_header param
  handle health e q ps s = (s, healthy)
  handle show_config e q ps s = (s, titled host.title)
  handle list_all e q ps s = (s, response (handle_list_manifests S e q.query s))
  handle get_one e q ps s =
      (s, response (handle_get_manifest S host.codec host.formats e (param (codes "id") ps) s))
  handle get_latest e q ps s =
      (s, response (handle_get_latest_manifest S host.codec host.formats e q.query s))
  handle get_blob e q ps s = with_response (handle_get_block S e (param (codes "cid") ps) s)
  handle download_file e q ps s = with_archive (
      handle_download_file S host.codec host.formats e q.peer (param (codes "manifest_id") ps)
        (param (codes "path") ps) s)
  handle download_folder e q ps s = (
    s,
    archive (
        handle_download_folder S host.codec host.formats e q.peer (param (codes "manifest_id") ps)
          (param (codes "path") ps) s.storage),
  )
  handle download e q ps s = (
    s,
    archive (
        handle_download S host.codec host.formats e q.peer (param (codes "manifest_id") ps)
          s.storage),
  )
  handle cli e q ps s = (
    s,
    response (
        handle_cli_download host.client_binaries (param (codes "os") ps) (param (codes "arch") ps)),
  )
  handle create_manifest e q ps s =
      with_response
        (handle_create_manifest S host.codec host.formats host.cids e (host.gin.bind_json q.body) s)
  handle delete_manifest e q ps s =
      with_response (handle_delete_manifest S e (param (codes "id") ps) s)
  handle block_exists e q ps s = (s, response (handle_block_exists S e (param (codes "cid") ps) s))
  handle upload_block e q ps s = with_response (
      handle_upload_block S host.formats e (get_header (codes "X-Block-CID") q.request)
        (get_header (codes "X-Original-Size") q.request) q.body s)
  handle static_files e q ps s = (s, response (handle_static_files host.frontend_fs q.path))

-- The state between two requests.
pub record Running (S : S3) : Type 0 where
  pub server : Server S
  pub limiter : RateLimiter

module _ (S : S3) (host : Host) where
  unfoldable pub call : Handler → Env → Http → Dict Str → Running S → Running S × Answer
  unfolding handle
  call h e q ps s =
      let (server, a) = handle S host h e q ps s.server in (record s { server = server }, a)

  -- c.Next only where the middleware lets the request pass.
  pub guard : Verdict → Handler → Env → Http → Dict Str → Running S → Running S × Answer
  unfolding call
  guard next h e q ps s = call h e q ps s
  guard too_many_requests h e q ps s =
      (s, response (failed 429 (codes "too many failed attempts, try again later")))
  guard missing_header h e q ps s =
      (s, response (failed 401 (codes "missing authorization header")))
  guard invalid_token h e q ps s = (s, response (failed 401 (codes "invalid token")))

  -- authMiddleware in front of a handler.
  pub protected_call : ℕ → Handler → Env → Http → Dict Str → Running S → Running S × Answer
  unfolding auth_middleware guard
  protected_call now h e q ps s =
      let (limiter, v) = auth_middleware host.net host.token now q.request s.limiter in
      guard v h e q ps (record s { limiter = limiter })

  pub dispatch : Option Route → ℕ → Env → Http → Dict Str → Running S → Running S × Answer
  unfolding protected_call call
  dispatch none now e q ps s = call static_files e q ps s
  dispatch (some r) now e q ps s =
      if r.guarded then protected_call now r.handler e q ps s else call r.handler e q ps s

  -- One request, at a time of the limiter's clock.
  unfoldable pub serve : ℕ → Env → Http → Running S → Running S × Answer
  unfolding dispatch route_at
  serve now e q s =
      elim (host.gin.find_route q.method q.path (map (λ r. (r.method, r.pattern)) setup_routes)) [
        | none ↦ dispatch none now e q [] s
        | some (n, ps) ↦ dispatch (route_at n setup_routes) now e q ps s
      ]
