-- ===== src/Session.antt =====
-- A client with a server: the calls for blocks of internal/client/client.go, as requests to the
-- server's router, and the answers as the client reads them.
pub mod Blocks
pub mod Pushed
pub mod Requests
pub mod Restored
use ib.Prelude.{
  ℕ, Str, Bytes, Dict, codes, List, [], ◌∷◌, ◌++◌, Bool, true, false, none, some, Result, ok, err,
  is_empty, decimal, if◌then◌else◌,
}
use ib.Backup.Chunker.{ChunkResult}
use ib.Storage.Object.{S3}
use ib.Storage.Tables.{Env}
use ib.Server.Api.{Response, block_data, status}
use ib.Server.Archive.{Peer}
use ib.Server.Routes.{Method, get_method, post_method, Http, Host, Answer, response, Running, serve}
use ib.Client as Client
use ib.Client.{Reply, Step, done, again, exists_step, upload_step, download_block}
use ib.Client.Manifests.{Client}

-- A client, its address and its connections, and how a body that is no block is written.
pub record Line : Type 0 where
  pub client : Client
  pub ip : Str
  pub peer : Peer
  pub body_of : Answer → Bytes

-- newRequest sets the header if there is a token.
unfoldable pub auth_headers : Str → Dict Str
auth_headers token =
    if is_empty token then [] else (codes "Authorization", codes "Bearer " ++ token) ∷ []

unfoldable pub request : Line → Method → Str → Dict Str → Bytes → Http
unfolding auth_headers
request l method path headers content = record {
  method = method;
  path = path;
  query = [];
  request = record { headers = auth_headers l.client.token ++ headers; client_ip = l.ip };
  body = some content;
  peer = l.peer;
}

-- The request of BlockExists, of UploadBlock and of DownloadBlock.
unfoldable pub exists_request : Line → Str → Http
unfolding request
exists_request l cid =
    request l post_method (codes "/api/blocks/" ++ (cid ++ codes "/exists")) [] []

unfoldable pub upload_request : Line → Str → Bytes → ℕ → Http
unfolding request
upload_request l cid content original_size =
    request l post_method (codes "/api/blocks")
      ((codes "Content-Type", codes "application/octet-stream")
        ∷ (codes "X-Block-CID", cid)
        ∷ (codes "X-Original-Size", decimal original_size)
        ∷ [])
      content

unfoldable pub download_request : Line → Str → Http
unfolding request
download_request l cid = request l get_method (codes "/api/blocks/" ++ cid) [] []

-- What the client gets of an answer.
unfoldable pub reply_of : Line → Answer → Reply
reply_of l (response (block_data content)) = Client.response 200 content
reply_of l (response r) = Client.response (status r) (l.body_of (response r))
reply_of l a = Client.response 200 (l.body_of a)

module _ (S : S3) (host : Host) (l : Line) where
  uploaded : Running S → Step (Unit {0}) → Running S × Result Bool
  uploaded s (done (ok x)) = (s, ok true)
  uploaded s (done (err m)) = (s, err m)
  uploaded s (again m) = (s, err m)

  -- What the server says about the block, and the upload if it does not have it.
  push_next : ℕ → Env → ChunkResult → Running S → Step Bool → Running S × Result Bool
  unfolding reply_of upload_step uploaded
  push_next now e r s (done (ok true)) = (s, ok false)
  push_next now e r s (done (ok false)) =
      let (s', a) = serve S host now e (upload_request l r.cid r.content r.original_size) s in
      uploaded s' (upload_step (reply_of l a))
  push_next now e r s (done (err m)) = (s, err m)
  push_next now e r s (again m) = (s, err m)

  -- A block of a file, at the first attempt; whether it was uploaded.
  unfoldable pub push_block : ℕ → Env → ChunkResult → Running S → Running S × Result Bool
  unfolding reply_of exists_step push_next
  push_block now e r s =
      let (s', a) = serve S host now e (exists_request l r.cid) s in
      push_next now e r s' (exists_step (reply_of l a))

  -- The blocks of a file, up to the first error.
  unfoldable pub push_blocks :
      ℕ → Env → List ChunkResult → Running S → Running S × Result (List Str)
  unfolding push_block
  push_blocks now e [] s = (s, ok [])
  push_blocks now e (r ∷ rs) s =
      let (s1, r1) = push_block now e r s in
      elim r1 [
        | err m ↦ (s1, err m)
        | ok new ↦
            let (s2, r2) = push_blocks now e rs s1 in
            elim r2 [ err m ↦ (s2, err m) | ok cids ↦ (s2, ok (r.cid ∷ cids)) ]
      ]

  -- DownloadBlock, from the server as it is.
  unfoldable pub pull_block : ℕ → Env → Running S → Str → Result Bytes
  unfolding reply_of download_block
  pull_block now e s cid =
      download_block (reply_of l (serve S host now e (download_request l cid) s).1)
