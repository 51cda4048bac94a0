-- ===== src/Session/Requests.antt =====
-- How the server answers the client's requests for blocks.
use ib.Prelude.{
  ℕ, ◌≡◌, refl, ◌∙◌, ap, ap₂, Str, Bytes, Dict, codes, [], ◌∷◌, ◌++◌, true, false, none, some,
  is_empty, decimal, lookup, str_eq, map, arith,
}
use ib.Storage.Object.{S3}
use ib.Storage.Tables.{Env}
use ib.Server.RateLimit.{Net, is_blocked, parse_ip, get_real_ip, get_header}
use ib.Server.Auth.{next, bearer, auth_middleware}
use ib.Server.Auth.Access.{auth_middleware_admits}
use ib.Server.Api.{handle_block_exists, handle_upload_block, handle_get_block}
use ib.Server.Routes.{
  get_method, post_method, Route, setup_routes, Http, Host, response, Running, handle, call,
  route_at, param, serve,
}
use ib.Session.{Line, auth_headers, exists_request, upload_request, download_request}

-- The requests for a block go to their routes.
pub record IsRouted (host : Host) (cid : Str) : Type 0 where
  pub to_exists :
      host.gin.find_route post_method
        (codes "/api/blocks/" ++ (cid ++ codes "/exists"))
        (map (λ (r : Route). (r.method, r.pattern)) setup_routes)
      ≡ some (12, (codes "cid", cid) ∷ [])
  pub to_upload :
      host.gin.find_route post_method
        (codes "/api/blocks")
        (map (λ (r : Route). (r.method, r.pattern)) setup_routes)
      ≡ some (13, [])
  pub to_download :
      host.gin.find_route get_method
        (codes "/api/blocks/" ++ cid)
        (map (λ (r : Route). (r.method, r.pattern)) setup_routes)
      ≡ some (5, (codes "cid", cid) ∷ [])

-- The client has the server's token, and its address is not blocked.
pub record IsAdmitted (S : S3) (host : Host) (l : Line) (now : ℕ) (s : Running S) : Type 0 where
  pub token : l.client.token ≡ host.token
  pub full : is_empty host.token ≡ false
  pub free : is_blocked now (parse_ip host.net l.ip) s.limiter ≡ false

-- Headers that say nothing of the client's address.
abbrev IsPlain : Dict Str → Type 0
IsPlain hs =
    (lookup (codes "CF-Connecting-IP") hs ≡ none)
    × (lookup (codes "True-Client-IP") hs ≡ none)
    × (lookup (codes "X-Real-IP") hs ≡ none)
    × (lookup (codes "X-Forwarded-For") hs ≡ none)

address :
    (n : Net) (ip : Str) (hs : Dict Str)
    → IsPlain hs
    → get_real_ip n (record { headers = hs; client_ip = ip }) ≡ parse_ip n ip
unfolding get_real_ip
address n ip hs (a, b, c, d) = ground (arith, a, b, c, d)

auth_headers_full :
    (token : Str)
    → is_empty token ≡ false
    → auth_headers token ≡ (codes "Authorization", bearer ++ token) ∷ []
unfolding auth_headers
auth_headers_full token full = ground (arith, full)

module _ (S : S3) (host : Host) (l : Line) (now : ℕ) (s : Running S)
    (A : IsAdmitted S host l now s) where
  full_token : is_empty l.client.token ≡ false
  full_token = ap is_empty A.token ∙ A.full

  authorized :
      (hs : Dict Str)
      → get_header
          (codes "Authorization")
          (record { headers = auth_headers l.client.token ++ hs; client_ip = l.ip })
        ≡ bearer ++ host.token
  unfolding get_header lookup str_eq
  authorized hs = rw (auth_headers_full l.client.token full_token) (ap (λ t. bearer ++ t) A.token)

  passes :
      (hs : Dict Str)
      → IsPlain (auth_headers l.client.token ++ hs)
      → auth_middleware host.net host.token now
          (record { headers = auth_headers l.client.token ++ hs; client_ip = l.ip })
          s.limiter
        ≡ (s.limiter, next)
  passes hs plain =
      auth_middleware_admits host.net host.token now
        (record { headers = auth_headers l.client.token ++ hs; client_ip = l.ip }) s.limiter
        (ap (λ ip. is_blocked now ip s.limiter) (address host.net l.ip _ plain) ∙ A.free)
        (authorized hs) A.full

  serve_guarded :
      (e : Env) (q : Http) (n : ℕ) (ps : Dict Str) (r : Route)
      → host.gin.find_route q.method q.path (map (λ r. (r.method, r.pattern)) setup_routes)
        ≡ some (n, ps)
      → route_at n setup_routes ≡ some r
      → r.guarded ≡ true
      → auth_middleware host.net host.token now q.request s.limiter ≡ (s.limiter, next)
      → serve S host now e q s ≡ call S host r.handler e q ps s
  unfolding serve
  serve_guarded e q n ps r found at guarded pass = ground (arith, found, at, guarded, pass)

  -- BlockExists is answered by the handler.
  pub serve_exists :
      (e : Env) (cid : Str)
      → IsRouted host cid
      → serve S host now e (exists_request l cid) s
        ≡ (s, response (handle_block_exists S e cid s.server))
  unfolding exists_request call param lookup str_eq route_at
  serve_exists e cid R =
      serve_guarded e (exists_request l cid) 12 ((codes "cid", cid) ∷ []) _ R.to_exists refl refl
        (passes [] (rw (auth_headers_full l.client.token full_token) (refl, refl, refl, refl)))

  -- UploadBlock is answered by the handler.
  pub serve_upload :
      (e : Env) (cid : Str) (content : Bytes) (size : ℕ)
      → IsRouted host cid
      → serve S host now e (upload_request l cid content size) s ≡ (
        record s {
          server =
              (handle_upload_block S host.formats e cid (decimal size) (some content) s.server).0;
        },
        response
            (handle_upload_block S host.formats e cid (decimal size) (some content) s.server).1,
      )
  unfolding upload_request call get_header lookup str_eq route_at
  serve_upload e cid content size R =
      serve_guarded e (upload_request l cid content size) 13 [] _ R.to_upload refl refl
        (passes _ (rw (auth_headers_full l.client.token full_token) (refl, refl, refl, refl)))
      ∙ ap₂
          (λ (c n : Str). (
            record s {
              server = (handle_upload_block S host.formats e c n (some content) s.server).0;
            },
            response (handle_upload_block S host.formats e c n (some content) s.server).1,
          ))
          {x = get_header (codes "X-Block-CID") (upload_request l cid content size).request}
          (rw (auth_headers_full l.client.token full_token) refl)
          (rw (auth_headers_full l.client.token full_token) refl)

-- DownloadBlock needs no token.
pub serve_download :
    (S : S3) (host : Host) (l : Line) (now : ℕ) (s : Running S) (e : Env) (cid : Str)
    → IsRouted host cid
    → (serve S host now e (download_request l cid) s).1
      ≡ response (handle_get_block S e cid s.server).1
unfolding serve download_request handle call param lookup str_eq route_at
serve_download S host l now s e cid R = ground (arith, R.to_download)
