-- ===== src/Server/Routes/Guard.antt =====
-- Which requests can change what the server stores.
use ib.Prelude.{
  ℕ, zero, suc, ◌≡◌, ◌⊎◌, inl, inr, refl, Str, Dict, List, [], ◌∷◌, ◌++◌, Bool, true, false, ◌||◌,
  ◌&&◌, Option, none, some, map, is_empty, arith, Option-cases, Bool-cases,
}
use ib.Storage.Object.{S3}
use ib.Storage.Tables.{Env}
use ib.Server.RateLimit.{is_blocked, get_real_ip}
use ib.Server.Auth.{
  Verdict, next, too_many_requests, missing_header, invalid_token, bearer, auth_middleware,
}
use ib.Server.Auth.Access.{authorization, auth_middleware_next}
use ib.Server.Api.{Server, handle_get_block}
use ib.Server.Archive.{handle_download_file}
use ib.Server.Routes.{
  Handler, health, show_config, list_all, get_one, get_latest, get_blob, download_file,
  download_folder, download, cli, block_exists, static_files, create_manifest, delete_manifest,
  upload_block, Route, setup_routes, Http, Host, Running, handle, call, guard, protected_call,
  dispatch, route_at, serve,
}

-- Handlers that only read.
abbrev reads : Handler → Bool
reads create_manifest = false
reads delete_manifest = false
reads upload_block = false
reads _ = true

all_sound : List Route → Bool
all_sound [] = true
all_sound (r ∷ rs) = (r.guarded || reads r.handler) && all_sound rs

route_at_sound :
    (n : ℕ) (rs : List Route) (r : Route)
    → all_sound rs ≡ true
    → route_at n rs ≡ some r
    → (r.guarded || reads r.handler) ≡ true
unfolding all_sound route_at
route_at_sound n [] r h k = absurd (ground (arith, k))
route_at_sound zero (r' ∷ rs) r h k = ground (arith, k)
route_at_sound (suc n) (r' ∷ rs) r h k = route_at_sound n rs r (ground (arith, h)) k

module _ (S : S3) (host : Host) where
  -- What is stored, and what is announced.
  abbrev pub SameContents : Running S → Running S → Type 0
  SameContents s s' =
      (s'.server.storage ≡ s.server.storage) × (s'.server.root_cids ≡ s.server.root_cids)

  handle_reads :
      (h : Handler) (e : Env) (q : Http) (ps : Dict Str) (s : Server S)
      → reads h ≡ true
      → ((handle S host h e q ps s).0.storage ≡ s.storage)
        × ((handle S host h e q ps s).0.root_cids ≡ s.root_cids)
  unfolding handle handle_get_block handle_download_file
  handle_reads get_blob e q ps s k = ground arith
  handle_reads download_file e q ps s k = (refl, refl)
  handle_reads create_manifest e q ps s k = absurd (cc)
  handle_reads delete_manifest e q ps s k = absurd (cc)
  handle_reads upload_block e q ps s k = absurd (cc)
  handle_reads health e q ps s k = (refl, refl)
  handle_reads show_config e q ps s k = (refl, refl)
  handle_reads list_all e q ps s k = (refl, refl)
  handle_reads get_one e q ps s k = (refl, refl)
  handle_reads get_latest e q ps s k = (refl, refl)
  handle_reads download_folder e q ps s k = (refl, refl)
  handle_reads download e q ps s k = (refl, refl)
  handle_reads cli e q ps s k = (refl, refl)
  handle_reads block_exists e q ps s k = (refl, refl)
  handle_reads static_files e q ps s k = (refl, refl)

  -- The request's address is not blocked, and it has the server's token, which is not empty.
  abbrev pub IsAuthorized : ℕ → Http → Running S → Type 0
  IsAuthorized now q s =
      (is_blocked now (get_real_ip host.net q.request) s.limiter ≡ false)
      × ((authorization q.request ≡ host.token) ⊎ (authorization q.request ≡ bearer ++ host.token))
      × (is_empty host.token ≡ false)

  guard_stops :
      (v : Verdict) (h : Handler) (e : Env) (q : Http) (ps : Dict Str) (s : Running S)
      → SameContents s (guard S host v h e q ps s).0 ⊎ (v ≡ next)
  unfolding guard
  guard_stops next h e q ps s = inr refl
  guard_stops too_many_requests h e q ps s = inl (refl, refl)
  guard_stops missing_header h e q ps s = inl (refl, refl)
  guard_stops invalid_token h e q ps s = inl (refl, refl)

  protected_call-IsAuthorized :
      (now : ℕ) (h : Handler) (e : Env) (q : Http) (ps : Dict Str) (s : Running S)
      → SameContents s (protected_call S host now h e q ps s).0 ⊎ IsAuthorized now q s
  unfolding protected_call
  protected_call-IsAuthorized now h e q ps s =
      let (limiter, v) = auth_middleware host.net host.token now q.request s.limiter in
      elim (guard_stops v h e q ps (record s { limiter = limiter })) [
        | inl same ↦ inl same
        | inr passed ↦
            let (p0, p1, p2, p3) =
              auth_middleware_next host.net host.token now q.request s.limiter passed in
            inr (p0, p1, p2)
      ]

  call_reads :
      (h : Handler) (e : Env) (q : Http) (ps : Dict Str) (s : Running S)
      → reads h ≡ true
      → SameContents s (call S host h e q ps s).0
  unfolding call
  call_reads h e q ps s k = handle_reads h e q ps s.server k

  dispatch-IsAuthorized :
      (r : Option Route) (now : ℕ) (e : Env) (q : Http) (ps : Dict Str) (s : Running S)
      → ((r' : Route) → r ≡ some r' → (r'.guarded || reads r'.handler) ≡ true)
      → SameContents s (dispatch S host r now e q ps s).0 ⊎ IsAuthorized now q s
  unfolding dispatch
  dispatch-IsAuthorized none now e q ps s sound = inl (call_reads static_files e q ps s refl)
  dispatch-IsAuthorized (some r) now e q ps s sound = elim (Bool-cases r.guarded) [
    | inl t ↦ rw t (protected_call-IsAuthorized now r.handler e q ps s)
    | inr f ↦ rw f (inl (call_reads r.handler e q ps s (ground (arith, f, sound r refl))))
  ]

  -- Whatever gin's router answers, and whatever the database and S3 do, one request leaves the
  -- storage and the announced roots as they are, or its address is not blocked and its
  -- Authorization header is the server's token, alone or behind "Bearer ", and not empty.
  pub serve-IsAuthorized :
      (now : ℕ) (e : Env) (q : Http) (s : Running S)
      → SameContents s (serve S host now e q s).0 ⊎ IsAuthorized now q s
  unfolding serve all_sound
  serve-IsAuthorized now e q s =
      elim (Option-cases
        (host.gin.find_route q.method q.path (map (λ r. (r.method, r.pattern)) setup_routes))) [
          | inl p ↦ rw (p, serve) (dispatch-IsAuthorized none now e q [] s (λ r' k. absurd (cc)))
          | inr ((n, ps), p) ↦
              rw (p, serve)
                (dispatch-IsAuthorized (route_at n setup_routes) now e q ps s
                  (λ r' k. route_at_sound n setup_routes r' refl k))
        ]
