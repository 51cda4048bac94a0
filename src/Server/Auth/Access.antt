-- ===== src/Server/Auth/Access.antt =====
-- Who passes the authentication, and what a failure costs.
use ib.Prelude.{
  ℕ, ◌+◌, ◌≡◌, ◌≢◌, ◌⊎◌, inl, inr, refl, sym, ◌∙◌, Str, codes, [], ◌∷◌, ◌++◌, true, false, arith,
  ltb, take, drop, length, is_empty, str_eq, str_eq_iff, str_eq_refl, take-append-drop, Bool-cases,
  if◌then◌else◌, ◌&&◌, ap, length-drop,
}
use ib.Server.RateLimit.{RateLimiter, Net, Request, is_blocked, get_header, get_real_ip}
use ib.Server.RateLimit.Window.{is_blocked-block_ip}
use ib.Server.Auth.{next, bearer, strip_bearer, auth_middleware}

abbrev pub authorization : Request → Str
authorization r = get_header (codes "Authorization") r

not_empty_of_length : (s : Str) → ltb 0 (length s) ≡ true → is_empty s ≡ false
not_empty_of_length [] h = absurd (ground arith)
not_empty_of_length (x ∷ s) h = refl

long_rest : (token : Str) → ltb 7 (length token) ≡ true → ltb 0 (length (drop 7 token)) ≡ true
long_rest token h = ground (arith, length-drop 7 token)

-- What is compared with the server's token: the header itself, or what follows "Bearer ".
strip_bearer_cases :
    (token : Str)
    → is_empty token ≡ false
    → ((token ≡ strip_bearer token) ⊎ (token ≡ bearer ++ strip_bearer token))
      × (is_empty (strip_bearer token) ≡ false)
unfolding strip_bearer
strip_bearer_cases token full =
    elim (Bool-cases (ltb 7 (length token) && str_eq (take 7 token) bearer)) [
      | inr t ↦ rw t (inl refl, full)
      | inl t ↦ rw t (
        inr (
            sym (take-append-drop 7 token)
            ∙ ap (λ (z : Str). z ++ drop 7 token)
                ((str_eq_iff (take 7 token) bearer).0 (ground (arith, t)))),
        not_empty_of_length (drop 7 token) (long_rest token (ground (arith, t))),
      )
    ]

strip_bearer_lem : (t : Str) → is_empty t ≡ false → strip_bearer (bearer ++ t) ≡ t
unfolding strip_bearer str_eq
strip_bearer_lem [] h = absurd (cc)
strip_bearer_lem (x ∷ t) h = ground arith

module _ (n : Net) (config_token : Str) (now : ℕ) (r : Request) (rl : RateLimiter) where
  -- A request passes only if its address is not blocked and its Authorization header is the
  -- server's token, alone or behind "Bearer ". So a server with an empty token lets nobody pass.
  -- A request that passes leaves the limiter as it was.
  pub auth_middleware_next :
      (auth_middleware n config_token now r rl).1 ≡ next
      → (is_blocked now (get_real_ip n r) rl ≡ false)
        × ((authorization r ≡ config_token) ⊎ (authorization r ≡ bearer ++ config_token))
        × (is_empty config_token ≡ false)
        × ((auth_middleware n config_token now r rl).0 ≡ rl)
  unfolding auth_middleware
  auth_middleware_next h =
      let token : Str = authorization r in
      elim (Bool-cases (is_empty token)) [
        | inl t ↦ absurd (ground (arith, t))
        | inr t ↦
            let (shape, full) = strip_bearer_cases token t in
            let same : strip_bearer token ≡ config_token =
              ground (arith, t, str_eq_iff (strip_bearer token) config_token) in
            (ground arith, rw same at shape, rw same at full, ground (arith, t))
      ]

  -- A request from an address that is not blocked, with "Bearer " and the server's token, which is
  -- not empty, passes.
  pub auth_middleware_admits :
      is_blocked now (get_real_ip n r) rl ≡ false
      → authorization r ≡ bearer ++ config_token
      → is_empty config_token ≡ false
      → auth_middleware n config_token now r rl ≡ (rl, next)
  unfolding auth_middleware
  auth_middleware_admits h e full =
      ground (arith, strip_bearer_lem config_token full, str_eq_refl config_token)

  -- A request from an address that is not blocked, which does not pass, blocks this address from
  -- now on for the limiter's period, and leaves the other addresses as they were.
  pub auth_middleware_blocks :
      (t : ℕ) (j : Str)
      → is_blocked now (get_real_ip n r) rl ≡ false
      → (auth_middleware n config_token now r rl).1 ≢ next
      → is_blocked t j (auth_middleware n config_token now r rl).0
        ≡ (if str_eq j (get_real_ip n r) then ltb t (now + rl.block_period) else is_blocked t j rl)
  unfolding auth_middleware
  auth_middleware_blocks t j h k = ground (arith, is_blocked-block_ip now t (get_real_ip n r) j rl)
