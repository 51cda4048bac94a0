-- ===== src/Server/Auth.antt =====
-- authMiddleware of internal/server/server.go.
pub mod Access
use ib.Prelude.{
  ℕ, Str, codes, List, [], ◌∷◌, ◌++◌, Bool, true, false, ◌&&◌, length, ltb, take, drop, is_empty,
  str_eq, not, if◌then◌else◌,
}
use ib.Server.RateLimit.{RateLimiter, Net, Request, is_blocked, block_ip, get_header, get_real_ip}

-- c.Next, or an answer and c.Abort.
pub data Verdict : Type 0 where
  next : Verdict
  too_many_requests : Verdict
  missing_header : Verdict
  invalid_token : Verdict

abbrev pub bearer : Str
bearer = codes "Bearer "

-- `token[:len(prefix)] == prefix`, where something follows it.
unfoldable pub strip_bearer : Str → Str
strip_bearer token =
    if ltb (length bearer) (length token) && str_eq (take (length bearer) token) bearer
    then drop (length bearer) token
    else token

unfoldable pub auth_middleware : Net → Str → ℕ → Request → RateLimiter → RateLimiter × Verdict
auth_middleware n config_token now r rl =
    let ip = get_real_ip n r in
    let token = get_header (codes "Authorization") r in
    if is_blocked now ip rl
    then (rl, too_many_requests)
    else if is_empty token
    then (block_ip now ip rl, missing_header)
    else if not (str_eq (strip_bearer token) config_token)
    then (block_ip now ip rl, invalid_token)
    else (rl, next)
