-- ===== src/Server/RateLimit.antt =====
-- internal/server/ratelimit.go: blocked addresses, and the address that a request is counted under.
pub mod Window
use ib.Prelude.{
  ℕ, ◌+◌, Str, Dict, codes, List, [], ◌∷◌, Bool, true, false, not, ◌&&◌, Option, none, some, lookup,
  insert, filter, ltb, is_empty, split, trim_space, if◌then◌else◌,
}

-- Times and the period in nanoseconds.
pub record RateLimiter : Type 0 where
  pub blocked_ips : Dict ℕ
  pub block_period : ℕ

unfoldable pub new_rate_limiter : ℕ → RateLimiter
new_rate_limiter period = record { blocked_ips = []; block_period = period }

unfoldable pub is_blocked : ℕ → Str → RateLimiter → Bool
is_blocked now ip rl = elim (lookup ip rl.blocked_ips) [ none ↦ false | some until ↦ ltb now until ]

unfoldable pub block_ip : ℕ → Str → RateLimiter → RateLimiter
block_ip now ip rl = record rl { blocked_ips = insert ip (now + rl.block_period) rl.blocked_ips }

-- One tick of the cleanup goroutine.
unfoldable pub cleanup : ℕ → RateLimiter → RateLimiter
cleanup now rl = record rl {
  blocked_ips = filter (λ (ip, until). not (ltb until now)) rl.blocked_ips;
}

-- net.SplitHostPort (the host, `none` on an error) and net.ParseIP with the text of its result.
pub record Net : Type 0 where
  pub split_host_port : Str → Option Str
  pub canonical : Str → Option Str

-- A request's headers by their canonical names, and gin's ClientIP.
pub record Request : Type 0 where
  pub headers : Dict Str
  pub client_ip : Str

-- c.GetHeader: "" for a header that is not there.
unfoldable pub get_header : Str → Request → Str
get_header name r = elim (lookup name r.headers) [ none ↦ [] | some v ↦ v ]

module _ (n : Net) where
  host_of : Str → Str
  host_of ip = elim (n.split_host_port ip) [ some host ↦ host | none ↦ ip ]

  unfoldable pub parse_ip : Str → Str
  unfolding host_of
  parse_ip text =
      let ip = trim_space text in
      if is_empty ip then [] else elim (n.canonical (host_of ip)) [ none ↦ [] | some out ↦ out ]

  -- The address of one header if it has one, and otherwise the next choice.
  from_header : Str → Str → Str
  unfolding parse_ip
  from_header ip next =
      let parsed = parse_ip ip in
      if not (is_empty ip) && not (is_empty parsed) then parsed else next

  first_part : List Str → Str
  first_part [] = []
  first_part (p ∷ ps) = trim_space p

  from_forwarded : Str → Str → Str
  unfolding first_part parse_ip
  from_forwarded xff next =
      let parsed = parse_ip (first_part (split b',' xff)) in
      if not (is_empty xff) && not (is_empty parsed) then parsed else next

  unfoldable pub get_real_ip : Request → Str
  unfolding from_header from_forwarded parse_ip get_header
  get_real_ip r = from_header (get_header (codes "CF-Connecting-IP") r) (
      from_header (get_header (codes "True-Client-IP") r) (
        from_header (get_header (codes "X-Real-IP") r)
          (from_forwarded (get_header (codes "X-Forwarded-For") r) (parse_ip r.client_ip))))
