-- ===== src/Server/RateLimit/Window.antt =====
-- How long an address stays blocked.
use ib.Prelude.{
  ℕ, ◌+◌, ◌≤◌, ◌≡◌, Str, not, arith, lookup-insert, ltb, str_eq, NodupKeys, lookup-filter,
  if◌then◌else◌,
}
use ib.Server.RateLimit.{RateLimiter, is_blocked, block_ip, cleanup}

-- After BlockIP an address is blocked until the period is over, and no longer. Other addresses are
-- blocked as they were.
pub is_blocked-block_ip :
    (now t : ℕ) (ip j : Str) (rl : RateLimiter)
    → is_blocked t j (block_ip now ip rl)
      ≡ (if str_eq j ip then ltb t (now + rl.block_period) else is_blocked t j rl)
unfolding is_blocked block_ip
is_blocked-block_ip now t ip j rl =
    ground (arith, lookup-insert j ip (now + rl.block_period) rl.blocked_ips)

-- The cleanup goroutine changes no answer of IsBlocked, from the time of its tick on.
pub is_blocked-cleanup :
    (now t : ℕ) (ip : Str) (rl : RateLimiter)
    → NodupKeys rl.blocked_ips
    → now ≤ t
    → is_blocked t ip (cleanup now rl) ≡ is_blocked t ip rl
unfolding is_blocked cleanup
is_blocked-cleanup now t ip rl h k =
    ground (arith, lookup-filter (λ until. not (ltb until now)) ip rl.blocked_ips h)
