-- ===== src/Tests/Asking.antt =====
-- The client's requests.
use ib.Prelude.{◌≡◌, ◌≤◌, refl, [], true, ltb, if◌then◌else◌, none, ok, All, arith}
use ib.Client.{Network, response, exists_step, block_exists, upload_block}
use ib.Client.Attempts.{IsBounded, IsRandom, sends, requests-IsBounded, block_exists_decided}

-- The first two answers are 503, the next is 200.
abbrev busy : Network
busy = record {
  reply = λ n. if ltb n 2 then response 503 [] else response 200 [];
  cancelled = λ n. none;
  jitter = λ n m. 0;
}

busy-IsRandom : IsRandom busy
busy-IsRandom a m h = h

requests-IsBounded_example :
    (All IsBounded (block_exists busy).0 × (sends (block_exists busy).0 ≤ 5))
    × (All IsBounded (upload_block busy).0 × (sends (upload_block busy).0 ≤ 5))
requests-IsBounded_example = requests-IsBounded busy busy-IsRandom

block_exists_decided_example : (block_exists busy).1 ≡ ok true
unfolding exists_step
block_exists_decided_example =
    block_exists_decided busy 2 (ok true) (omega arith) ((_, refl), refl, ((_, refl), refl, tt))
      refl
