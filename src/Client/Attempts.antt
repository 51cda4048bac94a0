-- ===== src/Client/Attempts.antt =====
-- How often the client tries, how long it waits, and which reply decides.
use ib.Prelude.{
  ℕ, zero, suc, ◌+◌, ◌-◌, ◌*◌, ◌/◌, ◌^◌, ◌≤◌, ◌<◌, ◌≡◌, refl, Str, List, [], ◌∷◌, ◌++◌, Bool, none,
  Result, ltb, All, All-append, arith, if◌then◌else◌, ◌⊎◌, Option-cases, Bool-cases, inl, inr,
}
use native.Mathlib.Nat.{pow-suc}
use ib.Client.{
  Network, Reply, Event, wait, send, Step, done, again, attempts, retry_delay, max_retry_delay,
  base_retry_delay, exists_step, upload_step, block_exists, upload_block,
}

abbrev pub sends : List Event → ℕ
sends [] = 0
sends (wait d ∷ es) = sends es
sends (send a ∷ es) = suc (sends es)

-- A wait is at least half a second and shorter than thirty seconds.
abbrev pub IsBounded : Event → Type 0
IsBounded (wait d) = (500_000_000 ≤ d) × (d < max_retry_delay)
IsBounded (send a) = Unit

sends-append : (xs ys : List Event) → sends (xs ++ ys) ≡ sends xs + sends ys
sends-append [] ys = omega arith
sends-append (wait d ∷ xs) ys = sends-append xs ys
sends-append (send a ∷ xs) ys = omega (arith, sends-append xs ys)

-- rand.Int63n(m) for a positive m.
abbrev pub IsRandom : Network → Type 0
IsRandom n = (a m : ℕ) → 0 < m → n.jitter a m < m

delay_IsBounded :
    (j d : ℕ) → 1_000_000_000 ≤ d → d ≤ max_retry_delay → j < d / 2 → IsBounded (wait (d / 2 + j))
delay_IsBounded j d lo hi h = omega arith

two_pow_pos : (a : ℕ) → 1 ≤ 2 ^ a
two_pow_pos zero = omega arith
two_pow_pos (suc a) = omega (arith, two_pow_pos a, pow-suc 2 a)

retry_delay-IsBounded : (n : Network) (a : ℕ) → IsRandom n → IsBounded (wait (retry_delay n a))
unfolding retry_delay
retry_delay-IsBounded n a h =
    let doubled : ℕ = base_retry_delay * 2 ^ a in
    let delay : ℕ = if ltb max_retry_delay doubled then max_retry_delay else doubled in
    let low : 1_000_000_000 ≤ delay = ground (arith, two_pow_pos a) in
    delay_IsBounded (n.jitter a (delay / 2)) delay low (ground arith)
      (h a (delay / 2) (omega (arith, low)))

Step-cases {ℓ} :
    {A : Type ℓ} (s : Step A) → ((r : Result A) × (s ≡ done r)) ⊎ ((m : Str) × (s ≡ again m))
Step-cases (done r) = inl (r, refl)
Step-cases (again m) = inr (m, refl)

abbrev waited : Network → ℕ → List Event → List Event
waited n attempt events =
    if ltb 0 attempt then events ++ (wait (retry_delay n (attempt - 1)) ∷ []) else events

waited-IsBounded :
    (n : Network) (attempt : ℕ) (events : List Event)
    → IsRandom n
    → All IsBounded events
    → All IsBounded (waited n attempt events) × (sends (waited n attempt events) ≡ sends events)
waited-IsBounded n attempt events r h = elim (Bool-cases (ltb 0 attempt)) [
  | inr t ↦ rw t (h, refl)
  | inl t ↦ rw t (
    All-append IsBounded events (wait (retry_delay n (attempt - 1)) ∷ []) h
        (retry_delay-IsBounded n (attempt - 1) r, tt),
    omega (arith, sends-append events (wait (retry_delay n (attempt - 1)) ∷ [])),
  )
]

module _ {ℓ} {A : Type ℓ} (n : Network) (step : Reply → Step A) where
  attempts-IsBounded :
      (left attempt : ℕ) (last : Str) (events : List Event)
      → IsRandom n
      → All IsBounded events
      → All IsBounded (attempts n step left attempt last events).0
        × (sends (attempts n step left attempt last events).0 ≤ sends events + left)
  unfolding attempts
  attempts-IsBounded zero attempt last events r h = (h, omega arith)
  attempts-IsBounded (suc left) attempt last events r h =
      let before : List Event = waited n attempt events in
      let (ok_before, count) = waited-IsBounded n attempt events r h in
      let after : List Event = before ++ (send attempt ∷ []) in
      let ok_after : All IsBounded after =
        All-append IsBounded before (send attempt ∷ []) ok_before (tt, tt) in
      let one : sends after ≡ sends events + 1 =
        omega (arith, count, sends-append before (send attempt ∷ [])) in
      elim (Option-cases (if ltb 0 attempt then n.cancelled attempt else none)) [
        | inr (m, p) ↦ rw (p, attempts) (ok_before, omega (arith, count))
        | inl p ↦ elim (Step-cases (step (n.reply attempt))) [
          | inl (x, q) ↦ rw (p, attempts) (rw q (ok_after, omega (arith, one)))
          | inr (m, q) ↦
              rw (p, attempts)
                (rw q (
                  let (all, few) = attempts-IsBounded left (attempt + 1) m after r ok_after in
                  (all, omega (arith, few, one))))
        ]
      ]

  -- The attempts from this one on, up to the one that is `k` later, are tried again.
  abbrev pub Retried : ℕ → ℕ → Type ℓ
  Retried attempt zero = Unit
  Retried attempt (suc k) =
      ((m : Str) × (step (n.reply attempt) ≡ again m))
      × (n.cancelled (attempt + 1) ≡ none)
      × Retried (attempt + 1) k

  attempts_done :
      (k left attempt : ℕ) (last : Str) (events : List Event) (r : Result A)
      → k < left
      → (if ltb 0 attempt then n.cancelled attempt else none) ≡ none
      → Retried attempt k
      → step (n.reply (attempt + k)) ≡ done r
      → (attempts n step left attempt last events).1 ≡ r
  unfolding attempts
  attempts_done k zero attempt last events r h c p d = absurd (omega arith)
  attempts_done zero (suc left) attempt last events r h c p d =
      let e : attempt + 0 ≡ attempt = omega arith in ground (arith, c, rw e at d)
  attempts_done (suc k) (suc left) attempt last events r h c ((m, p), c', q) d =
      let after : List Event = waited n attempt events ++ (send attempt ∷ []) in
      let e : attempt + suc k ≡ attempt + 1 + k = omega arith in
      ground (
        arith,
        c,
        p,
        attempts_done k left (attempt + 1) m after r (omega arith) (ground (arith, c')) q
            (rw e at d),
      )

module _ (n : Network) where
  -- BlockExists and UploadBlock send at most five requests. Every wait between two of them is at
  -- least half a second and shorter than thirty.
  pub requests-IsBounded :
      IsRandom n
      → (All IsBounded (block_exists n).0 × (sends (block_exists n).0 ≤ 5))
        × (All IsBounded (upload_block n).0 × (sends (upload_block n).0 ≤ 5))
  unfolding block_exists upload_block
  requests-IsBounded r = (
    attempts-IsBounded n exists_step 5 0 [] [] r tt,
    attempts-IsBounded n upload_step 5 0 [] [] r tt,
  )

  -- If the first `k` replies, `k` below five, are ones to try again and no wait is cancelled, the
  -- reply after them decides what BlockExists returns.
  pub block_exists_decided :
      (k : ℕ) (found : Result Bool)
      → k < 5
      → Retried n exists_step 0 k
      → exists_step (n.reply k) ≡ done found
      → (block_exists n).1 ≡ found
  unfolding block_exists
  block_exists_decided k found h p d =
      let e : 0 + k ≡ k = omega arith in
      attempts_done n exists_step k 5 0 [] [] found h refl p (rw e d)

  -- If the first `k` replies, `k` below five, are ones to try again and no wait is cancelled, the
  -- reply after them decides what UploadBlock returns.
  pub upload_block_decided :
      (k : ℕ) (sent : Result (Unit {0}))
      → k < 5
      → Retried n upload_step 0 k
      → upload_step (n.reply k) ≡ done sent
      → (upload_block n).1 ≡ sent
  unfolding upload_block
  upload_block_decided k sent h p d =
      let e : 0 + k ≡ k = omega arith in
      attempts_done n upload_step k 5 0 [] [] sent h refl p (rw e d)
