-- ===== src/Client.antt =====
-- internal/client/client.go: the HTTP client and its retries.
pub mod Attempts
pub mod Manifests
use ib.Prelude.{
  ℕ, zero, suc, ◌+◌, ◌-◌, ◌*◌, ◌/◌, ◌%◌, ◌^◌, Str, Bytes, codes, List, [], ◌∷◌, ◌++◌, Bool, true,
  false, ◌&&◌, ◌||◌, Option, none, some, Result, ok, err, is_empty, contains, decimal, ltb, ◌==◌,
  if◌then◌else◌,
}

abbrev pub max_retries : ℕ
max_retries = 5

-- Durations in nanoseconds.
abbrev pub base_retry_delay : ℕ
base_retry_delay = 1_000_000_000

abbrev pub max_retry_delay : ℕ
max_retry_delay = 30 * 1_000_000_000

-- What one request meets: an error of `newRequest` or of `Do`, or a response and its body.
pub data Reply : Type 0 where
  request_error : Str → Reply
  transport_error : Str → Reply
  response : ℕ → Bytes → Reply

-- A client's calls in order: the wait before an attempt, and the attempt itself.
pub data Event : Type 0 where
  wait : ℕ → Event
  send : ℕ → Event

-- `reply n` answers the n-th attempt, `cancelled n` is whether the context is done during the wait
-- before it, and `jitter n m` is the random number below `m` that is drawn then.
pub record Network : Type 0 where
  pub reply : ℕ → Reply
  pub cancelled : ℕ → Option Str
  pub jitter : ℕ → ℕ → ℕ

unfoldable pub is_retryable_error : Str → Bool
unfolding contains
is_retryable_error text =
    contains text (codes "ENHANCE_YOUR_CALM")
    || contains text (codes "GOAWAY")
    || contains text (codes "stream error")
    || contains text (codes "connection reset")
    || contains text (codes "EOF")

unfoldable pub is_retryable_status : ℕ → Bool
is_retryable_status status = status == 429 || status == 503 || status == 502 || status == 504

-- rand.Int63n(m) gives a number below m.
unfoldable pub retry_delay : Network → ℕ → ℕ
retry_delay n attempt =
    let doubled = base_retry_delay * 2 ^ attempt in
    let delay = if ltb max_retry_delay doubled then max_retry_delay else doubled in
    delay / 2 + n.jitter attempt (delay / 2)

-- The answer of a request that is not tried again, or the error to remember.
pub data Step {ℓ} (A : Type ℓ) : Type ℓ where
  done : Result A → Step A
  again : Str → Step A

unfoldable pub exists_step : Reply → Step Bool
unfolding is_retryable_error is_retryable_status
exists_step (request_error m) = done (err m)
exists_step (transport_error m) = if is_retryable_error m then again m else done (err m)
exists_step (response status body) =
    if status == 200
    then done (ok true)
    else if status == 404
    then done (ok false)
    else if is_retryable_status status
    then again (codes "server returned " ++ decimal status)
    else done (err (codes "unexpected status: " ++ decimal status))

unfoldable pub upload_step : Reply → Step (Unit {0})
unfolding is_retryable_error is_retryable_status
upload_step (request_error m) = done (err m)
upload_step (transport_error m) = if is_retryable_error m then again m else done (err m)
upload_step (response status body) =
    if status == 200 || status == 201
    then done (ok tt)
    else if is_retryable_status status
    then again (codes "server returned " ++ (decimal status ++ (codes ": " ++ body)))
    else done (err (codes "upload failed: " ++ (decimal status ++ (codes " - " ++ body))))

-- The loop over the attempts: those that are left, the number of the next one, the error of the
-- last one and the events so far.
unfoldable pub attempts {ℓ} :
    {A : Type ℓ} → Network → (Reply → Step A) → ℕ → ℕ → Str → List Event → List Event × Result A
attempts n step zero attempt last events = (events, err (codes "max retries exceeded: " ++ last))
attempts n step (suc left) attempt last events =
    let waited : List Event =
      if ltb 0 attempt then events ++ (wait (retry_delay n (attempt - 1)) ∷ []) else events in
    let stopped : Option Str = if ltb 0 attempt then n.cancelled attempt else none in
    elim stopped [
      | some m ↦ (waited, err m)
      | none ↦ elim (step (n.reply attempt)) [
        | done r ↦ (waited ++ (send attempt ∷ []), r)
        | again m ↦ attempts n step left (attempt + 1) m (waited ++ (send attempt ∷ []))
      ]
    ]

unfoldable pub block_exists : Network → List Event × Result Bool
unfolding exists_step
block_exists n = attempts n exists_step max_retries 0 [] []

unfoldable pub upload_block : Network → List Event × Result (Unit {0})
unfolding upload_step
upload_block n = attempts n upload_step max_retries 0 [] []

-- DownloadBlock tries once.
unfoldable pub download_block : Reply → Result Bytes
download_block (request_error m) = err m
download_block (transport_error m) = err m
download_block (response status body) =
    if status == 200 then ok body else err (codes "download failed: " ++ decimal status)
