-- ===== src/Backup/Chunker/Aliasing.antt =====
-- What the shared buffer of ChunkFile does to chunks that are not compressed.
use ib.Prelude.{
  ℕ, ◌≡◌, ◌<◌, refl, Str, Bytes, List, [], ◌∷◌, ◌++◌, false, ◌&&◌, Option, none, some, ok, length,
  ltb, arith, take-append, drop_all, take_all, drop-append, append-nil, is_empty,
}
use ib.Backup.Codec.{Codec}
use ib.Backup.Chunker.Stream.{
  Feed, Message, Received, block, reads, sends, receives, open_file, read_step, send_step,
  receive_step, run_turns, chunk, shared,
}

-- The compression does not make the chunk shorter.
abbrev pub IsRaw : Codec → Bytes → Type 0
IsRaw c b =
    (out : Bytes) × (c.compress b (c.bound (length b)) ≡ ok out)
    × ((ltb 0 (length out) && ltb (length out) (length b)) ≡ false)

-- A goroutine that runs on, and waits at a receive of the channel's other side.
abbrev feeding : Bytes → Bytes → Option Message → List Message → List Received → Feed
feeding rest buffer pending queue got = record {
  rest = rest;
  broken = none;
  buffer = buffer;
  pending = pending;
  queue = queue;
  finished = false;
  got = got;
}

abbrev raw_message : Str → ℕ → Message
raw_message cid size = chunk cid (shared size) size

not_empty : (a r : Bytes) → 0 < length a → is_empty (a ++ r) ≡ false
not_empty [] r h = absurd (omega arith)
not_empty (x ∷ a) r h = refl

module _ (c : Codec) (size : ℕ) where
  -- A full chunk that is not compressed is handed over as the buffer.
  read_step_raw :
      (a rest buffer : Bytes) (cid : Str) (queue : List Message) (got : List Received)
      → 0 < size
      → length a ≡ size
      → length buffer ≡ size
      → c.generate a ≡ ok cid
      → IsRaw c a
      → read_step c size (feeding (a ++ rest) buffer none queue got)
        ≡ some (feeding rest a (some (raw_message cid size)) queue got)
  unfolding read_step
  read_step_raw a rest buffer cid queue got h la lb ga (out, ca, ra) = ground (
    arith,
    not_empty a rest (omega arith),
    take-append a rest size la,
    drop-append a rest size la,
    drop_all (length a) buffer (omega arith),
    append-nil a,
    ga,
    ca,
    ra,
  )

module _ (c : Codec) (size : ℕ) (a b rest buffer : Bytes) (cid_a cid_b : Str) where
  -- If a file begins with two full chunks `a` and `b` that compression does not make shorter, there
  -- is an order of the two goroutines' steps in which the receiver gets the bytes of `b` under the
  -- CID of `a`.
  pub run_turns_mixed :
      0 < size
      → length a ≡ size
      → length b ≡ size
      → length buffer ≡ size
      → c.generate a ≡ ok cid_a
      → c.generate b ≡ ok cid_b
      → IsRaw c a
      → IsRaw c b
      → (run_turns c size
          (reads ∷ sends ∷ reads ∷ receives ∷ [])
          (open_file (ok (a ++ (b ++ rest), none)) buffer)).got
        ≡ block cid_a b size ∷ []
  unfolding run_turns open_file send_step receive_step
  run_turns_mixed h la lb lbuf ga gb ra rb = ground (
    arith,
    read_step_raw c size a (b ++ rest) buffer cid_a [] [] h la lbuf ga ra,
    read_step_raw c size b rest a cid_b (raw_message cid_a size ∷ []) [] h lb la gb rb,
    take_all size b (omega arith),
  )
