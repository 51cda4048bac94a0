-- ===== src/Backup/Chunker/Stream.antt =====
-- ChunkFile of internal/backup/chunker.go: a goroutine that reads the file into one buffer and
-- sends the chunks over a channel of four places. A chunk that is not compressed is a slice of the
-- buffer, so what its receiver sees is the buffer at that time.
use ib.Prelude.{
  ℕ, Str, Bytes, List, [], ◌∷◌, ◌++◌, Bool, true, false, ◌&&◌, Option, none, some, Result, ok, err,
  length, take, drop, ltb, is_empty, if◌then◌else◌,
}
use ib.Backup.Codec.{Codec}

-- `owned` is a slice of the fresh array `compressed`, `shared n` is `buffer[:n]`.
pub data Payload : Type 0 where
  owned : Bytes → Payload
  shared : ℕ → Payload

pub data Message : Type 0 where
  chunk : Str → Payload → ℕ → Message
  failed : Str → Message

-- What the receiver holds: the CID, the bytes that it saw and the original size; or the error.
pub data Received : Type 0 where
  block : Str → Bytes → ℕ → Received
  failure : Str → Received

-- `rest` is what is unread of the file, and `broken` the error that reading past it meets. The
-- producer holds one message while the channel is full, and `finished` once it has returned.
pub record Feed : Type 0 where
  pub rest : Bytes
  pub broken : Option Str
  pub buffer : Bytes
  pub pending : Option Message
  pub queue : List Message
  pub finished : Bool
  pub got : List Received

-- The goroutine's start: os.Open has failed with an error, or gives the file.
unfoldable pub open_file : Result (Bytes × Option Str) → Bytes → Feed
open_file (err m) buffer = record {
  rest = [];
  broken = none;
  buffer = buffer;
  pending = some (failed m);
  queue = [];
  finished = true;
  got = [];
}
open_file (ok (content, broken)) buffer = record {
  rest = content;
  broken = broken;
  buffer = buffer;
  pending = none;
  queue = [];
  finished = false;
  got = [];
}

abbrev pub channel_room : ℕ
channel_room = 4

module _ (c : Codec) where
  -- The body of the loop behind io.ReadFull, which has put `piece` at the buffer's front.
  make_message : Bytes → Message × Bool
  make_message piece = elim (c.generate piece) [
    | err m ↦ (failed m, true)
    | ok cid ↦ elim (c.compress piece (c.bound (length piece))) [
      | err m ↦ (failed m, true)
      | ok compressed ↦ (
        chunk cid
            (if ltb 0 (length compressed) && ltb (length compressed) (length piece)
              then owned compressed
              else shared (length piece))
            (length piece),
        false,
      )
    ]
  ]

  fill : ℕ → Feed → Option Feed
  unfolding make_message
  fill size f =
      let piece = take size f.rest in
      let (message, returned) = make_message piece in
      some (record f {
        rest = drop size f.rest;
        buffer = piece ++ drop (length piece) f.buffer;
        pending = some message;
        finished = returned;
      })

  -- One round of the loop up to its send. io.ReadFull reports io.EOF on nothing read, and an error
  -- of the file where it cannot fill the buffer; the test for io.ErrUnexpectedEOF at the loop's end
  -- looks at an `err` that the compression has overwritten, so the loop goes on to the next EOF.
  unfoldable pub read_step : ℕ → Feed → Option Feed
  unfolding fill
  read_step size f = elim f.pending [
    | some _ ↦ none
    | none ↦ if f.finished then none else elim f.broken [
      | some m ↦
          if ltb (length f.rest) size
          then some (record f { pending = some (failed m); finished = true })
          else fill size f
      | none ↦ if is_empty f.rest then some (record f { finished = true }) else fill size f
    ]
  ]

-- The send waits for a place in the channel.
unfoldable pub send_step : Feed → Option Feed
send_step f = elim f.pending [
  | none ↦ none
  | some m ↦
      if ltb (length f.queue) channel_room
      then some (record f { pending = none; queue = f.queue ++ (m ∷ []) })
      else none
]

see : Bytes → Message → Received
see buffer (failed m) = failure m
see buffer (chunk cid (owned content) n) = block cid content n
see buffer (chunk cid (shared k) n) = block cid (take k buffer) n

receive : Feed → List Message → Option Feed
unfolding see
receive f [] = none
receive f (m ∷ queue) = some (record f { queue = queue; got = f.got ++ (see f.buffer m ∷ []) })

unfoldable pub receive_step : Feed → Option Feed
unfolding receive
receive_step f = receive f f.queue

-- The goroutine and its receiver take turns in any order. A step that has to wait does nothing.
pub data Turn : Type 0 where
  reads sends receives : Turn

abbrev or_wait : Feed → Option Feed → Feed
or_wait f none = f
or_wait f (some g) = g

unfoldable pub turn : Codec → ℕ → Turn → Feed → Feed
turn c size reads f = or_wait f (read_step c size f)
turn c size sends f = or_wait f (send_step f)
turn c size receives f = or_wait f (receive_step f)

unfoldable pub run_turns : Codec → ℕ → List Turn → Feed → Feed
unfolding turn
run_turns c size [] f = f
run_turns c size (t ∷ ts) f = run_turns c size ts (turn c size t f)
