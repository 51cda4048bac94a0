-- ===== src/Backup/Chunker.antt =====
-- internal/backup/chunker.go: splitting data into content-addressed chunks.
pub mod Split
pub mod Stream
pub mod Aliasing
use ib.Prelude.{
  ℕ, zero, suc, ◌+◌, ◌-◌, ◌*◌, Str, Bytes, List, [], ◌∷◌, ◌++◌, Bool, true, false, ◌&&◌, Result, ok,
  err, length, take, drop, ltb, ◌==◌, if◌then◌else◌, ◌>>=◌,
}
use ib.Backup.Codec.{Codec}

abbrev pub chunk_size : ℕ
chunk_size = 8 * 1024 * 1024

-- A result without its error, which is the `err` of a `Result`.
pub record ChunkResult : Type 0 where
  pub cid : Str
  pub content : Bytes
  pub original_size : ℕ

module _ (c : Codec) where
  -- `compressed[:compressedSize]`, or the chunk itself where that is no shorter.
  unfoldable pub smaller : Bytes → Bytes → Bytes
  smaller compressed chunk =
      if ltb 0 (length compressed) && ltb (length compressed) (length chunk)
      then compressed
      else chunk

  unfoldable pub process_chunk : Bytes → Result ChunkResult
  unfolding smaller
  process_chunk chunk = do
    chunk_cid ← c.generate chunk
    compressed ← c.compress chunk (c.bound (length chunk))
    ok (record {
      cid = chunk_cid;
      content = smaller compressed chunk;
      original_size = length chunk;
    })

  -- The loop over offsets. Each round moves the offset, so the data's length is fuel enough.
  unfoldable pub chunk_loop : ℕ → ℕ → ℕ → Bytes → List ChunkResult → Result (List ChunkResult)
  chunk_loop size zero offset content results = ok results
  chunk_loop size (suc fuel) offset content results = elim (ltb offset (length content)) [
    | false ↦ ok results
    | true ↦
        let end = if ltb (length content) (offset + size) then length content else offset + size in
        elim (process_chunk (take (end - offset) (drop offset content))) [
          | err m ↦ err m
          | ok r ↦ chunk_loop size fuel (offset + size) content (results ++ (r ∷ []))
        ]
  ]

  unfoldable pub chunk_data : Bytes → Result (List ChunkResult)
  unfolding chunk_loop
  chunk_data content = chunk_loop chunk_size (length content) 0 content []

  -- Data that is not compressed is returned as it is if its length is the one asked for.
  unfoldable pub decompress : Bytes → ℕ → Result Bytes
  decompress compressed original_size = elim (c.uncompress compressed original_size) [
    | ok out ↦ ok out
    | err m ↦ if length compressed == original_size then ok compressed else err m
  ]

  unfoldable pub compress_block : Bytes → ℕ → Result Bytes
  compress_block src room = c.compress src room
