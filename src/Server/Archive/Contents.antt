-- ===== src/Server/Archive/Contents.antt =====
-- What a download of a file sends.
use ib.Prelude.{
  ℕ, ◌+◌, ◌≤◌, ◌<◌, ◌⊎◌, ◌≡◌, refl, sym, ◌∙◌, Str, Bytes, List, [], ◌∷◌, true, false, some, ok, err,
  ap, All, concat, map, trim_prefix, base, length, arith, inl, inr,
}
use ib.Backup.Manifest.{file, Entry, Manifest, find_entry}
use ib.Backup.Codec as Codec
use ib.Backup.Codec.{Codec}
use ib.Backup.Chunker.{ChunkResult, chunk_size, chunk_data, process_chunk}
use ib.Backup.Chunker.Split.{IsCut, Processed, chunk_data-IsCut, process_chunk-IsMade}
use ib.Storage.Object.{S3}
use ib.Storage.Tables.{Env, Store}
use ib.Storage.Block.{get_block}
use ib.Storage.ManifestStore.{get_manifest}
use ib.Ipfs.Blockstore.Read.{decompress_or_raw-process_chunk}
use ib.Server.Api.{Formats, Server, read_manifest}
use ib.Server.Archive.{
  Peer, file_stream, block_writes, is_whole, file_loop, load_manifest, file_download,
  handle_download_file,
}

-- What is stored of a chunk can be told from the chunk: it is shorter, or LZ4 refuses it. That is a
-- condition on the chunk: a byte 0 alone is stored as it is, and decompresses to nothing.
abbrev pub IsTold : Codec → ChunkResult → Type 0
IsTold C r =
    (length r.content < r.original_size) ⊎ ((m : Str) × (C.uncompress r.content chunk_size ≡ err m))

module _ (S : S3) (C : Codec) (L : Codec.IsLawful C) (e : Env) where
  IsCut-bounded : (size : ℕ) (bs : List Bytes) → IsCut size bs → All (λ b. length b ≤ size) bs
  IsCut-bounded size [] h = tt
  IsCut-bounded size (b ∷ []) h = (h.1, tt)
  IsCut-bounded size (b ∷ d ∷ bs) h = (omega (arith, h.0), IsCut-bounded size (d ∷ bs) h.1)

  told-refused :
      (b : Bytes) (r : ChunkResult)
      → process_chunk C b ≡ ok r
      → IsTold C r
      → r.content ≡ b
      → (m : Str) × (C.uncompress b chunk_size ≡ err m)
  told-refused b r p (inl less) same =
      absurd (omega (arith, less, ap length same, (process_chunk-IsMade C b r p).size))
  told-refused b r p (inr (m, refused)) same =
      (m, ap (λ z. C.uncompress z chunk_size) (sym same) ∙ refused)

  block_writes-Processed :
      (bs : List Bytes) (rs : List ChunkResult) (s : Store S)
      → Processed C bs rs
      → All (λ b. length b ≤ chunk_size) bs
      → All (IsTold C) rs
      → All (λ r. get_block S e r.cid s ≡ ok r.content) rs
      → block_writes S C e (map (λ r. r.cid) rs) s ≡ bs
  unfolding block_writes
  block_writes-Processed [] [] s p h k g = refl
  block_writes-Processed [] (r ∷ rs) s p h k g = elim p [ ]
  block_writes-Processed (b ∷ bs) [] s p h k g = elim p [ ]
  block_writes-Processed (b ∷ bs) (r ∷ rs) s (p, ps) (h, hs) (k, ks) (g, gs) = ground (
    arith,
    g,
    decompress_or_raw-process_chunk C L b r p h (told-refused b r p k),
    block_writes-Processed bs rs s ps hs ks gs,
  )

  pub block_writes-chunk_data :
      (content : Bytes) (rs : List ChunkResult) (s : Store S)
      → chunk_data C content ≡ ok rs
      → All (IsTold C) rs
      → All (λ r. get_block S e r.cid s ≡ ok r.content) rs
      → concat (block_writes S C e (map (λ r. r.cid) rs) s) ≡ content
  block_writes-chunk_data content rs s made told there =
      let (bs, done, joined, cut) = chunk_data-IsCut C content rs made in
      let bounded = IsCut-bounded chunk_size bs cut in
      ap concat (block_writes-Processed bs rs s done bounded told there) ∙ joined

module _ (S : S3) (C : Codec) (F : Formats) (e : Env) where
  file_loop-block_writes :
      (p : Peer) (i : ℕ) (cids : List Str) (s : Store S)
      → ((j : ℕ) → p.is_done j ≡ false)
      → file_loop S C F e p i cids s ≡ block_writes S C e cids s
  unfolding file_loop block_writes
  file_loop-block_writes p i [] s h = refl
  file_loop-block_writes p i (c ∷ cids) s h =
      ground (arith, h i, file_loop-block_writes p (i + 1) cids s h)

  is_whole-true :
      (p : Peer) (i : ℕ) (cids : List Str)
      → ((j : ℕ) → p.is_done j ≡ false)
      → is_whole S C F e p i cids ≡ true
  unfolding is_whole
  is_whole-true p i [] h = refl
  is_whole-true p i (c ∷ cids) h = ground (arith, h i, is_whole-true p (i + 1) cids h)

module _ (S : S3) (C : Codec) (L : Codec.IsLawful C) (F : Formats) (e : Env) where
  -- Take a manifest that can be read, whose first entry for a path is a file that has the blocks
  -- that ChunkData made of some data, and their length as its size. If GetBlock reads all of them as
  -- they were made, and the client stays, the download of the path announces the length of what it
  -- writes and ends with exactly that data; with a lawful codec, and if LZ4 refuses each of these
  -- chunks that was not stored shorter.
  pub handle_download_file-chunk_data :
      (p : Peer) (id path : Str) (s : Server S) (raw content : Bytes) (m : Manifest) (x : Entry)
      (rs : List ChunkResult)
      → ((i : ℕ) → p.is_done i ≡ false)
      → get_manifest S e id s.storage ≡ ok raw
      → read_manifest C F raw ≡ some m
      → find_entry m path ≡ some x
      → x.type ≡ file
      → chunk_data C content ≡ ok rs
      → x.size ≡ length content
      → x.blocks ≡ map (λ r. r.cid) rs
      → All (IsTold C) rs
      → All (λ r. get_block S e r.cid s.storage ≡ ok r.content) rs
      → (writes : List Bytes) × ((handle_download_file S C F e p id (b'/' ∷ path) s).1
          ≡ file_stream (base path) (length (concat writes)) true writes)
        × (concat writes ≡ content)
  unfolding handle_download_file load_manifest trim_prefix file_download
  handle_download_file-chunk_data p id path s raw content m x rs stays stored parsed found is_file
        made sized blocks told there =
      let (bs, done, joined, cut) = chunk_data-IsCut C content rs made in
      (
        bs,
        ground (
          arith,
          stored,
          parsed,
          found,
          is_file,
          sized,
          ap length joined,
          blocks,
          is_whole-true S C F e p 0 x.blocks stays,
          file_loop-block_writes S C F e p 0 x.blocks s.storage stays,
          block_writes-Processed S C L e bs rs s.storage done
              (IsCut-bounded S C L e chunk_size bs cut) told there,
        ),
        joined,
      )
