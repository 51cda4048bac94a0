-- ===== src/Ipfs/Blockstore/Read.antt =====
-- What the blockstore reads back of what a client uploaded.
use ib.Prelude.{
  ◌∷◌, [], ◌≤◌, ◌≡◌, refl, Str, Bytes, true, false, none, ok, err, length, lookup, is_empty, arith,
  inl, inr, ltb,
}
use ib.Backup.Codec.{Codec, IsLawful}
use ib.Backup.Chunker.{ChunkResult, chunk_size, process_chunk, smaller, decompress}
use ib.Backup.Chunker.Split.{decompress-process_chunk, process_chunk-IsMade}
use ib.Storage.Object as Storage
use ib.Storage.Object.{S3}
use ib.Storage.Tables.{Env, IsHealthy, Store}
use ib.Storage.Block.{save_block}
use ib.Storage.Block.RoundTrip.{get_block-save_block}
use ib.Ipfs.Dag.{Cids}
use ib.Ipfs.Blockstore.{decompress_or_raw, get_raw, get}

-- If what is stored for a chunk is not the chunk itself, reading gives the chunk. If it is, LZ4 has
-- to refuse it for that.
pub decompress_or_raw-process_chunk :
    (C : Codec) (L : IsLawful C) (chunk : Bytes) (r : ChunkResult)
    → process_chunk C chunk ≡ ok r
    → length chunk ≤ chunk_size
    → ((r.content ≡ chunk) → (m : Str) × (C.uncompress chunk chunk_size ≡ err m))
    → decompress_or_raw C r.content chunk_size ≡ chunk
unfolding decompress_or_raw
decompress_or_raw-process_chunk C L chunk r h k refused =
    elim (decompress-process_chunk C L chunk r chunk_size h k) [
      | inr (less, d) ↦ ground (arith, d)
      | inl same ↦ let (m, u) = refused same in unfold decompress in ground (arith, u, same)
    ]

ltb-is_empty : (out : Bytes) → ltb 0 (length out) ≡ true → is_empty out ≡ false
ltb-is_empty [] h = absurd (ground arith)
ltb-is_empty (x ∷ out) h = refl

-- A chunk that is not empty is stored as something that is not empty.
process_chunk_full :
    (C : Codec) (chunk : Bytes) (r : ChunkResult)
    → process_chunk C chunk ≡ ok r
    → is_empty chunk ≡ false
    → is_empty r.content ≡ false
unfolding smaller
process_chunk_full C chunk r h full =
    let made = process_chunk-IsMade C chunk r h in
    ground (arith, made.content, full, ltb-is_empty made.packed)

module _ (S : S3) (L : Storage.IsLawful S) (C : Codec) (M : IsLawful C) (k : Cids) (e e' : Env)
    (H : IsHealthy e) (H' : IsHealthy e') where
  -- What a client's chunker makes of a chunk of at most 8 MB that is not empty, saved without an
  -- error under a new CID that is no dag-pb node, is given by the IPFS blockstore as that chunk:
  -- with a lawful S3 and codec and a healthy database, and if LZ4 refuses the chunk itself where
  -- it was stored uncompressed.
  pub get-process_chunk :
      (chunk : Bytes) (r : ChunkResult) (s : Store S)
      → process_chunk C chunk ≡ ok r
      → length chunk ≤ chunk_size
      → is_empty chunk ≡ false
      → ((r.content ≡ chunk) → (m : Str) × (C.uncompress chunk chunk_size ≡ err m))
      → k.is_dag_pb r.cid ≡ false
      → lookup r.cid s.db.blocks ≡ none
      → (save_block S e r.cid r.content r.original_size s).1 ≡ none
      → get S C k e' r.cid (save_block S e r.cid r.content r.original_size s).0 ≡ ok chunk
  unfolding get get_raw
  get-process_chunk chunk r s h small full refused raw fresh saved = ground (
    arith,
    raw,
    get_block-save_block S L e e' H H' r.cid r.content r.original_size s fresh
        (process_chunk_full C chunk r h full) saved,
    decompress_or_raw-process_chunk C M chunk r h small refused,
  )
