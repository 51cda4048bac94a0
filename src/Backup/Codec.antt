-- ===== src/Backup/Codec.antt =====
-- The two libraries that the chunker calls: LZ4 block compression (pierrec/lz4) and CIDs (go-cid,
-- through internal/cid). They are parameters, with the behaviour relied on as laws.
use ib.Prelude.{ℕ, ◌≡◌, ◌≤◌, Str, Bytes, false, Result, ok, length, is_empty, ltb, true, err}

-- `compress src cap` is CompressBlock into a buffer of `cap` bytes: the bytes that it wrote.
-- `uncompress src cap` is UncompressBlock. `bound` is CompressBlockBound. `generate` is
-- cid.Generate on the original data.
pub record Codec : Type 0 where
  pub compress : Bytes → ℕ → Result Bytes
  pub uncompress : Bytes → ℕ → Result Bytes
  pub bound : ℕ → ℕ
  pub generate : Bytes → Result Str

-- What was compressed is restored into any buffer that is large enough, and is refused where the
-- buffer is too small.
pub record IsLawful (c : Codec) : Type 0 where
  pub uncompress-compress :
      (src out : Bytes) (cap room : ℕ)
      → c.compress src cap ≡ ok out
      → is_empty out ≡ false
      → length src ≤ room
      → c.uncompress out room ≡ ok src
  pub uncompress_short :
      (src out : Bytes) (cap room : ℕ)
      → c.compress src cap ≡ ok out
      → is_empty out ≡ false
      → ltb room (length src) ≡ true
      → (m : Str) × (c.uncompress out room ≡ err m)
