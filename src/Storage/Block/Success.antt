-- ===== src/Storage/Block/Success.antt =====
-- Saving of blocks on a healthy database, with an S3 that takes every object.
use ib.Prelude.{ℕ, ◌≡◌, Str, Bytes, none, arith}
use ib.Storage.Object.{S3}
use ib.Storage.Tables.{Env, IsHealthy, Store, insert_block}
use ib.Storage.Block.{block_s3_key, save_block, insert_row}

-- No PutObject fails.
abbrev pub TakesAll : S3 → Type 0
TakesAll S = (k : Str) (d : Bytes) (s : S.State) → (S.put k d s).1 ≡ none

module _ (S : S3) (e : Env) (H : IsHealthy e) where
  pub save_block_succeeds :
      TakesAll S
      → (cid : Str) (content : Bytes) (n : ℕ) (s : Store S)
      → (save_block S e cid content n s).1 ≡ none
  unfolding save_block insert_row
  save_block_succeeds takes cid content n s =
      ground (arith, H.no_error insert_block, takes (block_s3_key cid) content s.objects)
