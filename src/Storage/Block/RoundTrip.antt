-- ===== src/Storage/Block/RoundTrip.antt =====
-- What GetBlock reads after SaveBlock.
use ib.Prelude.{ℕ, ◌≡◌, refl, Str, Bytes, none, some, false, ok, lookup, is_empty, length, arith}
use ib.Storage.Object.{S3, IsLawful}
use ib.Storage.Tables.{
  BlockRow, Env, IsHealthy, Store, insert_block, select_block, insert_or_ignore,
  lookup-insert_or_ignore, insert_or_ignore_present,
}
use ib.Storage.Block.{block_s3_key, inline_threshold, inline_row, s3_row, save_block, get_block}
use ib.Storage.Block.Key.{str_eq-block_s3_key}
use ib.Prelude.{◌≤◌, Dict, lookup-insert, str_eq_refl, str_eq}

block_s3_key_full : (cid : Str) → is_empty (block_s3_key cid) ≡ false
unfolding block_s3_key
block_s3_key_full cid = refl

module _ (S : S3) (L : IsLawful S) (e e' : Env) (H : IsHealthy e) (H' : IsHealthy e') where
  -- A block that is new, not empty and saved without an error is read back as it was, whether it
  -- went inline or to S3, with a healthy database and a lawful S3.
  pub get_block-save_block :
      (cid : Str) (content : Bytes) (n : ℕ) (s : Store S)
      → lookup cid s.db.blocks ≡ none
      → is_empty content ≡ false
      → (save_block S e cid content n s).1 ≡ none
      → get_block S e' cid (save_block S e cid content n s).0 ≡ ok content
  unfolding save_block get_block
  get_block-save_block cid content n s fresh full done = ground (
    arith,
    H.no_error insert_block,
    H'.no_error select_block,
    H'.blob_back content full,
    lookup-insert_or_ignore cid cid (inline_row e content n) s.db.blocks fresh,
    lookup-insert_or_ignore cid cid (s3_row e cid content n) s.db.blocks fresh,
    str_eq_refl cid,
    L.get-put (block_s3_key cid) content s.objects,
    block_s3_key_full cid,
  )

  -- If a block lies in S3, a later upload of other content of at least 256 KB under its CID, which
  -- succeeds, replaces what is read for it, although the row is left as it was.
  pub get_block-save_block_again :
      (cid : Str) (content : Bytes) (n : ℕ) (s : Store S) (row : BlockRow)
      → lookup cid s.db.blocks ≡ some row
      → row.inline_data ≡ none
      → is_empty row.s3_key ≡ false
      → inline_threshold ≤ length content
      → (save_block S e cid content n s).1 ≡ none
      → (get_block S e' cid (save_block S e cid content n s).0 ≡ ok content)
        × ((save_block S e cid content n s).0.db ≡ s.db)
  unfolding save_block get_block
  get_block-save_block_again cid content n s row there away keyed large done = ground (
    arith,
    H.no_error insert_block,
    H'.no_error select_block,
    insert_or_ignore_present cid (inline_row e content n) row s.db.blocks there,
    insert_or_ignore_present cid (s3_row e cid content n) row s.db.blocks there,
    L.get-put (block_s3_key cid) content s.objects,
  )

lookup-insert_or_ignore_other {ℓ} :
    {V : Type ℓ} (j k : Str) (v : V) (d : Dict V)
    → str_eq j k ≡ false
    → lookup j (insert_or_ignore k v d) ≡ lookup j d
unfolding insert_or_ignore
lookup-insert_or_ignore_other j k v d h = ground (arith, lookup-insert j k v d)

module _ (S : S3) (L : IsLawful S) (e e' : Env) where
  -- SaveBlock changes what is read for no other CID, on every path, errors included.
  pub get_block-save_block_other :
      (j cid : Str) (content : Bytes) (n : ℕ) (s : Store S)
      → str_eq j cid ≡ false
      → get_block S e' j (save_block S e cid content n s).0 ≡ get_block S e' j s
  unfolding save_block get_block
  get_block-save_block_other j cid content n s h = ground (
    arith,
    lookup-insert_or_ignore_other j cid (inline_row e content n) s.db.blocks h,
    lookup-insert_or_ignore_other j cid (s3_row e cid content n) s.db.blocks h,
    L.get-put_other (block_s3_key j) (block_s3_key cid) content s.objects
        (str_eq-block_s3_key j cid h),
  )
