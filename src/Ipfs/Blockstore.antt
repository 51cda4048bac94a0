-- ===== src/Ipfs/Blockstore.antt =====
-- internal/ipfsnode/blockstore.go: the store that the IPFS node reads, over a `Storage`. A block of
-- go-block-format is its bytes: NewBlockWithCid checks them only in that library's debug mode.
pub mod Read
use ib.Prelude.{
  ℕ, Str, Bytes, codes, List, [], Bool, true, false, Option, some, Result, ok, err, length,
  if◌then◌else◌,
}
use ib.Backup.Codec.{Codec}
use ib.Backup.Chunker.{chunk_size, decompress}
use ib.Storage.Object.{S3}
use ib.Storage.Tables.{Env, Store}
use ib.Storage.Block.{get_block, block_exists}
use ib.Storage.Node.{get_node, node_exists}
use ib.Ipfs.Dag.{Cids}

-- What Decompress gives, or the data where it fails.
unfoldable pub decompress_or_raw : Codec → Bytes → ℕ → Bytes
decompress_or_raw C content room = elim (decompress C content room) [ ok b ↦ b | err m ↦ content ]

module _ (S : S3) (C : Codec) (k : Cids) where
  unfoldable pub has : Env → Str → Store S → Result Bool
  unfolding node_exists block_exists
  has e cid s =
      if k.is_dag_pb cid
      then elim (node_exists S e cid s) [ ok true ↦ ok true | _ ↦ block_exists S e cid s ]
      else block_exists S e cid s

  -- The raw data block.
  unfoldable pub get_raw : Env → Str → Store S → Result Bytes
  unfolding decompress_or_raw
  get_raw e cid s = elim (get_block S e cid s) [
    | err m ↦ err m
    | ok content ↦ ok (decompress_or_raw C content chunk_size)
  ]

  unfoldable pub get : Env → Str → Store S → Result Bytes
  unfolding get_node get_raw
  get e cid s =
      if k.is_dag_pb cid
      then elim (get_node S e cid s) [ ok content ↦ ok content | err m ↦ get_raw e cid s ]
      else get_raw e cid s

  unfoldable pub get_size : Env → Str → Store S → Result ℕ
  unfolding get
  get_size e cid s = elim (get e cid s) [ err m ↦ err m | ok content ↦ ok (length content) ]

  -- Put, PutMany and DeleteBlock.
  abbrev pub put : Str → Bytes → Store S → Store S × Option Str
  put cid content s = (s, some (codes "blockstore is read-only"))

-- AllKeysChan gives a channel that is closed.
abbrev pub all_keys : {S : S3} → Store S → List Str
all_keys s = []

-- HashOnRead does nothing.
abbrev pub hash_on_read : {S : S3} → Bool → Store S → Store S
hash_on_read enabled s = s
