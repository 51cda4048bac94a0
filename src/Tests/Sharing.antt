-- ===== src/Tests/Sharing.antt =====
-- The nodes of the IPFS side.
use ib.Prelude.{◌≡◌, refl, codes, [], ◌∷◌, ◌++◌, some, ok, lookup, str_eq, arith}
use ib.Backup.Manifest.{Manifest}
use ib.Backup.Chunker.{ChunkResult, process_chunk}
use ib.Storage.Block.{save_block}
use ib.Ipfs.Dag.{PbLink, append_varint, encode_pb_link, encode_pb_node}
use ib.Ipfs.Dag.Node.{decode_pb_node, decode-encode_pb_node}
use ib.Ipfs.Blockstore.{get}
use ib.Ipfs.Blockstore.Read.{get-process_chunk}
use ib.Ipfs.ManifestDag.{NodeCollector, build_manifest_dag}
use ib.Ipfs.ManifestDag.Saved.{IsSaved, build_manifest_dag-IsSaved}
use ib.Tests.Fixtures.{
  memory, memory-IsLawful, calm, calm-IsHealthy, toy, toy-IsLawful, sevens, store, file_entry,
  manifest_with, plain_cids,
}

abbrev link : PbLink
link = record { hash = 1 ∷ 2 ∷ []; name = codes "f"; tsize = 5 }

decode-encode_pb_node_example :
    decode_pb_node (encode_pb_node (link ∷ []) (8 ∷ 1 ∷ [])) ≡ some (link ∷ [], 8 ∷ 1 ∷ [])
unfolding encode_pb_link append_varint ib.Ipfs.Dag.varint_loop
decode-encode_pb_node_example =
    decode-encode_pb_node (link ∷ []) (8 ∷ 1 ∷ [])
      ((omega arith, omega arith, omega arith, omega arith), tt) (omega arith)

abbrev sevens_result : ChunkResult
sevens_result = record { cid = codes "cid-" ++ sevens; content = 7 ∷ []; original_size = 4 }

get-process_chunk_example :
    get memory toy plain_cids calm
      (codes "cid-" ++ sevens)
      (save_block memory calm (codes "cid-" ++ sevens) (7 ∷ []) 4 store).0
    ≡ ok sevens
unfolding process_chunk lookup save_block str_eq
get-process_chunk_example =
    get-process_chunk memory memory-IsLawful toy toy-IsLawful plain_cids calm calm calm-IsHealthy
      calm-IsHealthy sevens sevens_result store refl (omega arith) refl
      (λ h. (codes "corrupt input", refl)) refl refl refl

-- A backup of one file of two blocks, in a directory.
abbrev nested : Manifest
nested =
    manifest_with (codes "m")
      (file_entry (codes "d/f") 9000000 (codes "cid-a" ∷ codes "cid-b" ∷ []) ∷ [])

abbrev collector : NodeCollector memory
collector = record { saver = store; node_cids = [] }

build_manifest_dag-IsSaved_example :
    IsSaved memory (build_manifest_dag memory plain_cids calm nested collector).0
build_manifest_dag-IsSaved_example =
    build_manifest_dag-IsSaved memory plain_cids calm nested collector tt
