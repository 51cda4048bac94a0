-- ===== src/Ipfs/Dag.antt =====
-- internal/ipfsnode/dag.go: UnixFS and dag-pb nodes, encoded as protobuf by hand.
pub mod Varint
pub mod Wire
pub mod Node
pub mod Size
use Prim.Native.Nat.{bit_or}
use ib.Prelude.{
  ℕ, zero, suc, ◌+◌, ◌*◌, ◌/◌, ◌%◌, ◌^◌, Str, Bytes, List, [], ◌∷◌, ◌++◌, Bool, true, false, not,
  Option, none, some, Result, ok, err, length, is_empty, leb, ltb, if◌then◌else◌, ◌>>=◌,
}

-- go-cid and go-multihash. A CID is its text. `decode` gives the canonical text of a valid one,
-- `to_bytes` its binary form, `dag_pb` the CID of a dag-pb node by SHA-256.
pub record Cids : Type 0 where
  pub decode : Str → Result Str
  pub to_bytes : Str → Bytes
  pub dag_pb : Bytes → Str
  pub is_dag_pb : Str → Bool

pub record DagNode : Type 0 where
  pub cid : Str
  pub node_data : Bytes

pub record DirEntry : Type 0 where
  pub name : Str
  pub cid : Str
  pub size : ℕ

pub record PbLink : Type 0 where
  pub hash : Bytes
  pub name : Str
  pub tsize : ℕ

-- One round for each seven bits. A uint64 has ten groups of them, so nine rounds and the last
-- append are enough.
unfoldable pub varint_loop : ℕ → Bytes → ℕ → Bytes
varint_loop zero buf v = buf ++ (v % 256 ∷ [])
varint_loop (suc fuel) buf v =
    let rest = varint_loop fuel (buf ++ (bit_or (v % 256) 0x80 ∷ [])) (v / 2 ^ 7) in
    if leb 0x80 v then rest else buf ++ (v % 256 ∷ [])

unfoldable pub append_varint : Bytes → ℕ → Bytes
append_varint buf v = varint_loop 9 buf v

unfoldable pub append_sizes : Bytes → List ℕ → Bytes
append_sizes buf [] = buf
append_sizes buf (size ∷ sizes) = append_sizes (append_varint (buf ++ (0x20 ∷ [])) size) sizes

unfoldable pub encode_unixfs_file : ℕ → List ℕ → Bytes
unfolding append_sizes
encode_unixfs_file filesize blocksizes =
    let buf = append_varint (0x08 ∷ []) 2 in
    append_sizes (append_varint (buf ++ (0x18 ∷ [])) filesize) blocksizes

unfoldable pub encode_unixfs_directory : Bytes
encode_unixfs_directory = append_varint (0x08 ∷ []) 1

-- A length-delimited field: its key, the length and the bytes.
pub append_field : Bytes → ℕ → Bytes → Bytes
append_field buf key content = append_varint (buf ++ (key ∷ [])) (length content) ++ content

unfoldable pub encode_pb_link : PbLink → Bytes
unfolding append_field
encode_pb_link link =
    let buf1 : Bytes = if is_empty link.hash then [] else append_field [] 0x0a link.hash in
    let buf2 : Bytes = if is_empty link.name then buf1 else append_field buf1 0x12 link.name in
    if ltb 0 link.tsize then append_varint (buf2 ++ (0x18 ∷ [])) link.tsize else buf2

pub append_links : Bytes → List PbLink → Bytes
unfolding append_field
append_links buf [] = buf
append_links buf (link ∷ links) = append_links (append_field buf 0x12 (encode_pb_link link)) links

unfoldable pub encode_pb_node : List PbLink → Bytes → Bytes
unfolding append_links append_field
encode_pb_node links content =
    let buf = append_links [] links in
    if is_empty content then buf else append_field buf 0x0a content

module _ (k : Cids) where
  -- `links[i]` for each block, up to the first CID that does not decode.
  unfoldable pub file_links : List Str → List ℕ → Result (List PbLink)
  file_links [] sizes = ok []
  file_links (c ∷ cids) [] = err []
  file_links (c ∷ cids) (size ∷ sizes) = elim (k.decode c) [
    | err m ↦ err m
    | ok cid ↦ elim (file_links cids sizes) [
      | err m ↦ err m
      | ok links ↦ ok (record { hash = k.to_bytes cid; name = []; tsize = size } ∷ links)
    ]
  ]

  -- `none` is nil. `blockSizes` has one element for each block.
  unfoldable pub build_file_node : List Str → List ℕ → ℕ → Result (Option DagNode)
  unfolding file_links
  build_file_node [] sizes total = ok none
  build_file_node (c ∷ []) sizes total = ok none
  build_file_node (c ∷ d ∷ cids) sizes total = elim (file_links (c ∷ d ∷ cids) sizes) [
    | err m ↦ err m
    | ok links ↦
        let encoded = encode_pb_node links (encode_unixfs_file total sizes) in
        ok (some (record { cid = k.dag_pb encoded; node_data = encoded }))
  ]

  unfoldable pub dir_links : List DirEntry → List PbLink
  dir_links [] = []
  dir_links (e ∷ es) =
      record { hash = k.to_bytes e.cid; name = e.name; tsize = e.size } ∷ dir_links es

  unfoldable pub build_dir_node : List DirEntry → DagNode
  unfolding dir_links
  build_dir_node entries =
      let encoded = encode_pb_node (dir_links entries) encode_unixfs_directory in
      record { cid = k.dag_pb encoded; node_data = encoded }
