-- ===== src/Ipfs/Dag/Size.antt =====
-- Links of moderate size fit into the format.
use ib.Prelude.{
  ℕ, zero, suc, ◌+◌, ◌*◌, ◌/◌, ◌%◌, ◌^◌, ◌≤◌, ◌<◌, Bytes, List, [], ◌∷◌, ◌++◌, length,
  length-append, ap, arith,
}
use Prim.Native.Nat.{bit_or}
use ib.Ipfs.Dag.{
  PbLink, varint_loop, append_varint, append_sizes, encode_unixfs_file, encode_pb_link,
}
use ib.Ipfs.Dag.Wire.{field_part, size_part, encode_pb_link_lem, IsEncodable}

length-varint_loop :
    (fuel : ℕ) (buf : Bytes) (v : ℕ) → length (varint_loop fuel buf v) ≤ length buf + fuel + 1
unfolding varint_loop
length-varint_loop zero buf v = omega (arith, length-append buf (v % 256 ∷ []))
length-varint_loop (suc fuel) buf v =
    let b : ℕ = bit_or (v % 256) 0x80 in
    ground (
      arith,
      length-append buf (v % 256 ∷ []),
      length-append buf (b ∷ []),
      length-varint_loop fuel (buf ++ (b ∷ [])) (v / 2 ^ 7),
    )

length-append_varint : (buf : Bytes) (v : ℕ) → length (append_varint buf v) ≤ length buf + 10
unfolding append_varint
length-append_varint buf v = omega (arith, length-varint_loop 9 buf v)

length-append_sizes :
    (buf : Bytes) (sizes : List ℕ)
    → length (append_sizes buf sizes) ≤ length buf + 11 * length sizes
unfolding append_sizes
length-append_sizes buf [] = omega arith
length-append_sizes buf (n ∷ sizes) = omega (
  arith,
  length-append_sizes (append_varint (buf ++ (0x20 ∷ [])) n) sizes,
  length-append_varint (buf ++ (0x20 ∷ [])) n,
  length-append buf (0x20 ∷ []),
)

pub length-encode_unixfs_file :
    (total : ℕ) (sizes : List ℕ) → length (encode_unixfs_file total sizes) ≤ 22 + 11 * length sizes
unfolding encode_unixfs_file
length-encode_unixfs_file total sizes =
    let kind : Bytes = append_varint (0x08 ∷ []) 2 in
    let head : Bytes = append_varint (kind ++ (0x18 ∷ [])) total in
    omega (
      arith,
      length-append_sizes head sizes,
      length-append_varint (kind ++ (0x18 ∷ [])) total,
      length-append kind (0x18 ∷ []),
      length-append_varint (0x08 ∷ []) 2,
    )

length-field_part :
    (key : ℕ) (content : Bytes) → length (field_part key content) ≤ length content + 11
length-field_part key [] = omega arith
length-field_part key (x ∷ content) = omega (
  arith,
  length-append (append_varint [] (length (x ∷ content))) (x ∷ content),
  length-append_varint [] (length (x ∷ content)),
)

length-size_part : (tsize : ℕ) → length (size_part tsize) ≤ 11
length-size_part tsize = ground (arith, length-append_varint [] tsize)

-- A hash and a name below 2^32 bytes and a size below 2^64 are enough.
pub small-IsEncodable :
    (l : PbLink)
    → length l.hash < 2 ^ 32
    → length l.name < 2 ^ 32
    → l.tsize < 2 ^ 64
    → IsEncodable l
small-IsEncodable l h n t =
    let small : length (encode_pb_link l) < 2 ^ 64 = omega (
      arith,
      ap length (encode_pb_link_lem l),
      length-append (field_part 0x0a l.hash) (field_part 0x12 l.name ++ size_part l.tsize),
      length-append (field_part 0x12 l.name) (size_part l.tsize),
      length-field_part 0x0a l.hash,
      length-field_part 0x12 l.name,
      length-size_part l.tsize,
    ) in
    (omega arith, omega arith, t, small)
