-- ===== src/Ipfs/Dag/Node.antt =====
-- A whole dag-pb node is read back.
use ib.Prelude.{
  ℕ, zero, suc, ◌^◌, ◌≤◌, ◌<◌, ◌≡◌, sym, ◌∙◌, ap, Bytes, List, [], ◌∷◌, ◌++◌, true, false, Option,
  none, some, arith, append_assoc, append-nil, length, drop, All, length-append,
}
use ib.Ipfs.Dag.{PbLink, append_varint, append_field, append_links, encode_pb_link, encode_pb_node}
use ib.Ipfs.Dag.Varint.{read_varint, read_varint-append_varint}
use ib.Ipfs.Dag.Wire.{
  starts, cut, cut_append, optional_field, optional_field_lem, field_part, append_field_lem,
  decode_pb_link, decode-encode_pb_link, IsEncodable, starts_key, starts_data, starts_nil,
}

-- The fields 2 at the front. `none` for what is no link, or when the fuel runs out.
unfoldable pub decode_links : ℕ → Bytes → Option (List PbLink × Bytes)
decode_links zero bs = none
decode_links (suc fuel) bs = elim (starts 0x12 bs) [
  | false ↦ some ([], bs)
  | true ↦ elim (cut (read_varint (drop 1 bs))) [
    | none ↦ none
    | some (content, rest) ↦ elim (decode_pb_link content) [
      | none ↦ none
      | some link ↦ elim (decode_links fuel rest) [
        | none ↦ none
        | some (links, end) ↦ some (link ∷ links, end)
      ]
    ]
  ]
]

close_node : List PbLink → Option (Bytes × Bytes) → Option (List PbLink × Bytes)
close_node links (some (content, [])) = some (links, content)
close_node links _ = none

-- The links, then the data field, and nothing behind it.
unfoldable pub decode_pb_node : Bytes → Option (List PbLink × Bytes)
unfolding close_node
decode_pb_node bs = elim (decode_links (suc (length bs)) bs) [
  | none ↦ none
  | some (links, rest) ↦ close_node links (optional_field 0x0a rest)
]

abbrev links_part : List PbLink → Bytes
links_part [] = []
links_part (l ∷ ls) =
    0x12 ∷ (append_varint [] (length (encode_pb_link l)) ++ (encode_pb_link l ++ links_part ls))

append_links_lem :
    (links : List PbLink) (buf : Bytes) → append_links buf links ≡ buf ++ links_part links
unfolding append_links
append_links_lem [] buf = sym (append-nil buf)
append_links_lem (l ∷ ls) buf =
    let e : Bytes = encode_pb_link l in
    let n : Bytes = append_varint [] (length e) in
    append_links_lem ls (append_field buf 0x12 e)
    ∙ ap (λ (z : Bytes). z ++ links_part ls) (append_field_lem buf 0x12 e)
    ∙ append_assoc buf (0x12 ∷ (n ++ e)) (links_part ls)
    ∙ ap (λ (z : Bytes). buf ++ (0x12 ∷ z)) (append_assoc n e (links_part ls))

encode_pb_node_lem :
    (links : List PbLink) (content : Bytes)
    → encode_pb_node links content ≡ links_part links ++ field_part 0x0a content
unfolding encode_pb_node
encode_pb_node_lem links content = ground (
  arith,
  append_links_lem links [],
  append_field_lem (links_part links) 0x0a content,
  append-nil (links_part links),
)

length-links_part : (links : List PbLink) → length links ≤ length (links_part links)
length-links_part [] = omega arith
length-links_part (l ∷ ls) = omega (
  arith,
  length-links_part ls,
  length-append (append_varint [] (length (encode_pb_link l))) (encode_pb_link l ++ links_part ls),
  length-append (encode_pb_link l) (links_part ls),
)

decode_links_lem :
    (links : List PbLink) (fuel : ℕ) (rest : Bytes)
    → All IsEncodable links
    → length links < fuel
    → starts 0x12 rest ≡ false
    → decode_links fuel (links_part links ++ rest) ≡ some (links, rest)
unfolding decode_links
decode_links_lem links zero rest h f k = absurd (omega arith)
decode_links_lem [] (suc fuel) rest h f k = ground (arith, k)
decode_links_lem (l ∷ ls) (suc fuel) rest (hl, hs) f k =
    let e : Bytes = encode_pb_link l in
    ground (
      arith,
      append_assoc (append_varint [] (length e)) (e ++ links_part ls) rest,
      append_assoc e (links_part ls) rest,
      read_varint-append_varint (length e) (e ++ (links_part ls ++ rest)) hl.3,
      cut_append e (links_part ls ++ rest),
      decode-encode_pb_link l hl,
      decode_links_lem ls fuel rest hs (omega arith) k,
      starts_key (append_varint [] (length e) ++ (e ++ (links_part ls ++ rest))),
    )

-- A node whose links fit into the format, and whose data are shorter than 2^64 bytes, is read back
-- from its encoding: its links in order, with their hashes, names and sizes, and its data.
pub decode-encode_pb_node :
    (links : List PbLink) (content : Bytes)
    → All IsEncodable links
    → length content < 2 ^ 64
    → decode_pb_node (encode_pb_node links content) ≡ some (links, content)
unfolding decode_pb_node
decode-encode_pb_node links content h n = rw (encode_pb_node_lem links content) (
    ground (
      arith,
      decode_links_lem links (suc (length (links_part links ++ field_part 0x0a content)))
          (field_part 0x0a content) h
          (omega (
            arith,
            length-links_part links,
            length-append (links_part links) (field_part 0x0a content),
          ))
          (starts_data content),
      optional_field_lem 0x0a content [] n (starts_nil),
      append-nil (field_part 0x0a content),
    ))
