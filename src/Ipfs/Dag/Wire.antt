-- ===== src/Ipfs/Dag/Wire.antt =====
-- dag-pb nodes are read back by a decoder of their protobuf format.
use ib.Prelude.{
  ℕ, ◌^◌, ◌<◌, ◌≡◌, refl, ◌∙◌, ap, Str, Bytes, [], ◌∷◌, ◌++◌, Bool, true, false, Option, none, some,
  ltb, leb, ◌==◌, arith, append_assoc, append-nil, if◌then◌else◌, length, take, drop, take-append,
  drop-append, is_empty, length-append,
}
use ib.Ipfs.Dag.{PbLink, append_varint, append_field, encode_pb_link}
use ib.Ipfs.Dag.Varint.{read_varint, read_varint-append_varint, append_varint-append}

pub starts : ℕ → Bytes → Bool
starts key [] = false
starts key (b ∷ bs) = b == key

-- The first `n` bytes, if there are as many.
pub cut : Option (ℕ × Bytes) → Option (Bytes × Bytes)
cut none = none
cut (some (n, bs)) = if leb n (length bs) then some (take n bs, drop n bs) else none

-- An optional length-delimited field at the front: its bytes, or none of them, and what follows.
unfoldable pub optional_field : ℕ → Bytes → Option (Bytes × Bytes)
unfolding starts cut
optional_field key bs = if starts key bs then cut (read_varint (drop 1 bs)) else some ([], bs)

unfoldable pub optional_varint : ℕ → Bytes → Option (ℕ × Bytes)
unfolding starts
optional_varint key bs = if starts key bs then read_varint (drop 1 bs) else some (0, bs)

close_link : Bytes → Str → Option (ℕ × Bytes) → Option PbLink
close_link hash name (some (tsize, [])) = some (record { hash = hash; name = name; tsize = tsize })
close_link hash name _ = none

-- Hash, Name and Tsize, each optional, and nothing behind them.
unfoldable pub decode_pb_link : Bytes → Option PbLink
unfolding close_link
decode_pb_link bs = elim (optional_field 0x0a bs) [
  | none ↦ none
  | some (hash, bs1) ↦ elim (optional_field 0x12 bs1) [
    | none ↦ none
    | some (name, bs2) ↦ close_link hash name (optional_varint 0x18 bs2)
  ]
]

abbrev pub field_part : ℕ → Bytes → Bytes
field_part key content =
    if is_empty content then [] else key ∷ (append_varint [] (length content) ++ content)

abbrev pub size_part : ℕ → Bytes
size_part tsize = if ltb 0 tsize then 0x18 ∷ append_varint [] tsize else []

pub append_field_lem :
    (buf : Bytes) (key : ℕ) (content : Bytes)
    → append_field buf key content ≡ buf ++ (key ∷ (append_varint [] (length content) ++ content))
unfolding append_field
append_field_lem buf key content =
    ap (λ (z : Bytes). z ++ content) (append_varint-append (buf ++ (key ∷ [])) (length content))
    ∙ append_assoc (buf ++ (key ∷ [])) (append_varint [] (length content)) content
    ∙ append_assoc buf (key ∷ []) (append_varint [] (length content) ++ content)

pub encode_pb_link_lem :
    (l : PbLink)
    → encode_pb_link l ≡ field_part 0x0a l.hash ++ (field_part 0x12 l.name ++ size_part l.tsize)
unfolding encode_pb_link
encode_pb_link_lem l =
    let p1 : Bytes = field_part 0x0a l.hash in
    let p2 : Bytes = field_part 0x12 l.name in
    ground (
      arith,
      append_field_lem [] 0x0a l.hash,
      append_field_lem p1 0x12 l.name,
      append_varint-append ((p1 ++ p2) ++ (0x18 ∷ [])) l.tsize,
      append_assoc (p1 ++ p2) (0x18 ∷ []) (append_varint [] l.tsize),
      append_assoc p1 p2 (size_part l.tsize),
      append-nil p1,
      append-nil (p1 ++ p2),
    )

pub cut_append :
    (content rest : Bytes) → cut (some (length content, content ++ rest)) ≡ some (content, rest)
unfolding cut
cut_append content rest = ground (
  arith,
  length-append content rest,
  take-append content rest (length content) refl,
  drop-append content rest (length content) refl,
)

pub optional_field_lem :
    (key : ℕ) (content rest : Bytes)
    → length content < 2 ^ 64
    → starts key rest ≡ false
    → optional_field key (field_part key content ++ rest) ≡ some (content, rest)
unfolding optional_field
optional_field_lem key [] rest h k = ground (arith, k)
optional_field_lem key (x ∷ content) rest h k = ground (
  arith,
  append_assoc (append_varint [] (length (x ∷ content))) (x ∷ content) rest,
  read_varint-append_varint (length (x ∷ content)) ((x ∷ content) ++ rest) h,
  cut_append (x ∷ content) rest,
)

-- The lengths and the size fit into a uint64.
abbrev pub IsEncodable : PbLink → Type 0
IsEncodable l =
    (length l.hash < 2 ^ 64)
    × (length l.name < 2 ^ 64)
    × (l.tsize < 2 ^ 64)
    × (length (encode_pb_link l) < 2 ^ 64)

optional_varint_lem :
    (tsize : ℕ) → tsize < 2 ^ 64 → optional_varint 0x18 (size_part tsize) ≡ some (tsize, [])
unfolding optional_varint starts
optional_varint_lem tsize h =
    ground (arith, read_varint-append_varint tsize [] h, append-nil (append_varint [] tsize))

starts_size : (tsize : ℕ) → starts 0x12 (size_part tsize) ≡ false
unfolding starts
starts_size tsize = ground arith

starts_name :
    (name : Str) (tsize : ℕ) → starts 0x0a (field_part 0x12 name ++ size_part tsize) ≡ false
unfolding starts
starts_name [] tsize = ground arith
starts_name (x ∷ name) tsize = refl

-- A link is read back from its encoding.
pub decode-encode_pb_link :
    (l : PbLink) → IsEncodable l → decode_pb_link (encode_pb_link l) ≡ some l
unfolding decode_pb_link
decode-encode_pb_link l (h, n, t, _) = rw (encode_pb_link_lem l) (
    ground (
      arith,
      optional_field_lem 0x0a l.hash (field_part 0x12 l.name ++ size_part l.tsize) h
          (starts_name l.name l.tsize),
      optional_field_lem 0x12 l.name (size_part l.tsize) n (starts_size l.tsize),
      optional_varint_lem l.tsize t,
    ))

pub starts_key : (bs : Bytes) → starts 0x12 (0x12 ∷ bs) ≡ true
unfolding starts
starts_key bs = refl

pub starts_data : (content : Bytes) → starts 0x12 (field_part 0x0a content) ≡ false
unfolding starts
starts_data [] = refl
starts_data (x ∷ content) = refl

pub starts_nil : starts 0x0a [] ≡ false
unfolding starts
starts_nil = refl
