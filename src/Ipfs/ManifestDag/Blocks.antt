-- ===== src/Ipfs/ManifestDag/Blocks.antt =====
-- The node of a file links to its blocks.
use ib.Prelude.{
  ℕ, ◌+◌, ◌^◌, ◌<◌, ◌≡◌, refl, sym, subst, ap, ◌∙◌, Str, Bytes, Dict, List, [], ◌∷◌, Option, some,
  ok, All, length, lookup, inl, inr, Option-cases, Result-cases, arith,
}
use ib.Backup.Manifest.{Entry}
use ib.Storage.Object.{S3}
use ib.Storage.Tables.{Env, NodeRow}
use ib.Ipfs.Dag.{Cids, PbLink, encode_unixfs_file, encode_pb_node, file_links, build_file_node}
use ib.Ipfs.Dag.Node.{decode_pb_node, decode-encode_pb_node}
use ib.Ipfs.Dag.Wire.{IsEncodable}
use ib.Ipfs.Dag.Size.{small-IsEncodable, length-encode_unixfs_file}
use ib.Ipfs.ManifestDag.{NodeCollector, block_sizes, collect_node, file_cid}
use ib.Ipfs.ManifestDag.Links.{HasShortCids}
use ib.Ipfs.ManifestDag.Named.{IsCollisionFree, IsNamed, Grows, collect_node-row}

-- The links are those to the blocks, in their order.
abbrev pub PointTo : Cids → List PbLink → List Str → Type 0
PointTo k links [] = links ≡ []
PointTo k links (c ∷ cids) =
    (cid : Str) × (more : List PbLink) × (size : ℕ) × (k.decode c ≡ ok cid)
    × (links ≡ record { hash = k.to_bytes cid; name = []; tsize = size } ∷ more)
    × PointTo k more cids

-- The CID is that of a stored node with links to the blocks.
pub record IsFileNode (k : Cids) (nodes : Dict NodeRow) (c : Str) (blocks : List Str) : Type 0 where
  pub row : NodeRow
  pub links : List PbLink
  pub content : Bytes
  pub stored : lookup c nodes ≡ some row
  pub reads : decode_pb_node row.node_data ≡ some (links, content)
  pub points : PointTo k links blocks

pub IsFileNode-Grows :
    (k : Cids) (a b : Dict NodeRow) (c : Str) (blocks : List Str)
    → Grows a b
    → IsFileNode k a c blocks
    → IsFileNode k b c blocks
IsFileNode-Grows k a b c blocks grows f = record {
  row = f.row;
  links = f.links;
  content = f.content;
  stored = grows c f.row f.stored;
  reads = f.reads;
  points = f.points;
}

block_sizes-lt : (size j : ℕ) (cids : List Str) → All (λ n. n < 2 ^ 64) (block_sizes size j cids)
unfolding block_sizes
block_sizes-lt size j [] = tt
block_sizes-lt size j (c ∷ []) = (omega arith, tt)
block_sizes-lt size j (c ∷ d ∷ cids) = (omega arith, block_sizes-lt size (j + 1) (d ∷ cids))

length-block_sizes : (size j : ℕ) (cids : List Str) → length (block_sizes size j cids) ≡ length cids
unfolding block_sizes
length-block_sizes size j [] = refl
length-block_sizes size j (c ∷ []) = refl
length-block_sizes size j (c ∷ d ∷ cids) = omega (arith, length-block_sizes size (j + 1) (d ∷ cids))

module _ (k : Cids) (short : HasShortCids k) where
  file_links_lem :
      (cids : List Str) (sizes : List ℕ) (links : List PbLink)
      → All (λ n. n < 2 ^ 64) sizes
      → file_links k cids sizes ≡ ok links
      → PointTo k links cids × All IsEncodable links
  unfolding file_links
  file_links_lem [] sizes links h made =
      let e : [] ≡ links = ground (arith, made) in (sym e, subst (All IsEncodable) e tt)
  file_links_lem (c ∷ cids) [] links h made = absurd (ground (arith, made))
  file_links_lem (c ∷ cids) (n ∷ sizes) links (h, hs) made = elim (Result-cases (k.decode c)) [
    | inr (m, q) ↦ absurd (ground (arith, q, made))
    | inl (cid, q) ↦ elim (Result-cases (file_links k cids sizes)) [
      | inr (m, t) ↦ absurd (ground (arith, q, t, made))
      | inl (more, t) ↦
          let (points, fit) = file_links_lem cids sizes more hs t in
          let l : PbLink = record { hash = k.to_bytes cid; name = []; tsize = n } in
          let e : l ∷ more ≡ links = ground (arith, q, t, made) in
          (
            (cid, more, n, q, sym e, points),
            subst (All IsEncodable) e (small-IsEncodable l (short cid) (omega arith) h, fit),
          )
    ]
  ]

module _ (S : S3) (k : Cids) (e : Env) where
  pub file_cid-IsFileNode :
      (x : Entry) (c d : Str) (cids : List Str) (nc : NodeCollector S) (t : Str)
      → IsCollisionFree k
      → HasShortCids k
      → length cids < 2 ^ 32
      → IsNamed k nc.saver.db.nodes
      → (file_cid S k e x (c ∷ d ∷ cids) nc).1 ≡ ok t
      → IsFileNode k (file_cid S k e x (c ∷ d ∷ cids) nc).0.saver.db.nodes t (c ∷ d ∷ cids)
  unfolding file_cid build_file_node
  file_cid-IsFileNode x c d cids nc t free short few h made =
      let blocks : List Str = c ∷ d ∷ cids in
      let sizes : List ℕ = block_sizes x.size 0 blocks in
      elim (Result-cases (file_links k blocks sizes)) [
        | inr (m, q) ↦ absurd (ground (arith, q, made))
        | inl (links, q) ↦
            let content : Bytes = encode_unixfs_file x.size sizes in
            let encoded : Bytes = encode_pb_node links content in
            let after : NodeCollector S × Option Str =
              collect_node S k e (k.dag_pb encoded) encoded nc in
            elim (Option-cases after.1) [
              | inr (m, r) ↦ absurd (ground (arith, q, r, made))
              | inl r ↦
                  let (row, stored, same) =
                    collect_node-row S k e (k.dag_pb encoded) encoded nc free h refl r in
                  let (points, fit) =
                    file_links_lem k short blocks sizes links (block_sizes-lt x.size 0 blocks) q in
                  let node : IsFileNode k after.0.saver.db.nodes (k.dag_pb encoded) blocks =
                    record {
                      row = row;
                      links = links;
                      content = content;
                      stored = stored;
                      reads =
                          ap decode_pb_node same
                          ∙ decode-encode_pb_node links content fit (
                              omega (
                                arith,
                                length-encode_unixfs_file x.size sizes,
                                length-block_sizes x.size 0 blocks,
                              ));
                      points = points;
                    } in
                  subst (λ z. IsFileNode k z.saver.db.nodes t blocks) {x = after.0}
                    {y = (file_cid S k e x blocks nc).0} (ground (arith, q, r))
                    (subst (λ z. IsFileNode k after.0.saver.db.nodes z blocks)
                      (ground (arith, q, r, made)) node)
            ]
      ]
