-- ===== src/Ipfs/ManifestDag/Inversions.antt =====
-- What a building that returns no error has gone through.
use ib.Prelude.{
  ◌≡◌, Str, Bytes, Dict, List, [], ◌∷◌, ◌++◌, some, ok, lookup, inl, inr, Result-cases, arith,
}
use ib.Backup.Manifest.{Entry, Manifest}
use ib.Storage.Object.{S3}
use ib.Storage.Tables.{Env, NodeRow}
use ib.Ipfs.Dag.{Cids, DirEntry, PbLink}
use ib.Ipfs.Dag.Node.{decode_pb_node}
use ib.Ipfs.ManifestDag.Tree.{DirNode, dir_node, Children, child, build_tree, calculate_dir_size}
use ib.Ipfs.ManifestDag.{
  NodeCollector, process_files, file_dir_entries, save_dir, build_dir_node_recursive,
  build_children, build_manifest_dag,
}
use ib.Ipfs.ManifestDag.Links.{find_link}

-- The node with the first CID has a link of this name to the second.
pub record HasLink (k : Cids) (nodes : Dict NodeRow) (c n target : Str) : Type 0 where
  pub row : NodeRow
  pub links : List PbLink
  pub content : Bytes
  pub link : PbLink
  pub stored : lookup c nodes ≡ some row
  pub reads : decode_pb_node row.node_data ≡ some (links, content)
  pub named : find_link n links ≡ some link
  pub points : link.hash ≡ k.to_bytes target

-- From the node with the first CID the names of a path lead to the last CID.
abbrev pub Leads : Cids → Dict NodeRow → Str → Str → List Str → Str → Type 0
Leads k nodes c n [] target = HasLink k nodes c n target
Leads k nodes c n (p ∷ parts) target =
    (next : Str) × HasLink k nodes c n next × Leads k nodes next p parts target

module _ (S : S3) (k : Cids) (e : Env) where
  abbrev pub tree_after : DirNode → NodeCollector S → NodeCollector S
  tree_after d nc = (build_dir_node_recursive S k e d nc).0

  abbrev pub children_after : Children → NodeCollector S → NodeCollector S
  children_after ds nc = (build_children S k e ds nc).0

  -- Inversions of a building that returns no error.
  pub children-inv :
      (name : Str) (d : DirNode) (rest : Children) (nc : NodeCollector S) (es : List DirEntry)
      → (build_children S k e (child name d rest) nc).1 ≡ ok es
      → (c : Str) × (more : List DirEntry) × ((build_dir_node_recursive S k e d nc).1 ≡ ok c)
        × ((build_children S k e rest (tree_after d nc)).1 ≡ ok more)
        × (record { name = name; cid = c; size = calculate_dir_size d } ∷ more ≡ es)
        × (children_after rest (tree_after d nc) ≡ children_after (child name d rest) nc)
  unfolding build_dir_node_recursive
  children-inv name d rest nc es h = elim (Result-cases ((build_dir_node_recursive S k e d nc).1)) [
    | inr (m, q) ↦ absurd (ground (arith, q, h))
    | inl (c, q) ↦ elim (Result-cases ((build_children S k e rest (tree_after d nc)).1)) [
      | inr (m, t) ↦ absurd (ground (arith, q, t, h))
      | inl (more, t) ↦ (c, more, q, t, ground (arith, q, t, h), ground (arith, q, t))
    ]
  ]

  pub tree-inv :
      (ds : Children) (files : Dict Entry) (nc : NodeCollector S) (c : Str)
      → (build_dir_node_recursive S k e (dir_node ds files) nc).1 ≡ ok c
      → (es : List DirEntry) × ((build_children S k e ds nc).1 ≡ ok es)
        × ((save_dir S k e (es ++ file_dir_entries S k e files) (children_after ds nc)).1 ≡ ok c)
        × ((save_dir S k e (es ++ file_dir_entries S k e files) (children_after ds nc)).0
            ≡ tree_after (dir_node ds files) nc)
  unfolding build_dir_node_recursive
  tree-inv ds files nc c h = elim (Result-cases ((build_children S k e ds nc).1)) [
    | inr (m, q) ↦ absurd (ground (arith, q, h))
    | inl (es, q) ↦ (es, q, ground (arith, q, h), ground (arith, q))
  ]

  pub build_manifest_dag-inv :
      (m m' : Manifest) (nc : NodeCollector S)
      → (build_manifest_dag S k e m nc).1 ≡ ok m'
      → (es : List Entry) × (root : Str) × ((process_files S k e m.entries nc).1 ≡ ok es)
        × ((build_dir_node_recursive S k e (build_tree es) (process_files S k e m.entries nc).0).1
            ≡ ok root)
        × (es ≡ m'.entries)
        × (root ≡ m'.root_cid)
        × (tree_after (build_tree es) (process_files S k e m.entries nc).0
            ≡ (build_manifest_dag S k e m nc).0)
  unfolding build_manifest_dag
  build_manifest_dag-inv m m' nc made =
      let nc1 : NodeCollector S = (process_files S k e m.entries nc).0 in
      elim (Result-cases ((process_files S k e m.entries nc).1)) [
        | inr (msg, q) ↦ absurd (ground (arith, q, made))
        | inl (es, q) ↦
            elim (Result-cases ((build_dir_node_recursive S k e (build_tree es) nc1).1)) [
              | inr (msg, r) ↦ absurd (ground (arith, q, r, made))
              | inl (root, r) ↦ (
                es,
                root,
                q,
                r,
                ground (arith, q, r, made),
                ground (arith, q, r, made),
                ground (arith, q, r),
              )
            ]
      ]
