-- ===== src/Ipfs/ManifestDag/Directories.antt =====
-- What building a directory's node leaves in the store: a node with a link for each name.
use ib.Prelude.{
  ◌^◌, ◌<◌, ◌≡◌, refl, sym, subst, ap, ◌∙◌, Str, Bytes, Dict, List, [], ◌∷◌, ◌++◌, none, some, ok,
  length, All, All-append, lookup, inl, inr, Option-cases, arith,
}
use ib.Backup.Manifest.{Entry}
use ib.Storage.Object.{S3}
use ib.Storage.Tables.{Env, NodeRow}
use ib.Ipfs.Dag.{
  Cids, DagNode, DirEntry, PbLink, encode_unixfs_directory, encode_pb_node, build_dir_node,
  dir_links,
}
use ib.Ipfs.Dag.Node.{decode_pb_node, decode-encode_pb_node}
use ib.Ipfs.ManifestDag.Tree.{DirNode, dir_node, Children, no_children, child, calculate_dir_size}
use ib.Ipfs.ManifestDag.{
  NodeCollector, collect_node, file_dir_entries, save_dir, build_dir_node_recursive, build_children,
}
use ib.Ipfs.ManifestDag.Order.{child_at, IsTree, AreChildren}
use ib.Ipfs.ManifestDag.Named.{
  IsCollisionFree, IsNamed, Grows, Keeps, Keeps-refl, Keeps-trans, collect_node-Keeps,
  collect_node-row,
}
use ib.Ipfs.ManifestDag.Links.{
  find_link, IsSlight, HasShortCids, LinksTo, dir_links-IsEncodable, find_link_next,
  file_dir_entries-IsSlight,
}
use ib.Ipfs.ManifestDag.Inversions.{tree_after, children_after, children-inv}
use ib.Ipfs.ManifestDag.Steps.{tree-steps, save_dir-steps, children-steps}

-- The node with the first CID has a link of this name to the second.
pub record HasLink (k : Cids) (nodes : Dict NodeRow) (c n target : Str) : Type 0 where
  pub row : NodeRow
  pub links : List PbLink
  pub content : Bytes
  pub link : PbLink
  pub stored : lookup c nodes ≡ some row
  pub reads : decode_pb_node row.node_data ≡ some (links, content)
  pub named : find_link n links ≡ some link
  pub points : link.hash ≡ k.to_bytes target

-- From the node with the first CID the names of a path lead to the last CID.
abbrev pub Leads : Cids → Dict NodeRow → Str → Str → List Str → Str → Type 0
Leads k nodes c n [] target = HasLink k nodes c n target
Leads k nodes c n (p ∷ parts) target =
    (next : Str) × HasLink k nodes c n next × Leads k nodes next p parts target

directory_short : length encode_unixfs_directory < 2 ^ 64
unfolding encode_unixfs_directory ib.Ipfs.Dag.append_varint ib.Ipfs.Dag.varint_loop
directory_short = omega arith

module _ (k : Cids) (a b : Dict NodeRow) (grows : Grows a b) where
  HasLink-Grows : {c n target : Str} → HasLink k a c n target → HasLink k b c n target
  HasLink-Grows {c} h = record {
    row = h.row;
    links = h.links;
    content = h.content;
    link = h.link;
    stored = grows c h.row h.stored;
    reads = h.reads;
    named = h.named;
    points = h.points;
  }

  pub Leads-Grows :
      (c n : Str) (parts : List Str) (target : Str)
      → Leads k a c n parts target
      → Leads k b c n parts target
  Leads-Grows c n [] target h = HasLink-Grows h
  Leads-Grows c n (p ∷ parts) target (next, h, hs) =
      (next, HasLink-Grows h, Leads-Grows next p parts target hs)

calculate_dir_size-lt : (d : DirNode) → calculate_dir_size d < 2 ^ 64
unfolding calculate_dir_size
calculate_dir_size-lt (dir_node ds files) = omega arith

module _ (S : S3) (k : Cids) (e : Env) where
  pub tree-Keeps : (d : DirNode) (nc : NodeCollector S) → Keeps S k e nc (tree_after S k e d nc)
  tree-Keeps d nc =
      tree-steps S k e (Keeps S k e) (Keeps-refl S k e) (Keeps-trans S k e)
        (collect_node-Keeps S k e) d nc

  pub children-Keeps :
      (ds : Children) (nc : NodeCollector S) → Keeps S k e nc (children_after S k e ds nc)
  children-Keeps ds nc =
      children-steps S k e (Keeps S k e) (Keeps-refl S k e) (Keeps-trans S k e)
        (collect_node-Keeps S k e) ds nc

  pub save_dir-Keeps :
      (es : List DirEntry) (nc : NodeCollector S) → Keeps S k e nc (save_dir S k e es nc).0
  save_dir-Keeps es nc =
      save_dir-steps S k e (Keeps S k e) (Keeps-refl S k e) (Keeps-trans S k e)
        (collect_node-Keeps S k e) es nc

  children-IsSlight :
      (ds : Children) (nc : NodeCollector S) (es : List DirEntry)
      → (build_children S k e ds nc).1 ≡ ok es
      → AreChildren ds
      → All IsSlight es
  unfolding build_dir_node_recursive
  children-IsSlight no_children nc es h t =
      subst (All IsSlight) {x = []} {y = es} (ground (arith, h)) tt
  children-IsSlight (child m d rest) nc es h (above, l, t, ts) =
      let (c, more, q, r, shape, _) = children-inv S k e m d rest nc es h in
      subst (All IsSlight) shape
        ((l, calculate_dir_size-lt d), children-IsSlight rest (tree_after S k e d nc) more r ts)

  -- The node that a directory is saved as.
  save_dir-row :
      (es : List DirEntry) (nc : NodeCollector S) (c : Str)
      → IsCollisionFree k
      → HasShortCids k
      → All IsSlight es
      → IsNamed k nc.saver.db.nodes
      → (save_dir S k e es nc).1 ≡ ok c
      → (row : NodeRow) × (lookup c (save_dir S k e es nc).0.saver.db.nodes ≡ some row)
        × (decode_pb_node row.node_data ≡ some (dir_links k es, encode_unixfs_directory))
  unfolding save_dir build_dir_node
  save_dir-row es nc c free short slight h made =
      let n : DagNode = build_dir_node k es in
      let nc1 : NodeCollector S = (collect_node S k e n.cid n.node_data nc).0 in
      elim (Option-cases ((collect_node S k e n.cid n.node_data nc).1)) [
        | inr (m, q) ↦ absurd (ground (arith, q, made))
        | inl q ↦
            let (row, there, same) = collect_node-row S k e n.cid n.node_data nc free h refl q in
            (
              row,
              ground (
                arith,
                q,
                made,
                there,
                ap (λ i. lookup i nc1.saver.db.nodes) {x = n.cid} {y = c},
              ),
              ap decode_pb_node same
                  ∙ decode-encode_pb_node (dir_links k es) encode_unixfs_directory
                      (dir_links-IsEncodable k es short slight) (directory_short),
            )
      ]

  -- A name without a directory is looked for behind the directories.
  pub absent_child :
      (n : Str) (ds : Children) (nc : NodeCollector S) (es behind : List DirEntry)
      → (build_children S k e ds nc).1 ≡ ok es
      → child_at n ds ≡ none
      → find_link n (dir_links k (es ++ behind)) ≡ find_link n (dir_links k behind)
  unfolding build_dir_node_recursive child_at
  absent_child n no_children nc es behind made out =
      ap (λ xs. find_link n (dir_links k (xs ++ behind))) {x = es} {y = []} (ground (arith, made))
  absent_child n (child m d rest) nc es behind made out =
      let (c, more, q, r, shape, _) = children-inv S k e m d rest nc es made in
      ap (λ xs. find_link n (dir_links k (xs ++ behind))) (sym shape)
      ∙ find_link_next k n (record { name = m; cid = c; size = calculate_dir_size d })
          (more ++ behind) (ground (arith, out))
      ∙ absent_child n rest (tree_after S k e d nc) more behind r (ground (arith, out))

  pub dir-HasLink :
      (ds : Children) (files : Dict Entry) (nc : NodeCollector S) (c : Str) (es : List DirEntry)
      (n target : Str)
      → IsCollisionFree k
      → HasShortCids k
      → (build_children S k e ds nc).1 ≡ ok es
      → (save_dir S k e (es ++ file_dir_entries S k e files) (children_after S k e ds nc)).1 ≡ ok c
      → IsTree (dir_node ds files)
      → IsNamed k nc.saver.db.nodes
      → LinksTo k n (es ++ file_dir_entries S k e files) target
      → HasLink k
          (save_dir S k e
            (es ++ file_dir_entries S k e files)
            (children_after S k e ds nc)).0.saver.db.nodes
          c
          n
          target
  dir-HasLink ds files nc c es n target free short q saved t h (l, found, points) =
      let all : List DirEntry = es ++ file_dir_entries S k e files in
      let slight : All IsSlight all =
        All-append IsSlight es (file_dir_entries S k e files) (children-IsSlight ds nc es q t.0)
          (file_dir_entries-IsSlight S k e files t.1) in
      let (row, stored, reads) =
        save_dir-row all (children_after S k e ds nc) c free short slight
          ((children-Keeps ds nc).named h) saved in
      record {
        row = row;
        links = dir_links k all;
        content = encode_unixfs_directory;
        link = l;
        stored = stored;
        reads = reads;
        named = found;
        points = points;
      }
