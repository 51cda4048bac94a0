-- ===== src/Ipfs/ManifestDag/Paths.antt =====
-- Paths of a manifest lead through the saved nodes to the CIDs of its entries.
use ib.Prelude.{
  ◌≡◌, sym, subst, ap, ◌∙◌, Str, List, [], ◌∷◌, ◌++◌, false, some, ok, All, split, str_eq, is_empty,
  inl, inr, Bool-cases, Option-cases, arith,
}
use ib.Backup.Manifest.{Entry, Manifest}
use ib.Storage.Object.{S3}
use ib.Storage.Tables.{Env}
use ib.Ipfs.Dag.{Cids, DirEntry, dir_links}
use ib.Ipfs.ManifestDag.Tree.{
  DirNode, dir_node, Children, no_children, child, build_tree, calculate_dir_size,
}
use ib.Ipfs.ManifestDag.{
  NodeCollector, process_files, file_dir_entries, save_dir, build_dir_node_recursive,
  build_children, build_manifest_dag,
}
use ib.Ipfs.ManifestDag.Order.{child_at, IsTree, AreChildren}
use ib.Ipfs.ManifestDag.Look.{a_file, look, is_dir}
use ib.Ipfs.ManifestDag.Placed.{IsSmall, IsElsewhere, build_tree-IsTree, look-build_tree}
use ib.Ipfs.ManifestDag.Named.{
  IsCollisionFree, IsNamed, Keeps, Keeps-refl, Keeps-trans, collect_node-Keeps,
}
use ib.Ipfs.ManifestDag.Links.{
  find_link, HasShortCids, LinksTo, LinksTo-here, find_link_next, LinksTo-file,
}
use ib.Ipfs.ManifestDag.Steps.{process_files-steps}
use ib.Ipfs.ManifestDag.Directories.{
  HasLink, Leads, Leads-Grows, tree-Keeps, children-Keeps, save_dir-Keeps, absent_child,
  dir-HasLink,
}
use ib.Ipfs.ManifestDag.Inversions.{
  tree_after, children_after, children-inv, tree-inv, build_manifest_dag-inv,
}

module _ (S : S3) (k : Cids) (e : Env) where
  module _ (free : IsCollisionFree k) (short : HasShortCids k) (x : Entry) (target : Str)
      (full : is_empty x.cid ≡ false) (valid : k.decode x.cid ≡ ok target) where
    mutual
      unfolding build_dir_node_recursive look child_at

      -- What the tree has at a path is reached from the tree's node.
      pub tree-Leads :
          (d : DirNode) (nc : NodeCollector S) (c n : Str) (parts : List Str)
          → (build_dir_node_recursive S k e d nc).1 ≡ ok c
          → IsTree d
          → IsNamed k nc.saver.db.nodes
          → look n parts d ≡ a_file x
          → Leads k (tree_after S k e d nc).saver.db.nodes c n parts target
      tree-Leads (dir_node ds files) nc c n [] made t h there =
          let (es, q, saved, after) = tree-inv S k e ds files nc c made in
          let behind : List DirEntry = file_dir_entries S k e files in
          elim (Option-cases (child_at n ds)) [
            | inr (d, out) ↦ absurd (ground (arith, out, there))
            | inl out ↦
                let (l, found, points) =
                  LinksTo-file S k e n target x files (ground (arith, out, there)) full valid in
                subst (λ z. HasLink k z.saver.db.nodes c n target) after
                  (dir-HasLink S k e ds files nc c es n target free short q saved t h
                    (l, absent_child S k e n ds nc es behind q out ∙ found, points))
          ]
      tree-Leads (dir_node ds files) nc c n (p ∷ ps) made t h there =
          let (es, q, saved, after) = tree-inv S k e ds files nc c made in
          let behind : List DirEntry = file_dir_entries S k e files in
          let nc1 : NodeCollector S = children_after S k e ds nc in
          elim (Option-cases (child_at n ds)) [
            | inl out ↦ absurd (ground (arith, out, there))
            | inr (d, here) ↦
                let (next, link, leads) =
                  children-Leads ds nc es behind d n p ps q t.0 h here
                    (ground (arith, here, there)) in
                subst (λ z. Leads k z.saver.db.nodes c n (p ∷ ps) target) after
                  (
                    next,
                    dir-HasLink S k e ds files nc c es n next free short q saved t h link,
                    Leads-Grows k nc1.saver.db.nodes
                        (save_dir S k e (es ++ behind) nc1).0.saver.db.nodes
                        (save_dir-Keeps S k e (es ++ behind) nc1).grows next p ps target leads,
                  )
          ]

      children-Leads :
          (ds : Children) (nc : NodeCollector S) (es behind : List DirEntry) (d : DirNode)
          (n p : Str) (ps : List Str)
          → (build_children S k e ds nc).1 ≡ ok es
          → AreChildren ds
          → IsNamed k nc.saver.db.nodes
          → child_at n ds ≡ some d
          → look p ps d ≡ a_file x
          → (c : Str) × LinksTo k n (es ++ behind) c
            × Leads k (children_after S k e ds nc).saver.db.nodes c p ps target
      children-Leads no_children nc es behind d n p ps made t h here there = absurd (cc)
      children-Leads (child m d' rest) nc es behind d n p ps made (above, l, t, ts) h here there =
          let (c, more, q, r, shape, after) = children-inv S k e m d' rest nc es made in
          let nc1 : NodeCollector S = tree_after S k e d' nc in
          let first : DirEntry = record { name = m; cid = c; size = calculate_dir_size d' } in
          elim (Bool-cases (str_eq n m)) [
            | inl here' ↦ (
              c,
              subst (λ xs. LinksTo k n (xs ++ behind) c) shape
                  (LinksTo-here k n first (more ++ behind) here'),
              subst (λ z. Leads k z.saver.db.nodes c p ps target) after
                  (Leads-Grows k nc1.saver.db.nodes (children_after S k e rest nc1).saver.db.nodes
                    (children-Keeps S k e rest nc1).grows c p ps target
                    (tree-Leads d' nc c p ps q t h
                      (ground (arith, here, here', there, ap (look p ps) {x = d'} {y = d})))),
            )
            | inr past ↦
                let (next, (link, found, points), leads) =
                  children-Leads rest nc1 more behind d n p ps r ts
                    ((tree-Keeps S k e d' nc).named h) (ground (arith, past, here)) there in
                (
                  next,
                  (
                    link,
                    ap (λ xs. find_link n (dir_links k (xs ++ behind))) (sym shape)
                        ∙ find_link_next k n first (more ++ behind) past
                        ∙ found,
                    points,
                  ),
                  subst (λ z. Leads k z.saver.db.nodes next p ps target) after leads,
                )
          ]

    -- If BuildManifestDAG returns no error, the path of an entry leads from the manifest's root CID
    -- through the saved nodes to the entry's CID.
    pub build_manifest_dag-Leads :
        (m m' : Manifest) (nc : NodeCollector S) (xs ys : List Entry) (n : Str) (parts : List Str)
        → IsNamed k nc.saver.db.nodes
        → (build_manifest_dag S k e m nc).1 ≡ ok m'
        → m'.entries ≡ xs ++ (x ∷ ys)
        → All IsSmall (xs ++ (x ∷ ys))
        → split b'/' x.path ≡ n ∷ parts
        → All (λ p. is_empty p ≡ false) (n ∷ parts)
        → is_dir x.type ≡ false
        → All (IsElsewhere n parts) xs
        → All (IsElsewhere n parts) ys
        → Leads k (build_manifest_dag S k e m nc).0.saver.db.nodes m'.root_cid n parts target
    build_manifest_dag-Leads m m' nc xs ys n parts h made is small path clean t before after =
        let (es, root, q, r, is_es, is_root, end) = build_manifest_dag-inv S k e m m' nc made in
        let nc1 : NodeCollector S = (process_files S k e m.entries nc).0 in
        let keeps : Keeps S k e nc nc1 =
          process_files-steps S k e (Keeps S k e) (Keeps-refl S k e) (Keeps-trans S k e)
            (collect_node-Keeps S k e) m.entries nc in
        let tree : build_tree (xs ++ (x ∷ ys)) ≡ build_tree es =
          ap build_tree (sym is ∙ sym is_es) in
        subst (λ z. Leads k z.saver.db.nodes m'.root_cid n parts target) end
          (subst
            (λ c. Leads k (tree_after S k e (build_tree es) nc1).saver.db.nodes c n parts target)
            is_root
            (tree-Leads (build_tree es) nc1 root n parts r
              (subst IsTree tree (build_tree-IsTree (xs ++ (x ∷ ys)) small)) (keeps.named h)
              (ap (look n parts) (sym tree)
                ∙ look-build_tree xs ys x n parts small path clean t before after)))
