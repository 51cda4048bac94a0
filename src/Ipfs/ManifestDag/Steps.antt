-- ===== src/Ipfs/ManifestDag/Steps.antt =====
-- What relates a collector to the one after each SaveNode relates it to the one at the end, also if
-- the building stops at an error.
use ib.Prelude.{
  ℕ, ◌≡◌, refl, subst, Str, Bytes, List, [], ◌∷◌, ◌++◌, none, some, ok, inl, inr, Result-cases,
  arith,
}
use ib.Backup.Manifest.{FileType, file, Entry, Manifest}
use ib.Storage.Object.{S3}
use ib.Storage.Tables.{Env}
use ib.Ipfs.Dag.{Cids, DagNode, DirEntry, build_file_node, build_dir_node}
use ib.Ipfs.ManifestDag.Tree.{DirNode, dir_node, Children, no_children, child, build_tree}
use ib.Ipfs.ManifestDag.{
  NodeCollector, block_sizes, collect_node, file_cid, file_type_cid, process_files,
  file_dir_entries, save_dir, build_dir_node_recursive, build_children, build_manifest_dag,
}

module _ (k : Cids) where
  -- A node has the CID of its data.
  pub build_dir_node-cid :
      (es : List DirEntry) → (build_dir_node k es).cid ≡ k.dag_pb (build_dir_node k es).node_data
  unfolding build_dir_node
  build_dir_node-cid es = refl

  build_file_node-cid :
      (cids : List Str) (sizes : List ℕ) (total : ℕ) (n : DagNode)
      → build_file_node k cids sizes total ≡ ok (some n)
      → n.cid ≡ k.dag_pb n.node_data
  unfolding build_file_node
  build_file_node-cid [] sizes total n h = cc
  build_file_node-cid (c ∷ []) sizes total n h = cc
  build_file_node-cid (c ∷ d ∷ cids) sizes total n h = ground (arith, h)

module _ (S : S3) (k : Cids) (e : Env) (R : NodeCollector S → NodeCollector S → Type 0)
    (same : (nc : NodeCollector S) → R nc nc)
    (trans : (a b c : NodeCollector S) → R a b → R b c → R a c)
    (step : (cid : Str) (content : Bytes) (nc : NodeCollector S)
      → cid ≡ k.dag_pb content
      → R nc (collect_node S k e cid content nc).0) where
  file_cid-steps :
      (x : Entry) (cids : List Str) (nc : NodeCollector S) → R nc (file_cid S k e x cids nc).0
  unfolding file_cid
  file_cid-steps x [] nc = same nc
  file_cid-steps x (c ∷ []) nc = same nc
  file_cid-steps x (c ∷ d ∷ cids) nc =
      elim (Result-cases
        (build_file_node k (c ∷ d ∷ cids) (block_sizes x.size 0 (c ∷ d ∷ cids)) x.size)) [
          | inr (m, q) ↦ subst (R nc) (ground (arith, q)) (same nc)
          | inl (none, q) ↦ subst (R nc) (ground (arith, q)) (same nc)
          | inl (some n, q) ↦ subst (R nc) (ground (arith, q)) (
              step n.cid n.node_data nc (
                build_file_node-cid k (c ∷ d ∷ cids) (block_sizes x.size 0 (c ∷ d ∷ cids)) x.size n
                  q))
        ]

  pub file_type_cid-steps :
      (t : FileType) (x : Entry) (nc : NodeCollector S) → R nc (file_type_cid S k e t x nc).0
  unfolding file_type_cid
  file_type_cid-steps file x nc = file_cid-steps x x.blocks nc
  file_type_cid-steps _ x nc = same nc

  pub process_files-steps :
      (xs : List Entry) (nc : NodeCollector S) → R nc (process_files S k e xs nc).0
  unfolding process_files
  process_files-steps [] nc = same nc
  process_files-steps (x ∷ xs) nc =
      let nc1 : NodeCollector S = (file_type_cid S k e x.type x nc).0 in
      let first : R nc nc1 = file_type_cid-steps x.type x nc in
      elim (Result-cases ((file_type_cid S k e x.type x nc).1)) [
        | inr (m, q) ↦ subst (R nc) (ground (arith, q)) first
        | inl (c, q) ↦
            subst (R nc) (ground (arith, q)) (trans nc nc1 _ first (process_files-steps xs nc1))
      ]

  pub save_dir-steps :
      (entries : List DirEntry) (nc : NodeCollector S) → R nc (save_dir S k e entries nc).0
  unfolding save_dir
  save_dir-steps entries nc =
      let n = build_dir_node k entries in
      subst (R nc) (ground arith) (step n.cid n.node_data nc (build_dir_node-cid k entries))

  mutual
    unfolding build_dir_node_recursive

    pub tree-steps :
        (d : DirNode) (nc : NodeCollector S) → R nc (build_dir_node_recursive S k e d nc).0
    tree-steps (dir_node children files) nc =
        let nc1 : NodeCollector S = (build_children S k e children nc).0 in
        let first : R nc nc1 = children-steps children nc in
        elim (Result-cases ((build_children S k e children nc).1)) [
          | inr (m, q) ↦ subst (R nc) (ground (arith, q)) first
          | inl (es, q) ↦
              subst (R nc) (ground (arith, q))
                (trans nc nc1 _ first (save_dir-steps (es ++ file_dir_entries S k e files) nc1))
        ]

    pub children-steps :
        (ds : Children) (nc : NodeCollector S) → R nc (build_children S k e ds nc).0
    children-steps no_children nc = same nc
    children-steps (child name d rest) nc =
        let nc1 : NodeCollector S = (build_dir_node_recursive S k e d nc).0 in
        let first : R nc nc1 = tree-steps d nc in
        elim (Result-cases ((build_dir_node_recursive S k e d nc).1)) [
          | inr (m, q) ↦ subst (R nc) (ground (arith, q)) first
          | inl (c, q) ↦
              subst (R nc) (ground (arith, q)) (trans nc nc1 _ first (children-steps rest nc1))
        ]

  pub build_manifest_dag-steps :
      (m : Manifest) (nc : NodeCollector S) → R nc (build_manifest_dag S k e m nc).0
  unfolding build_manifest_dag
  build_manifest_dag-steps m nc =
      let nc1 : NodeCollector S = (process_files S k e m.entries nc).0 in
      let first : R nc nc1 = process_files-steps m.entries nc in
      elim (Result-cases ((process_files S k e m.entries nc).1)) [
        | inr (msg, q) ↦ subst (R nc) (ground (arith, q)) first
        | inl (es, q) ↦
            subst (R nc) (ground (arith, q)) (trans nc nc1 _ first (tree-steps (build_tree es) nc1))
      ]
