-- ===== src/Ipfs/ManifestDag/Contents.antt =====
-- From a manifest's root the path of a file leads to its contents.
use ib.Prelude.{
  ◌^◌, ◌<◌, ◌≡◌, sym, subst, ap, ◌∙◌, Str, Bytes, Dict, List, [], ◌∷◌, ◌++◌, false, ok, length, All,
  All-append, All-split, split, is_empty, arith,
}
use ib.Backup.Manifest.{FileType, file, Entry, Manifest}
use ib.Storage.Object.{S3}
use ib.Storage.Tables.{Env, NodeRow}
use ib.Ipfs.Dag.{Cids}
use ib.Ipfs.ManifestDag.Tree.{build_tree}
use ib.Ipfs.ManifestDag.{NodeCollector, file_cid, file_type_cid, process_files, build_manifest_dag}
use ib.Ipfs.ManifestDag.Look.{is_dir}
use ib.Ipfs.ManifestDag.Placed.{IsSmall, IsElsewhere}
use ib.Ipfs.ManifestDag.Named.{IsCollisionFree, IsNamed, Grows, Keeps, Keeps-trans}
use ib.Ipfs.ManifestDag.Links.{HasShortCids}
use ib.Ipfs.ManifestDag.Blocks.{IsFileNode, IsFileNode-Grows, file_cid-IsFileNode}
use ib.Ipfs.ManifestDag.Files.{Place, files-Place, files_after, file-Keeps, All-SameFiles}
use ib.Ipfs.ManifestDag.Directories.{Leads, tree-Keeps}
use ib.Ipfs.ManifestDag.Inversions.{build_manifest_dag-inv, tree_after}
use ib.Ipfs.ManifestDag.Paths.{build_manifest_dag-Leads}

-- The texts of CIDs, in the way that go-cid writes them: not empty, and read back.
abbrev pub HasNodeCids : Cids → Type 0
HasNodeCids k =
    (b : Bytes) → (is_empty (k.dag_pb b) ≡ false) × (k.decode (k.dag_pb b) ≡ ok (k.dag_pb b))

abbrev pub IsCid : Cids → Str → Type 0
IsCid k b = (is_empty b ≡ false) × ((c : Str) × (k.decode b ≡ ok c))

-- The CID of the only block, or of a node that links to the blocks in order.
abbrev pub HoldsFile : Cids → Dict NodeRow → Str → Str → List Str → Type 0
HoldsFile k nodes c b [] = k.decode b ≡ ok c
HoldsFile k nodes c b (d ∷ blocks) = IsFileNode k nodes c (b ∷ d ∷ blocks)

module _ (S : S3) (k : Cids) (e : Env) where
  file-cid :
      (t : FileType) (x : Entry) (b : Str) (blocks : List Str) (nc : NodeCollector S)
      → t ≡ file
      → x.blocks ≡ b ∷ blocks
      → file_type_cid S k e t x nc ≡ file_cid S k e x (b ∷ blocks) nc
  unfolding file_type_cid
  file-cid t x b blocks nc is has =
      ap (λ z. file_type_cid S k e z x nc) is ∙ ap (λ bs. file_cid S k e x bs nc) has

  HoldsFile-Grows :
      (a z : Dict NodeRow) (c b : Str) (blocks : List Str)
      → Grows a z
      → HoldsFile k a c b blocks
      → HoldsFile k z c b blocks
  HoldsFile-Grows a z c b [] grows h = h
  HoldsFile-Grows a z c b (d ∷ blocks) grows h = IsFileNode-Grows k a z c (b ∷ d ∷ blocks) grows h

  -- The CID that the first loop gives a file.
  file_cid-HoldsFile :
      (x : Entry) (b : Str) (blocks : List Str) (nc : NodeCollector S) (c : Str)
      → IsCollisionFree k
      → HasShortCids k
      → HasNodeCids k
      → IsCid k b
      → length blocks < 2 ^ 31
      → IsNamed k nc.saver.db.nodes
      → IsNamed k (file_cid S k e x (b ∷ blocks) nc).0.saver.db.nodes
      → (file_cid S k e x (b ∷ blocks) nc).1 ≡ ok c
      → (target : Str) × (is_empty c ≡ false)
        × (k.decode c ≡ ok target)
        × HoldsFile k (file_cid S k e x (b ∷ blocks) nc).0.saver.db.nodes target b blocks
  unfolding file_cid
  file_cid-HoldsFile x b [] nc c free short texts (full, (t, valid)) few h end made =
      let e : b ≡ c = ground (arith, made) in
      (t, subst (λ z. is_empty z ≡ false) e full, subst (λ z. k.decode z ≡ ok t) e valid, valid)
  file_cid-HoldsFile x b (d ∷ blocks) nc c free short texts is few h end made =
      let node = file_cid-IsFileNode S k e x b d blocks nc c free short (omega arith) h made in
      let named : k.dag_pb node.row.node_data ≡ c = end c node.row node.stored in
      let (full, valid) = texts node.row.node_data in
      (
        c,
        subst (λ z. is_empty z ≡ false) named full,
        subst (λ z. k.decode z ≡ ok z) named valid,
        node,
      )

  -- What is stored in the first loop stays.
  filed-Grows :
      (m m' : Manifest) (nc filed : NodeCollector S) (xs : List Entry)
      → (build_manifest_dag S k e m nc).1 ≡ ok m'
      → m.entries ≡ xs
      → Keeps S k e filed (files_after S k e xs nc)
      → Grows filed.saver.db.nodes (build_manifest_dag S k e m nc).0.saver.db.nodes
  filed-Grows m m' nc filed xs made is first =
      let (es, _, _, _, _, _, end) = build_manifest_dag-inv S k e m m' nc made in
      let files : NodeCollector S = files_after S k e m.entries nc in
      let all : Keeps S k e filed (tree_after S k e (build_tree es) files) =
        Keeps-trans S k e filed files _
          (subst (λ zs. Keeps S k e filed (files_after S k e zs nc)) (sym is) first)
          (tree-Keeps S k e (build_tree es) files) in
      subst (λ z. Grows filed.saver.db.nodes z.saver.db.nodes) end all.grows

  -- If BuildManifestDAG returns no error, the clean path of a file with blocks leads from the
  -- manifest's root CID, by a link of a saved node for each name, to the file's only block or to a
  -- saved node whose links are the file's blocks in order. No other entry has the path or lies below
  -- it, the entries and their number of blocks fit into the format, and no two nodes have one CID.
  pub build_manifest_dag-HoldsFile :
      (m m' : Manifest) (nc : NodeCollector S) (xs ys : List Entry) (x : Entry) (n : Str)
      (parts : List Str) (b : Str) (blocks : List Str)
      → IsCollisionFree k
      → HasShortCids k
      → HasNodeCids k
      → IsNamed k nc.saver.db.nodes
      → (build_manifest_dag S k e m nc).1 ≡ ok m'
      → m.entries ≡ xs ++ (x ∷ ys)
      → All IsSmall (xs ++ (x ∷ ys))
      → x.type ≡ file
      → split b'/' x.path ≡ n ∷ parts
      → All (λ p. is_empty p ≡ false) (n ∷ parts)
      → All (IsElsewhere n parts) (xs ++ ys)
      → x.blocks ≡ b ∷ blocks
      → IsCid k b
      → length blocks < 2 ^ 31
      → (target : Str) × Leads k
          (build_manifest_dag S k e m nc).0.saver.db.nodes
          m'.root_cid
          n
          parts
          target
        × HoldsFile k (build_manifest_dag S k e m nc).0.saver.db.nodes target b blocks
  build_manifest_dag-HoldsFile m m' nc xs ys x n parts b blocks free short texts h made is small t
        path clean out has valid few =
      let (es, root, q, r, is_es, _, _) = build_manifest_dag-inv S k e m m' nc made in
      let p : Place S k e nc xs x ys es =
        files-Place S k e xs x ys nc es
          (subst (λ zs. (process_files S k e zs nc).1 ≡ ok es) is q) in
      let at = p.reached in
      let same = file-cid x.type x b blocks at t has in
      let filed : NodeCollector S = (file_cid S k e x (b ∷ blocks) at).0 in
      let step : Keeps S k e at filed =
        subst (λ z. Keeps S k e at z.0) same (file-Keeps S k e x at) in
      let (target, full, decoded, holds) =
        file_cid-HoldsFile x b blocks at p.cid free short texts valid few (p.start.named h)
          (step.named (p.start.named h)) (ap (λ z. z.1) (sym same) ∙ p.made) in
      let x' : Entry = record x { cid = p.cid } in
      let (small_before, (small_x, small_behind)) = All-split IsSmall xs (x ∷ ys) small in
      let (out_before, out_behind) = All-split (IsElsewhere n parts) xs ys out in
      let small' : All IsSmall (p.before ++ (x' ∷ p.behind)) =
        All-append IsSmall p.before (x' ∷ p.behind)
          (All-SameFiles IsSmall (λ y c hy. hy) xs p.before p.same_before small_before)
          (small_x, All-SameFiles IsSmall (λ y c hy. hy) ys p.behind p.same_behind small_behind) in
      (
        target,
        build_manifest_dag-Leads S k e free short x' target full decoded m m' nc p.before p.behind n
            parts h made (sym is_es ∙ p.is) small' path clean (ap is_dir t)
            (All-SameFiles (IsElsewhere n parts) (λ y c hy. hy) xs p.before p.same_before
              out_before)
            (All-SameFiles (IsElsewhere n parts) (λ y c hy. hy) ys p.behind p.same_behind
              out_behind),
        HoldsFile-Grows filed.saver.db.nodes (build_manifest_dag S k e m nc).0.saver.db.nodes target
            b blocks
            (filed-Grows m m' nc filed (xs ++ (x ∷ ys)) made is
              (subst (λ z. Keeps S k e z.0 (files_after S k e (xs ++ (x ∷ ys)) nc)) same p.end))
            holds,
      )
