-- ===== src/Ipfs/ManifestDag/Saved.antt =====
-- The nodes of a manifest that the collector records are in the store.
use ib.Prelude.{
  ◌≡◌, sym, subst, Str, Bytes, [], ◌∷◌, ◌++◌, true, ◌⊎◌, ◌||◌, none, some, All, All-append, All-map,
  str_eq, str_eq_refl, inl, inr, Option-cases, arith,
}
use ib.Backup.Manifest.{Manifest}
use ib.Storage.Object.{S3}
use ib.Storage.Tables.{has_row-insert_or_ignore, Env, Store, has_row, insert_or_ignore, insert_node}
use ib.Storage.Node.{save_node}
use ib.Ipfs.Dag.{Cids}
use ib.Ipfs.ManifestDag.Steps.{build_manifest_dag-steps}
use ib.Ipfs.ManifestDag.{NodeCollector, collect_node, build_manifest_dag}

module _ (S : S3) where
  -- Each recorded CID has its row.
  abbrev pub IsSaved : NodeCollector S → Type 0
  IsSaved nc = All (λ c. has_row c nc.saver.db.nodes ≡ true) nc.node_cids

module _ (S : S3) (k : Cids) (e : Env) where
  -- What a step does: it fails and leaves all as it was, or the node is there and is recorded.
  collect_node-cases :
      (cid : Str) (content : Bytes) (nc : NodeCollector S)
      → ((m : Str) × (collect_node S k e cid content nc ≡ (nc, some m)))
        ⊎ ((s : Store S) × (collect_node S k e cid content nc
              ≡ (record { saver = s; node_cids = nc.node_cids ++ (cid ∷ []) }, none))
            × ((c : Str) → has_row c s.db.nodes ≡ (str_eq c cid || has_row c nc.saver.db.nodes)))
  unfolding collect_node save_node
  collect_node-cases cid content nc = elim (Option-cases (e.db_error insert_node)) [
    | inr (m, q) ↦ inl (m, ground (arith, q))
    | inl q ↦ inr (
      record (nc.saver) {
        db = record (nc.saver.db) {
          nodes =
              insert_or_ignore cid (record { node_data = content; created_at = e.now })
                nc.saver.db.nodes;
        };
      },
      ground (arith, q),
      λ c.
          has_row-insert_or_ignore c cid (record { node_data = content; created_at = e.now })
            nc.saver.db.nodes,
    )
  ]

  collect_node-IsSaved :
      (cid : Str) (content : Bytes) (nc : NodeCollector S)
      → IsSaved S nc
      → IsSaved S (collect_node S k e cid content nc).0
  collect_node-IsSaved cid content nc h = elim (collect_node-cases cid content nc) [
    | inl (m, q) ↦ subst (λ x. IsSaved S x.0) (sym q) h
    | inr (s, q, rows) ↦
        subst (λ x. IsSaved S x.0) (sym q)
          (All-append (λ c. has_row c s.db.nodes ≡ true) nc.node_cids (cid ∷ [])
            (All-map (λ c hc. ground (arith, rows c)) nc.node_cids h)
            (ground (arith, rows cid, str_eq_refl cid), tt))
  ]

  -- Every CID that the collector has recorded when BuildManifestDAG returns has its node in the
  -- store, on errors as well, if that held before.
  pub build_manifest_dag-IsSaved :
      (m : Manifest) (nc : NodeCollector S)
      → IsSaved S nc
      → IsSaved S (build_manifest_dag S k e m nc).0
  build_manifest_dag-IsSaved m nc h =
      build_manifest_dag-steps S k e (λ a b. IsSaved S a → IsSaved S b) (λ a x. x)
        (λ a b c f g x. g (f x)) (λ cid content a named. collect_node-IsSaved cid content a) m nc h
