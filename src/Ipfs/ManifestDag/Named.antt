-- ===== src/Ipfs/ManifestDag/Named.antt =====
-- The rows of the nodes' table while a DAG is built: a row stays, and holds the node that its CID
-- names.
use ib.Prelude.{
  ◌≡◌, refl, subst, ap, Str, Bytes, Dict, none, some, lookup, str_eq_iff, str_eq_refl, inl, inr,
  Option-cases, arith,
}
use ib.Storage.Object.{S3}
use ib.Storage.Tables.{
  Env, NodeRow, insert_node, insert_or_ignore, lookup-insert_or_ignore, insert_or_ignore_present,
}
use ib.Storage.Node.{save_node}
use ib.Ipfs.Dag.{Cids}
use ib.Ipfs.ManifestDag.{NodeCollector, collect_node}

-- No two nodes have one CID, as one takes of SHA-256.
abbrev pub IsCollisionFree : Cids → Type 0
IsCollisionFree k = (a b : Bytes) → k.dag_pb a ≡ k.dag_pb b → a ≡ b

-- Each row holds the node that its CID names.
abbrev pub IsNamed : Cids → Dict NodeRow → Type 0
IsNamed k nodes = (c : Str) (row : NodeRow) → lookup c nodes ≡ some row → k.dag_pb row.node_data ≡ c

-- The rows of one table are in another.
abbrev pub Grows : Dict NodeRow → Dict NodeRow → Type 0
Grows a b = (c : Str) (row : NodeRow) → lookup c a ≡ some row → lookup c b ≡ some row

module _ (k : Cids) where
  insert-IsNamed :
      (cid : Str) (new : NodeRow) (nodes : Dict NodeRow)
      → cid ≡ k.dag_pb new.node_data
      → IsNamed k nodes
      → IsNamed k (insert_or_ignore cid new nodes)
  insert-IsNamed cid new nodes own h c row there = elim (Option-cases (lookup cid nodes)) [
    | inr (old, q) ↦ h c row (rw (insert_or_ignore_present cid new old nodes q) at there)
    | inl q ↦
        ground
          (arith, there, own, h c row, lookup-insert_or_ignore c cid new nodes q, str_eq_iff c cid)
  ]

  insert-Grows :
      (cid : Str) (new : NodeRow) (nodes : Dict NodeRow)
      → Grows nodes (insert_or_ignore cid new nodes)
  insert-Grows cid new nodes c row there = elim (Option-cases (lookup cid nodes)) [
    | inr (old, q) ↦ rw (insert_or_ignore_present cid new old nodes q) there
    | inl q ↦ ground (
      arith,
      there,
      q,
      lookup-insert_or_ignore c cid new nodes q,
      str_eq_iff c cid,
      ap (λ i. lookup i nodes) {x = c} {y = cid},
    )
  ]

  -- A row of the CID holds its data, whether it is new or not.
  insert-row :
      (cid : Str) (new : NodeRow) (nodes : Dict NodeRow)
      → IsCollisionFree k
      → cid ≡ k.dag_pb new.node_data
      → IsNamed k nodes
      → (row : NodeRow) × (lookup cid (insert_or_ignore cid new nodes) ≡ some row)
        × (row.node_data ≡ new.node_data)
  insert-row cid new nodes free own h = elim (Option-cases (lookup cid nodes)) [
    | inr (old, q) ↦ (
      old,
      rw (insert_or_ignore_present cid new old nodes q) q,
      free old.node_data new.node_data (ground (arith, own, h cid old q)),
    )
    | inl q ↦
        (new, ground (arith, lookup-insert_or_ignore cid cid new nodes q, str_eq_refl cid), refl)
  ]

module _ (S : S3) (k : Cids) (e : Env) where
  abbrev pub nodes_of : NodeCollector S → Dict NodeRow
  nodes_of nc = nc.saver.db.nodes

  -- What each step keeps.
  pub record Keeps (a b : NodeCollector S) : Type 0 where
    pub named : IsNamed k a.saver.db.nodes → IsNamed k b.saver.db.nodes
    pub grows : Grows a.saver.db.nodes b.saver.db.nodes

  pub Keeps-refl : (a : NodeCollector S) → Keeps a a
  Keeps-refl a = record { named = λ h. h; grows = λ c row h. h }

  pub Keeps-trans : (a b c : NodeCollector S) → Keeps a b → Keeps b c → Keeps a c
  Keeps-trans a b c f g = record {
    named = λ h. g.named (f.named h);
    grows = λ i row h. g.grows i row (f.grows i row h);
  }

  collect_node-nodes :
      (cid : Str) (content : Bytes) (nc : NodeCollector S)
      → e.db_error insert_node ≡ none
      → insert_or_ignore cid (record { node_data = content; created_at = e.now }) nc.saver.db.nodes
        ≡ (collect_node S k e cid content nc).0.saver.db.nodes
  unfolding collect_node save_node
  collect_node-nodes cid content nc q = ground (arith, q)

  pub collect_node-Keeps :
      (cid : Str) (content : Bytes) (nc : NodeCollector S)
      → cid ≡ k.dag_pb content
      → Keeps nc (collect_node S k e cid content nc).0
  unfolding collect_node save_node
  collect_node-Keeps cid content nc own = elim (Option-cases (e.db_error insert_node)) [
    | inr (m, q) ↦ subst (Keeps nc) (ground (arith, q)) (Keeps-refl nc)
    | inl q ↦
        let new : NodeRow = record { node_data = content; created_at = e.now } in
        record {
          named = λ h.
              subst (IsNamed k) (collect_node-nodes cid content nc q)
                (insert-IsNamed k cid new nc.saver.db.nodes own h);
          grows =
              subst (Grows nc.saver.db.nodes) (collect_node-nodes cid content nc q)
                (insert-Grows k cid new nc.saver.db.nodes);
        }
  ]

  pub collect_node-row :
      (cid : Str) (content : Bytes) (nc : NodeCollector S)
      → IsCollisionFree k
      → IsNamed k nc.saver.db.nodes
      → cid ≡ k.dag_pb content
      → (collect_node S k e cid content nc).1 ≡ none
      → (row : NodeRow) × (lookup cid (collect_node S k e cid content nc).0.saver.db.nodes
          ≡ some row)
        × (row.node_data ≡ content)
  unfolding collect_node save_node
  collect_node-row cid content nc free h own done = elim (Option-cases (e.db_error insert_node)) [
    | inr (m, q) ↦ absurd (ground (arith, q, done))
    | inl q ↦
        let new : NodeRow = record { node_data = content; created_at = e.now } in
        subst (λ nodes. (row : NodeRow) × (lookup cid nodes ≡ some row) × (row.node_data ≡ content))
          (collect_node-nodes cid content nc q) (insert-row k cid new nc.saver.db.nodes free own h)
  ]
