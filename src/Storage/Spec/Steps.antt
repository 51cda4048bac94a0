-- ===== src/Storage/Spec/Steps.antt =====
-- Each call that succeeds keeps the store and the shelf together.
use ib.Prelude.{
  ℕ, ◌≡◌, refl, sym, ◌∙◌, ap, subst, ◌⊎◌, inl, inr, Str, Bytes, Dict, List, Bool, false, none, some,
  ok, lookup, insert, insert-NodupKeys, str_eq, str_eq_iff, is_empty, arith, if◌then◌else◌,
  Option-cases, Bool-cases,
}
use ib.Backup.Manifest.{Manifest}
use ib.Storage.Object.{S3, IsLawful}
use ib.Storage.Tables.{
  BlockRow, Db, Env, IsHealthy, Store, has_row, insert_node, insert_or_ignore_present,
  lookup-insert_or_ignore,
}
use ib.Storage.Block.{save_block, get_block}
use ib.Storage.Block.RoundTrip.{get_block-save_block, get_block-save_block_other}
use ib.Storage.Node.{save_node}
use ib.Storage.ManifestStore.{save_manifest}
use ib.Storage.ManifestStore.Save.{save_manifest_refs}
use ib.Storage.ManifestStore.Reading.{row_of_manifest, save_manifest_frame}
use ib.Storage.Spec.{backup_of, Shelf, put_block, put_node, put_backup, act}
use ib.Storage.Spec.Rows.{rows_of-insert, lookup-rows_of}
use ib.Storage.Spec.Tracking.{Tracks, Tracks-insert}
use ib.Storage.Spec.Refines.{
  is_some, bytes_of, Represents, save_block_frame, has_row-save_block, get_block-save_block_same,
}

no_row : (c : Str) (rows : Dict BlockRow) → has_row c rows ≡ false → lookup c rows ≡ none
unfolding has_row
no_row c rows h = ground arith

module _ (S : S3) (L : IsLawful S) (cascades : Bool) (s : Store S) (shelf : Shelf)
    (R : Represents S cascades s shelf) (e : Env) (H : IsHealthy e) where
  own_block :
      (cid : Str) (content : Bytes) (n : ℕ)
      → is_empty content ≡ false
      → (shelf.blocks cid ≡ none) ⊎ (shelf.blocks cid ≡ some content)
      → (save_block S e cid content n s).1 ≡ none
      → (e' : Env) → IsHealthy e'
      → get_block S e' cid (save_block S e cid content n s).0 ≡ ok content
  own_block cid content n full (inl new) done e' H' =
      get_block-save_block S L e e' H H' cid content n s
        (no_row cid s.db.blocks (R.present cid ∙ ap is_some new)) full done
  own_block cid content n full (inr same) done e' H' =
      get_block-save_block_same S L e e' cid content n s (R.present cid ∙ ap is_some same)
        (R.reads e' H' cid content same) done

  pub put_block_step :
      (cid : Str) (content : Bytes) (n : ℕ)
      → is_empty content ≡ false
      → (shelf.blocks cid ≡ none) ⊎ (shelf.blocks cid ≡ some content)
      → (save_block S e cid content n s).1 ≡ none
      → Represents S cascades
          (save_block S e cid content n s).0
          (act cascades (put_block cid content n) shelf)
  unfolding act
  put_block_step cid content n full fits done =
      let s' : Store S = (save_block S e cid content n s).0 in
      let frame : s'.db ≡ record (s.db) { blocks = s'.db.blocks } =
        save_block_frame S L e cid content n s in
      record {
        setting = ap (λ (d : Db). d.foreign_keys) frame ∙ R.setting;
        present = λ c. ground (arith, has_row-save_block S L e cid content n s c done, R.present c);
        reads = λ e' H' c d q. elim (Bool-cases (str_eq c cid)) [
          | inl t ↦
              subst (λ k. get_block S e' k s' ≡ ok d) (sym ((str_eq_iff c cid).0 t))
                (own_block cid content n full fits done e' H' ∙ ground (arith, t, q))
          | inr f ↦
              get_block-save_block_other S L e e' c cid content n s f
              ∙ R.reads e' H' c d (ground (arith, f))
        ];
        node_bytes = λ c. ap (λ (d : Db). bytes_of (lookup c d.nodes)) frame ∙ R.node_bytes c;
        table = ap (λ (d : Db). d.manifests) frame ∙ R.table;
        distinct = R.distinct;
        tracked_blocks =
            subst (λ refs. Tracks cascades (λ b. b.blocks) refs shelf.backups shelf.pinned)
              (sym (ap (λ (d : Db). d.block_refs) frame)) R.tracked_blocks;
        tracked_nodes =
            subst (λ refs. Tracks cascades (λ b. b.nodes) refs shelf.backups shelf.pinned)
              (sym (ap (λ (d : Db). d.node_refs) frame)) R.tracked_nodes;
      }

  save_node_frame :
      (cid : Str) (content : Bytes)
      → let after : Store S = (save_node S e cid content s).0 in
        after ≡ record s { db = record (s.db) { nodes = after.db.nodes } }
  unfolding save_node
  save_node_frame cid content = ground arith

  save_node_nodes :
      (cid : Str) (content : Bytes) (c : Str)
      → bytes_of (lookup c (save_node S e cid content s).0.db.nodes)
        ≡ elim (bytes_of (lookup c s.db.nodes)) [
          | some old ↦ some old
          | none ↦ if str_eq c cid then some content else none
        ]
  unfolding save_node
  save_node_nodes cid content c = elim (Option-cases (lookup cid s.db.nodes)) [
    | inl q ↦ ground (
      arith,
      H.no_error insert_node,
      q,
      str_eq_iff c cid,
      ap (λ k. lookup k s.db.nodes) {x = c} {y = cid},
      lookup-insert_or_ignore c cid (record { node_data = content; created_at = e.now }) s.db.nodes
          q,
    )
    | inr (row, q) ↦ ground (
      arith,
      H.no_error insert_node,
      q,
      str_eq_iff c cid,
      ap (λ k. lookup k s.db.nodes) {x = c} {y = cid},
      insert_or_ignore_present cid (record { node_data = content; created_at = e.now }) row
          s.db.nodes q,
    )
  ]

  pub put_node_step :
      (cid : Str) (content : Bytes)
      → Represents S cascades
          (save_node S e cid content s).0
          (act cascades (put_node cid content) shelf)
  unfolding act get_block
  put_node_step cid content =
      let frame = save_node_frame cid content in
      record {
        setting = ap (λ (t : Store S). t.db.foreign_keys) frame ∙ R.setting;
        present = λ c. ap (λ (t : Store S). has_row c t.db.blocks) frame ∙ R.present c;
        reads = λ e' H' c d q. ap (get_block S e' c) frame ∙ R.reads e' H' c d q;
        node_bytes = λ c. rw (save_node_nodes cid content c, R.node_bytes c) refl;
        table = ap (λ (t : Store S). t.db.manifests) frame ∙ R.table;
        distinct = R.distinct;
        tracked_blocks =
            subst (λ refs. Tracks cascades (λ b. b.blocks) refs shelf.backups shelf.pinned)
              (sym (ap (λ (t : Store S). t.db.block_refs) frame)) R.tracked_blocks;
        tracked_nodes =
            subst (λ refs. Tracks cascades (λ b. b.nodes) refs shelf.backups shelf.pinned)
              (sym (ap (λ (t : Store S). t.db.node_refs) frame)) R.tracked_nodes;
      }

  fresh_id :
      (m : Manifest) (content : Bytes) (cids : List Str)
      → (save_manifest S e m content cids s).1 ≡ none
      → lookup m.id shelf.backups ≡ none
  fresh_id m content cids done = ground (
    arith,
    (save_manifest_refs S e m content cids s m.id m.id done).0,
    ap (lookup m.id) R.table,
    lookup-rows_of m.id shelf.backups,
  )

  pub put_backup_step :
      (m : Manifest) (content : Bytes) (cids : List Str)
      → (save_manifest S e m content cids s).1 ≡ none
      → Represents S cascades
          (save_manifest S e m content cids s).0
          (act cascades (put_backup m content cids) shelf)
  unfolding act get_block
  put_backup_step m content cids done =
      let s' : Store S = (save_manifest S e m content cids s).0 in
      let frame = save_manifest_frame S e m content cids s done in
      let b = backup_of m content cids in
      record {
        setting = ap (λ (t : Store S). t.db.foreign_keys) frame ∙ R.setting;
        present = λ c. ap (λ (t : Store S). has_row c t.db.blocks) frame ∙ R.present c;
        reads = λ e' H' c d q. ap (get_block S e' c) frame ∙ R.reads e' H' c d q;
        node_bytes =
            λ c. ap (λ (t : Store S). bytes_of (lookup c t.db.nodes)) frame ∙ R.node_bytes c;
        table =
            ap (λ (t : Store S). t.db.manifests) frame
            ∙ ap (insert m.id (row_of_manifest m content)) R.table
            ∙ rows_of-insert m content cids shelf.backups;
        distinct = insert-NodupKeys m.id b shelf.backups R.distinct;
        tracked_blocks =
            Tracks-insert cascades (λ b. b.blocks) s.db.block_refs shelf.backups shelf.pinned
              R.tracked_blocks m.id b s'.db.block_refs (fresh_id m content cids done)
              (λ i c. (save_manifest_refs S e m content cids s i c done).2);
        tracked_nodes =
            Tracks-insert cascades (λ b. b.nodes) s.db.node_refs shelf.backups shelf.pinned
              R.tracked_nodes m.id b s'.db.node_refs (fresh_id m content cids done)
              (λ i c. (save_manifest_refs S e m content cids s i c done).3);
      }
