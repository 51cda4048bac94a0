-- ===== src/Storage/Spec/Histories.antt =====
-- A storage that is called any number of times, and the shelf that replays the calls.
use ib.Prelude.{
  ◌≡◌, refl, sym, ◌∙◌, ap, subst, inl, inr, Str, Bytes, codes, List, [], ◌∷◌, ◌++◌, Bool, Option,
  none, some, Result, ok, err, lookup, arith, Option-cases,
}
use ib.Storage.Object.{S3, IsLawful}
use ib.Storage.Tables.{
  Env, IsHealthy, Store, empty_db, has_row, has_ref, is_referenced, select_block, select_node,
  select_manifest,
}
use ib.Storage.Block.{get_block}
use ib.Storage.Node.{get_node}
use ib.Storage.ManifestStore.{get_manifest}
use ib.Storage.Block.Success.{TakesAll, save_block_succeeds}
use ib.Storage.Node.{save_node}
use ib.Storage.ManifestStore.{delete_manifest_row}
use ib.Storage.ManifestStore.Success.{save_manifest_succeeds}
use ib.Storage.Prune.Complete.{prune_manifests_exact}
use ib.Storage.Tables.{insert_node, delete_manifest}
use ib.Storage.Spec.{Shelf, Act, put_block, put_node, put_backup, delete_backup, prune_before, act}
use ib.Storage.Spec.Rows.{content_of, lookup-rows_of}
use ib.Storage.Spec.Refines.{Represents, perform, Fits}
use ib.Storage.Spec.Steps.{put_block_step, put_node_step, put_backup_step}
use ib.Storage.Spec.Dropping.{delete_backup_step, prune_before_step}

abbrev pub empty_shelf : Shelf
empty_shelf = record { blocks = λ _. none; nodes = λ _. none; backups = []; pinned = [] }

-- The calls of a history, each with what it meets.
abbrev pub History : Type 0
History = List (Env × Act)

abbrev pub replay : Bool → History → Shelf → Shelf
replay cascades [] shelf = shelf
replay cascades ((e, a) ∷ h) shelf = replay cascades h (act cascades a shelf)

-- Each call is made where it fits.
abbrev pub AllFit : Bool → History → Shelf → Type 0
AllFit cascades [] shelf = Unit
AllFit cascades ((e, a) ∷ h) shelf = Fits a shelf × AllFit cascades h (act cascades a shelf)

abbrev pub AllHealthy : History → Type 0
AllHealthy [] = Unit
AllHealthy ((e, a) ∷ h) = IsHealthy e × AllHealthy h

ok_value {ℓ} : {A : Type ℓ} {x y : A} → ok x ≡ ok y → x ≡ y
ok_value h = ground arith

-- What a reading call returns: what there is, or that there is nothing under `k`.
abbrev pub answer : Str → Str → Option Bytes → Result Bytes
answer missing k none = err (missing ++ k)
answer missing k (some d) = ok d

module _ (S : S3) where
  -- The store after the calls, or the message of the first that fails.
  unfoldable pub play : History → Store S → Result (Store S)
  unfolding perform
  play [] s = ok s
  play ((e, a) ∷ h) s =
      let (s', failure) = perform S e a s in
      let rest = play h s' in elim failure [ some m ↦ err m | none ↦ rest ]

  module _ (L : IsLawful S) (cascades : Bool) where
    perform_step :
        (e : Env) (a : Act) (s : Store S) (shelf : Shelf)
        → IsHealthy e
        → Fits a shelf
        → Represents S cascades s shelf
        → (perform S e a s).1 ≡ none
        → Represents S cascades (perform S e a s).0 (act cascades a shelf)
    unfolding perform
    perform_step e (put_block cid content n) s shelf H (full, fits) R done =
        put_block_step S L cascades s shelf R e H cid content n full fits done
    perform_step e (put_node cid content) s shelf H fits R done =
        put_node_step S L cascades s shelf R e H cid content
    perform_step e (put_backup m content cids) s shelf H fits R done =
        put_backup_step S L cascades s shelf R e H m content cids done
    perform_step e (delete_backup id) s shelf H fits R done =
        delete_backup_step S L cascades e H s shelf R id
    perform_step e (prune_before cutoff) s shelf H fits R done =
        prune_before_step S L cascades e H s shelf R cutoff

    play_step :
        (h : History) (s s' : Store S) (shelf : Shelf)
        → AllHealthy h
        → AllFit cascades h shelf
        → Represents S cascades s shelf
        → play h s ≡ ok s'
        → Represents S cascades s' (replay cascades h shelf)
    unfolding play
    play_step [] s s' shelf H fits R done =
        subst (λ t. Represents S cascades t shelf) (ok_value done) R
    play_step ((e, a) ∷ h) s s' shelf (H, Hs) (fit, fits) R done =
        elim (Option-cases ((perform S e a s).1)) [
          | inr (m, q) ↦ absurd (ground (arith, q, done))
          | inl q ↦
              play_step h ((perform S e a s).0) s' (act cascades a shelf) Hs fits
                (perform_step e a s shelf H fit R q) (ground (arith, q, done))
        ]

  pub empty-Represents :
      (cascades : Bool) (o : S.State)
      → Represents S cascades (record { db = empty_db cascades; objects = o }) empty_shelf
  unfolding has_row lookup is_referenced has_ref
  empty-Represents cascades o = record {
    setting = refl;
    present = λ c. refl;
    reads = λ e H c d q. absurd (cc);
    node_bytes = λ c. refl;
    table = refl;
    distinct = tt;
    tracked_blocks = record { counted = λ c. refl; exact = λ t i c. refl; tidy = λ t. refl };
    tracked_nodes = record { counted = λ c. refl; exact = λ t i c. refl; tidy = λ t. refl };
  }

  read_block :
      (cascades : Bool) (s : Store S) (shelf : Shelf)
      → Represents S cascades s shelf
      → (e : Env) → IsHealthy e
      → (c : Str) → get_block S e c s ≡ answer (codes "block not found: ") c (shelf.blocks c)
  unfolding get_block has_row
  read_block cascades s shelf R e H c = elim (Option-cases (shelf.blocks c)) [
    | inl q ↦ ground (arith, q, H.no_error select_block, R.present c)
    | inr (d, q) ↦ R.reads e H c d q ∙ sym (ap (answer (codes "block not found: ") c) q)
  ]

  read_node :
      (cascades : Bool) (s : Store S) (shelf : Shelf)
      → Represents S cascades s shelf
      → (e : Env) → IsHealthy e
      → (c : Str) → get_node S e c s ≡ answer (codes "node not found: ") c (shelf.nodes c)
  unfolding get_node
  read_node cascades s shelf R e H c = ground (arith, H.no_error select_node, R.node_bytes c)

  read_manifest :
      (cascades : Bool) (s : Store S) (shelf : Shelf)
      → Represents S cascades s shelf
      → (e : Env) → IsHealthy e
      → (i : Str)
      → get_manifest S e i s
        ≡ answer (codes "manifest not found: ") i (content_of (lookup i shelf.backups))
  unfolding get_manifest
  read_manifest cascades s shelf R e H i =
      ground
        (arith, H.no_error select_manifest, ap (lookup i) R.table, lookup-rows_of i shelf.backups)

  module _ (L : IsLawful S) (takes : TakesAll S) (cascades : Bool) where
    perform_succeeds :
        (e : Env) (a : Act) (s : Store S) (shelf : Shelf)
        → IsHealthy e
        → Fits a shelf
        → Represents S cascades s shelf
        → (perform S e a s).1 ≡ none
    unfolding perform save_node delete_manifest_row
    perform_succeeds e (put_block cid content n) s shelf H fits R =
        save_block_succeeds S e H takes cid content n s
    perform_succeeds e (put_node cid content) s shelf H fits R =
        ground (arith, H.no_error insert_node)
    perform_succeeds e (put_backup m content cids) s shelf H fits R =
        save_manifest_succeeds S e H m content cids s
          (ap (lookup m.id) R.table ∙ ground (arith, lookup-rows_of m.id shelf.backups, fits))
    perform_succeeds e (delete_backup id) s shelf H fits R =
        ground (arith, H.no_error delete_manifest)
    perform_succeeds e (prune_before cutoff) s shelf H fits R =
        (prune_manifests_exact S e H cutoff [] s).0

    play_succeeds :
        (h : History) (s : Store S) (shelf : Shelf)
        → AllHealthy h
        → AllFit cascades h shelf
        → Represents S cascades s shelf
        → (s' : Store S) × (play h s ≡ ok s')
    unfolding play
    play_succeeds [] s shelf H fits R = (s, refl)
    play_succeeds ((e, a) ∷ h) s shelf (H, Hs) (fit, fits) R =
        let done = perform_succeeds e a s shelf H fit R in
        let (s', p) =
          play_succeeds h (perform S e a s).0 (act cascades a shelf) Hs fits
            (perform_step L cascades e a s shelf H fit R done) in
        (s', ground (arith, done, p))

    -- Take a storage that starts with empty tables, with foreign keys on or off, on a healthy
    -- database and a lawful S3 that takes every object, and any sequence of calls of SaveBlock,
    -- SaveNode, SaveManifest, DeleteManifest and PruneManifests, where each saved block is not empty
    -- and never comes with other bytes than the shelf has under its CID, and each saved manifest has
    -- an id that the shelf does not have. Then all calls succeed, and afterwards GetBlock, GetNode
    -- and GetManifest return, for every CID and id, exactly what the shelf has that replays the
    -- calls, and else "not found".
    pub play_refines :
        (o : S.State) (h : History)
        → AllHealthy h
        → AllFit cascades h empty_shelf
        → (e : Env) → IsHealthy e
        → (k : Str)
        → let shelf : Shelf = replay cascades h empty_shelf in
          (s : Store S) × (play h (record { db = empty_db cascades; objects = o }) ≡ ok s)
          × (get_block S e k s ≡ answer (codes "block not found: ") k (shelf.blocks k))
          × (get_node S e k s ≡ answer (codes "node not found: ") k (shelf.nodes k))
          × (get_manifest S e k s
              ≡ answer (codes "manifest not found: ") k (content_of (lookup k shelf.backups)))
    play_refines o h Hs fits e H k =
        let shelf = replay cascades h empty_shelf in
        let start = empty-Represents cascades o in
        let (s, done) = play_succeeds h _ empty_shelf Hs fits start in
        let R : Represents S cascades s shelf =
          play_step L cascades h _ s empty_shelf Hs fits start done in
        (
          s,
          done,
          read_block cascades s shelf R e H k,
          read_node cascades s shelf R e H k,
          read_manifest cascades s shelf R e H k,
        )
