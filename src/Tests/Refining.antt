-- ===== src/Tests/Refining.antt =====
-- A storage with a history.
use ib.Prelude.{str_eq, ◌≡◌, refl, codes, [], ◌∷◌, true, ok, lookup, inl, inr}
use ib.Backup.Manifest.{Manifest}
use ib.Storage.Tables.{Store, empty_db}
use ib.Storage.Block.{get_block}
use ib.Storage.Node.{get_node}
use ib.Storage.ManifestStore.{get_manifest}
use ib.Storage.Spec.{Shelf, put_block, put_node, put_backup, prune_before, act}
use ib.Storage.Spec.Rows.{content_of}
use ib.Storage.Spec.Histories.{History, empty_shelf, replay, play, answer, play_refines}
use ib.Tests.Fixtures.{memory, memory-IsLawful, calm, calm-IsHealthy, file_entry, manifest_with}

abbrev backup : Manifest
backup = manifest_with (codes "b") (file_entry (codes "f") 2 (codes "cid-a" ∷ []) ∷ [])

abbrev history : History
history =
    (calm, put_block (codes "cid-a") (1 ∷ 2 ∷ []) 2)
    ∷ (calm, put_block (codes "cid-b") (3 ∷ []) 1)
    ∷ (calm, put_block (codes "cid-a") (1 ∷ 2 ∷ []) 2)
    ∷ (calm, put_node (codes "cid-n") (4 ∷ []))
    ∷ (calm, put_backup backup (9 ∷ []) (codes "cid-n" ∷ []))
    ∷ (calm, prune_before 0)
    ∷ []

abbrev start : Store memory
start = record { db = empty_db true; objects = [] }

play_refines_example :
    let shelf : Shelf = replay true history empty_shelf in
    (s : Store memory) × (play memory history start ≡ ok s)
    × (get_block memory calm (codes "cid-a") s
        ≡ answer (codes "block not found: ") (codes "cid-a") (shelf.blocks (codes "cid-a")))
    × (get_node memory calm (codes "cid-a") s
        ≡ answer (codes "node not found: ") (codes "cid-a") (shelf.nodes (codes "cid-a")))
    × (get_manifest memory calm (codes "cid-a") s
        ≡ answer
            (codes "manifest not found: ")
            (codes "cid-a")
            (content_of (lookup (codes "cid-a") shelf.backups)))
unfolding play act lookup str_eq
play_refines_example =
    play_refines memory memory-IsLawful (λ k d s. refl) true [] history
      (
        calm-IsHealthy,
        (
          calm-IsHealthy,
          (calm-IsHealthy, (calm-IsHealthy, (calm-IsHealthy, (calm-IsHealthy, tt)))),
        ),
      )
      ((refl, inl refl), ((refl, inl refl), ((refl, inr refl), (tt, (refl, (tt, tt)))))) calm
      calm-IsHealthy (codes "cid-a")
