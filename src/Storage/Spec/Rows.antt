-- ===== src/Storage/Spec/Rows.antt =====
-- The table of manifests beside the shelf's backups.
use ib.Prelude.{
  ℕ, ◌≡◌, refl, Str, Bytes, Dict, List, [], ◌∷◌, true, false, not, Option, none, some, filter,
  lookup, insert, erase, str_eq, ltb, arith,
}
use ib.Backup.Manifest.{Manifest}
use ib.Storage.Tables.{ManifestRow, has_row}
use ib.Storage.ManifestStore.Reading.{row_of_manifest}
use ib.Storage.Prune.{drop_old}
use ib.Storage.Spec.{Backup, backup_of}

-- The rows of the table of manifests.
abbrev pub rows_of : Dict Backup → Dict ManifestRow
rows_of [] = []
rows_of ((i, b) ∷ d) =
    (i, record { tags = b.tags; created_at = b.created_at; row_data = b.content }) ∷ rows_of d

abbrev pub content_of : Option Backup → Option Bytes
content_of none = none
content_of (some b) = some b.content

pub rows_of-insert :
    (m : Manifest) (content : Bytes) (cids : List Str) (d : Dict Backup)
    → insert m.id (row_of_manifest m content) (rows_of d)
      ≡ rows_of (insert m.id (backup_of m content cids) d)
unfolding insert
rows_of-insert m content cids [] = refl
rows_of-insert m content cids ((i, b) ∷ d) = ground (arith, rows_of-insert m content cids d)

pub rows_of-erase :
    (id : Str) (d : Dict Backup)
    → erase id (rows_of d) ≡ rows_of (filter (λ (i, b). not (str_eq id i)) d)
unfolding erase
rows_of-erase id [] = refl
rows_of-erase id ((i, b) ∷ d) = ground (arith, rows_of-erase id d)

pub rows_of-drop_old :
    (cutoff : ℕ) (d : Dict Backup)
    → drop_old cutoff (rows_of d) ≡ rows_of (filter (λ (i, b). not (ltb b.created_at cutoff)) d)
unfolding drop_old
rows_of-drop_old cutoff [] = refl
rows_of-drop_old cutoff ((i, b) ∷ d) = ground (arith, rows_of-drop_old cutoff d)

pub has_row-rows_of :
    (i : Str) (d : Dict Backup)
    → has_row i (rows_of d) ≡ elim (lookup i d) [ none ↦ false | some _ ↦ true ]
unfolding has_row lookup
has_row-rows_of i [] = refl
has_row-rows_of i ((j, b) ∷ d) = ground (arith, has_row-rows_of i d)

pub lookup-rows_of :
    (i : Str) (d : Dict Backup)
    → lookup i (rows_of d) ≡ elim (lookup i d) [
      | none ↦ none
      | some b ↦ some (record { tags = b.tags; created_at = b.created_at; row_data = b.content })
    ]
unfolding lookup
lookup-rows_of i [] = refl
lookup-rows_of i ((j, b) ∷ d) = ground (arith, lookup-rows_of i d)
