-- ===== src/Tests/Wholeness.antt =====
-- A backup of a directory that holds one file.
use ib.Prelude.{◌≡◌, refl, codes, [], ◌∷◌, false, none, ok, map, All}
use ib.Backup.Manifest.{Manifest, file}
use ib.Backup.Ignore.{missing}
use ib.Backup.Scanner.{
  Info, Forest, Root, leaf, folder, empty, also, regular, directory, dir_entry, scan,
}
use ib.Backup.Chunker.Stream.{block}
use ib.Backup.Creator.{World, create}
use ib.Command.Client.{as_result}
use ib.Command.Client.Whole.{dir_paths, HasDir, create-HasDir}
use ib.Tests.Fixtures.{manifest_with}

abbrev info : Info
info = record { perm = 420; mtime = 5; size = 3 }

abbrev root : Root
root =
    directory (record { git_file = missing; ib_file = missing }) none
      (also
        (folder (codes "d") (ok info) (record { git_file = missing; ib_file = missing }) none
          (also (leaf (codes "c") (ok info) regular) empty))
        empty)

abbrev world : World
world = record {
  chunks = λ path. block (codes "cid-a") (1 ∷ []) 1 ∷ [];
  is_permission = λ m. false;
  exists = λ path i cid. ok false;
  upload = λ path i cid content. none;
  cancelled = λ path. none;
  first_error = λ m ms. m;
}

abbrev whole : Manifest
whole = manifest_with (codes "m") (
    dir_entry (codes "d") info
    ∷ record (dir_entry (codes "d/c") info) { type = file; size = 3; blocks = codes "cid-a" ∷ [] }
    ∷ [])

whole_is_made :
    create world (manifest_with (codes "m") []) (map as_result (scan root)) none ≡ ok whole
unfolding create scan as_result
whole_is_made = refl

create-HasDir_example : All (HasDir (dir_paths whole.entries)) whole.entries
unfolding ib.Backup.Scanner.Parents.IsReadable
create-HasDir_example =
    create-HasDir world (manifest_with (codes "m") []) whole root none
      (((refl, refl), ((refl, refl), tt)), tt) whole_is_made
