-- ===== src/Tests/Chunking.antt =====
-- The client's chunker, backups and restores.
use ib.Prelude.{
  ℕ, ◌+◌, ◌≡◌, ◌<◌, ◌≤◌, ◌⊎◌, refl, Str, Bytes, codes, List, [], ◌∷◌, ◌++◌, Bool, true, false, not,
  Option, none, some, Result, ok, err, length, ◌==◌, concat, lookup, All, arith,
}
use ib.Backup.Manifest.{Manifest}
use ib.Backup.Chunker.{ChunkResult, chunk_size, chunk_data, process_chunk, decompress}
use ib.Backup.Chunker.Split.{IsCut, Processed, chunk_data-IsCut, decompress-process_chunk}
use ib.Backup.Chunker.Stream.{Received, block, open_file, run_turns, reads, sends, receives}
use ib.Backup.Chunker.Aliasing.{run_turns_mixed}
use ib.Backup.Creator.{World, no_progress, process_file, create, index_of, reuse}
use ib.Backup.Creator.Blocks.{AllStored, process_file-AllStored}
use ib.Backup.Creator.Entries.{IsEmptyFile, create_drops_empty}
use ib.Backup.Ignore.{IgnoreMatcher, is_ignored}
use ib.Backup.Ignore.Last.{last_applying, is_ignored-last_applying}
use ib.Backup.Restore as Restore
use ib.Backup.Restore.{restore}
use ib.Backup.Restore.Calls.{Downloaded, expected_calls, restore_calls}
use ib.Tests.Fixtures.{toy, toy-IsLawful, sevens, file_entry, manifest_with}

-- What ChunkData makes of four sevens.
abbrev sevens_result : ChunkResult
sevens_result = record { cid = codes "cid-" ++ sevens; content = 7 ∷ []; original_size = 4 }

chunk_data-IsCut_example :
    (bs : List Bytes) × Processed toy bs (sevens_result ∷ [])
    × (concat bs ≡ sevens)
    × IsCut chunk_size bs
unfolding chunk_data process_chunk ib.Prelude.str_eq
chunk_data-IsCut_example = chunk_data-IsCut toy sevens (sevens_result ∷ []) refl

decompress-process_chunk_example :
    let stored : Bytes = 7 ∷ [] in
    (stored ≡ sevens) ⊎ ((length stored < length sevens) × (decompress toy stored 8 ≡ ok sevens))
unfolding process_chunk ib.Prelude.str_eq
decompress-process_chunk_example =
    decompress-process_chunk toy toy-IsLawful sevens sevens_result 8 refl (omega arith)

run_turns_mixed_example :
    (run_turns toy 2
      (reads ∷ sends ∷ reads ∷ receives ∷ [])
      (open_file (ok ((1 ∷ 2 ∷ []) ++ ((3 ∷ 4 ∷ []) ++ []), none)) (0 ∷ 0 ∷ []))).got
    ≡ block (codes "cid-" ++ (1 ∷ 2 ∷ [])) (3 ∷ 4 ∷ []) 2 ∷ []
unfolding process_chunk ib.Prelude.str_eq
run_turns_mixed_example =
    run_turns_mixed toy 2 (1 ∷ 2 ∷ []) (3 ∷ 4 ∷ []) [] (0 ∷ 0 ∷ []) (codes "cid-" ++ (1 ∷ 2 ∷ []))
      (codes "cid-" ++ (3 ∷ 4 ∷ [])) (omega arith) refl refl refl refl refl ([], refl, refl)
      ([], refl, refl)

-- A file of two chunks, the first of which the server has; all other files are empty.
abbrev chunks_of : Str → List Received
chunks_of [] = []
chunks_of (c ∷ path) = block (codes "cid-a") (1 ∷ []) 1 ∷ block (codes "cid-b") (2 ∷ []) 1 ∷ []

abbrev backup_world : World
backup_world = record {
  chunks = chunks_of;
  is_permission = λ m. false;
  exists = λ path i cid. ok (i == 0);
  upload = λ path i cid content. none;
  cancelled = λ path. none;
  first_error = λ m ms. m;
}

process_file-AllStored_example :
    AllStored backup_world
      (codes "f")
      0
      (chunks_of (codes "f"))
      (codes "cid-a" ∷ codes "cid-b" ∷ [])
unfolding process_file
process_file-AllStored_example =
    process_file-AllStored backup_world (file_entry (codes "f") 2 []) no_progress
      (codes "cid-a" ∷ codes "cid-b" ∷ []) refl

nameless-IsEmptyFile : IsEmptyFile backup_world (index_of none) (file_entry [] 0 [])
unfolding index_of reuse
nameless-IsEmptyFile = record { is_file = refl; no_chunks = refl; goes_on = refl; is_new = refl }

create_drops_empty_example :
    create backup_world
      (manifest_with (codes "m") [])
      ((ok (file_entry (codes "f") 2 []) ∷ []) ++ (ok (file_entry [] 0 []) ∷ []))
      none
    ≡ create backup_world
        (manifest_with (codes "m") [])
        ((ok (file_entry (codes "f") 2 []) ∷ []) ++ [])
        none
create_drops_empty_example =
    create_drops_empty backup_world (manifest_with (codes "m") []) none (file_entry [] 0 [])
      (ok (file_entry (codes "f") 2 []) ∷ []) [] nameless-IsEmptyFile

abbrev logs_but_one : IgnoreMatcher
logs_but_one =
    record { pattern = codes "*.log"; negation = false; dir_only = false }
    ∷ record { pattern = codes "keep.log"; negation = true; dir_only = false }
    ∷ []

is_ignored-last_applying_example :
    is_ignored logs_but_one (codes "a/keep.log") false
    ≡ elim (last_applying (codes "a/keep.log") false logs_but_one) [
      | none ↦ false
      | some p ↦ not p.negation
    ]
is_ignored-last_applying_example = is_ignored-last_applying logs_but_one (codes "a/keep.log") false

abbrev two_files : Manifest
two_files =
    manifest_with (codes "m")
      (file_entry (codes "a") 1 (codes "cid-a" ∷ []) ∷ file_entry (codes "b") 0 [] ∷ [])

abbrev restore_world : Restore.World
restore_world = record { fetch = λ cid. ok (1 ∷ []); fault = λ c. none; first_error = λ m ms. m }

restore_calls_example :
    ((restore restore_world two_files (codes "out")).0
      ≡ expected_calls restore_world (codes "out") two_files.entries)
    × All (λ e. Downloaded restore_world e.type e) two_files.entries
unfolding restore Restore.restore_file
restore_calls_example = restore_calls restore_world two_files (codes "out") refl
