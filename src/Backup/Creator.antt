-- ===== src/Backup/Creator.antt =====
-- internal/backup/creator.go: from the scanned entries to the manifest. The workers share nothing
-- but the counters, which they only add to, and the first error. So each file is handled by itself,
-- and the environment says which of several errors came first.
pub mod Entries
pub mod Blocks
pub mod Report
use ib.Prelude.{
  ℕ, ◌+◌, Str, Bytes, codes, Dict, List, [], ◌∷◌, ◌++◌, Bool, true, false, not, ◌&&◌, Option, none,
  some, Result, ok, err, lookup, length, is_empty, filter, ◌==◌, take, if◌then◌else◌,
}
use ib.Backup.Manifest.{
  FileType, file, dir, symlink, other, Entry, Manifest, build_entry_index, new_manifest,
}
use ib.Backup.Chunker.Stream.{Received, block, failure}

-- The counters of `Progress`.
pub record Progress : Type 0 where
  pub total_files : ℕ
  pub processed_files : ℕ
  pub skipped_files : ℕ
  pub error_files : ℕ
  pub total_bytes : ℕ
  pub uploaded_bytes : ℕ
  pub skipped_bytes : ℕ
  pub blocks_uploaded : ℕ
  pub blocks_skipped : ℕ

abbrev pub no_progress : Progress
no_progress = record {
  total_files = 0;
  processed_files = 0;
  skipped_files = 0;
  error_files = 0;
  total_bytes = 0;
  uploaded_bytes = 0;
  skipped_bytes = 0;
  blocks_uploaded = 0;
  blocks_skipped = 0;
}

-- What a backup meets: the chunks of each file, as ChunkFile sends them; whether an error is a
-- permission error; the uploader's answers for the n-th chunk of a file; the context's error when
-- the worker of a file starts; and the error that comes first among several.
pub record World : Type 0 where
  pub chunks : Str → List Received
  pub is_permission : Str → Bool
  pub exists : Str → ℕ → Str → Result Bool
  pub upload : Str → ℕ → Str → Bytes → Option Str
  pub cancelled : Str → Option Str
  pub first_error : Str → List Str → Str

-- What becomes of one file: its blocks, or nothing after a permission error, or an error that ends
-- the backup; with the counters to that point.
pub data Ending : Type 0 where
  finished : List Str → Ending
  unreadable : Ending
  stopped : Str → Ending

module _ (w : World) where
  -- The loop over the chunks, from the `i`-th on. The bytes of the file are added to the counters at
  -- its end only.
  unfoldable pub process_chunks :
      Str → ℕ → List Received → List Str → ℕ → ℕ → Progress → Ending × Progress
  process_chunks path i [] blocks up skip p = (
    finished blocks,
    record p {
      processed_files = p.processed_files + 1;
      uploaded_bytes = p.uploaded_bytes + up;
      skipped_bytes = p.skipped_bytes + skip;
    },
  )
  process_chunks path i (failure m ∷ rest) blocks up skip p =
      if w.is_permission m
      then (
        unreadable,
        record p { error_files = p.error_files + 1; processed_files = p.processed_files + 1 },
      )
      else (stopped (codes "chunking " ++ (path ++ (codes ": " ++ m))), p)
  process_chunks path i (block cid content size ∷ rest) blocks up skip p =
      elim (w.exists path i cid) [
        | err m ↦ (stopped (codes "checking block " ++ (take 12 cid ++ (codes ": " ++ m))), p)
        | ok true ↦
            process_chunks path (i + 1) rest (blocks ++ (cid ∷ [])) up (skip + size)
              (record p { blocks_skipped = p.blocks_skipped + 1 })
        | ok false ↦ elim (w.upload path i cid content) [
          | some m ↦ (stopped (codes "uploading block " ++ (take 12 cid ++ (codes ": " ++ m))), p)
          | none ↦
              process_chunks path (i + 1) rest (blocks ++ (cid ∷ [])) (up + length content) skip
                (record p { blocks_uploaded = p.blocks_uploaded + 1 })
        ]
      ]

  -- The worker of one file.
  unfoldable pub process_file : Entry → Progress → Ending × Progress
  unfolding process_chunks
  process_file e p = elim (w.cancelled e.path) [
    | some m ↦ (stopped m, p)
    | none ↦ process_chunks e.path 0 (w.chunks e.path) [] 0 0 p
  ]

-- The blocks of the previous backup, for a file with the mtime and the size that it had there.
unfoldable pub reuse : Option (Dict Entry) → Entry → Option (List Str)
reuse none e = none
reuse (some index) e = elim (lookup e.path index) [
  | none ↦ none
  | some q ↦ if q.mtime == e.mtime && q.size == e.size then some q.blocks else none
]

-- The state of the loop over the entries: the entries that are no files, the files with their
-- blocks, the errors of the workers and the counters.
pub record Run : Type 0 where
  pub others : List Entry
  pub files : List Entry
  pub errors : List Str
  pub progress : Progress

with_ending : Entry → Run → Ending × Progress → Run
with_ending e r (finished blocks, p) = record r {
  files = r.files ++ (record e { blocks = blocks } ∷ []);
  progress = p;
}
with_ending e r (unreadable, p) = record r {
  files = r.files ++ (record e { blocks = [] } ∷ []);
  progress = p;
}
with_ending e r (stopped m, p) = record r { errors = r.errors ++ (m ∷ []); progress = p }

module _ (w : World) (index : Option (Dict Entry)) where
  file_entry : Entry → Run → Run
  unfolding reuse with_ending process_file
  file_entry e r = elim (reuse index e) [
    | some blocks ↦ record r {
      files = r.files ++ (record e { blocks = blocks } ∷ []);
      progress = record (r.progress) {
        processed_files = r.progress.processed_files + 1;
        skipped_files = r.progress.skipped_files + 1;
        skipped_bytes = r.progress.skipped_bytes + e.size;
      };
    }
    | none ↦ with_ending e r (process_file w e r.progress)
  ]

  handle_entry : FileType → Entry → Run → Run
  unfolding file_entry
  handle_entry file e r = file_entry e r
  handle_entry _ e r = record r { others = r.others ++ (e ∷ []) }

  unfoldable pub handle_entries : List Entry → Run → Run
  unfolding handle_entry
  handle_entries [] r = r
  handle_entries (e ∷ es) r = handle_entries es (handle_entry e.type e r)

-- The scanner's results without its errors, counted.
pub count_file : FileType → Entry → Progress → Progress
count_file file e p = record p {
  total_files = p.total_files + 1;
  total_bytes = p.total_bytes + e.size;
}
count_file _ e p = p

unfoldable pub collect : List (Result Entry) → List Entry → Progress → List Entry × Progress
unfolding count_file
collect [] entries p = (entries, p)
collect (err m ∷ results) entries p = collect results entries p
collect (ok e ∷ results) entries p = collect results (entries ++ (e ∷ [])) (count_file e.type e p)

unfoldable pub index_of : Option Manifest → Option (Dict Entry)
unfolding build_entry_index
index_of none = none
index_of (some m) = some (build_entry_index m)

-- The entries that are no files, then the files that have blocks.
abbrev pub final_entries : Run → List Entry
final_entries r = r.others ++ filter (λ e. not (is_empty e.blocks)) r.files

finish : World → Manifest → Run → Result Manifest
finish w m r = elim r.errors [
  | e ∷ es ↦ err (w.first_error e es)
  | [] ↦ ok (record m { entries = final_entries r })
]

-- `created` is the new manifest of `new_manifest`.
unfoldable pub create : World → Manifest → List (Result Entry) → Option Manifest → Result Manifest
unfolding collect index_of handle_entries finish
create w created results previous =
    let (entries, p) = collect results [] no_progress in
    finish w created (
      handle_entries w (index_of previous) entries
        (record { others = []; files = []; errors = []; progress = p }))
