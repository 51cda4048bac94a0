-- ===== src/Backup/Creator/Entries.antt =====
-- The entries of the manifest that Create returns.
use ib.Prelude.{
  filter-append, ℕ, ◌+◌, ◌≡◌, subst, refl, sym, ◌∙◌, ap, Str, Dict, List, [], ◌∷◌, ◌++◌, not,
  Option, none, some, Result, ok, err, arith, append-nil, append_assoc, filter, is_empty,
  Option-cases, inl, inr, length,
}
use ib.Backup.Manifest.{FileType, file, Entry, Manifest}
use ib.Backup.Chunker.Stream.{Received, block, failure}
use ib.Backup.Creator.{
  World, Ending, finished, unreadable, stopped, Progress, no_progress, process_chunks, process_file,
  Run, reuse, with_ending, file_entry, handle_entry, handle_entries, collect, index_of, finish,
  create, count_file,
}

process_chunks_ending :
    (w : World) (path : Str) (i : ℕ) (chunks : List Received) (before : List Str)
    (up skip up' skip' : ℕ) (p p' : Progress)
    → (process_chunks w path i chunks before up skip p).0
      ≡ (process_chunks w path i chunks before up' skip' p').0
unfolding process_chunks
process_chunks_ending w path i [] before up skip up' skip' p p' = refl
process_chunks_ending w path i (failure m ∷ rest) before up skip up' skip' p p' = ground arith
process_chunks_ending w path i (block cid content size ∷ rest) before up skip up' skip' p p' =
    ground (
      arith,
      process_chunks_ending w path (i + 1) rest (before ++ (cid ∷ [])) up (skip + size) up'
          (skip' + size) (record p { blocks_skipped = p.blocks_skipped + 1 })
          (record p' { blocks_skipped = p'.blocks_skipped + 1 }),
      process_chunks_ending w path (i + 1) rest (before ++ (cid ∷ [])) (up + length content) skip
          (up' + length content) skip' (record p { blocks_uploaded = p.blocks_uploaded + 1 })
          (record p' { blocks_uploaded = p'.blocks_uploaded + 1 }),
    )

-- What becomes of a file does not depend on the counters.
process_file_ending :
    (w : World) (e : Entry) (p p' : Progress) → (process_file w e p).0 ≡ (process_file w e p').0
unfolding process_file
process_file_ending w e p p' =
    ground (arith, process_chunks_ending w e.path 0 (w.chunks e.path) [] 0 0 0 0 p p')

module _ (w : World) (index : Option (Dict Entry)) where
  -- The end of one file: its blocks of the previous backup, or what the worker gives.
  abbrev pub ending_of : Entry → Ending
  ending_of e = elim (reuse index e) [
    | some blocks ↦ finished blocks
    | none ↦ (process_file w e no_progress).0
  ]

  abbrev pub file_of : Entry → Ending → List Entry
  file_of e (finished blocks) = record e { blocks = blocks } ∷ []
  file_of e unreadable = record e { blocks = [] } ∷ []
  file_of e (stopped m) = []

  abbrev pub error_of : Ending → List Str
  error_of (stopped m) = m ∷ []
  error_of _ = []

  abbrev pub others_of : FileType → Entry → List Entry
  others_of file e = []
  others_of _ e = e ∷ []

  abbrev pub files_of : FileType → Entry → List Entry
  files_of file e = file_of e (ending_of e)
  files_of _ e = []

  abbrev pub errors_of : FileType → Entry → List Str
  errors_of file e = error_of (ending_of e)
  errors_of _ e = []

  -- What has to hold of a run after some more entries.
  Adds : List Entry → List Entry → List Str → Run → Run → Type 0
  Adds os fs es r r' =
      (r'.others ≡ r.others ++ os) × (r'.files ≡ r.files ++ fs) × (r'.errors ≡ r.errors ++ es)

  with_ending-Adds :
      (e : Entry) (r : Run) (x : Ending) (p : Progress)
      → Adds [] (file_of e x) (error_of x) r (with_ending e r (x, p))
  unfolding Adds with_ending
  with_ending-Adds e r (finished bs) p =
      (sym (append-nil r.others), refl, sym (append-nil r.errors))
  with_ending-Adds e r unreadable p = (sym (append-nil r.others), refl, sym (append-nil r.errors))
  with_ending-Adds e r (stopped m) p = (sym (append-nil r.others), sym (append-nil r.files), refl)

  handle_entry-Adds :
      (t : FileType) (e : Entry) (r : Run)
      → Adds (others_of t e) (files_of t e) (errors_of t e) r (handle_entry w index t e r)
  unfolding handle_entry file_entry Adds
  handle_entry-Adds file e r = elim (Option-cases (reuse index e)) [
    | inr (bs, q) ↦ (
      ground (arith, q, append-nil r.others),
      ground (arith, q),
      ground (arith, q, append-nil r.errors),
    )
    | inl q ↦
        subst (λ x. Adds [] (file_of e x) (error_of x) r (file_entry w index e r))
          {x = (process_file w e r.progress).0} {y = ending_of e}
          (ground (arith, q, process_file_ending w e r.progress no_progress))
          (subst
            (Adds [] (file_of e ((process_file w e r.progress).0))
              (error_of ((process_file w e r.progress).0)) r)
            {x = with_ending e r (process_file w e r.progress)} {y = file_entry w index e r}
            (ground (arith, q))
            (with_ending-Adds e r ((process_file w e r.progress).0)
              ((process_file w e r.progress).1)))
  ]
  handle_entry-Adds _ e r = (refl, sym (append-nil r.files), sym (append-nil r.errors))

  -- The entries that are no files, the files with their blocks and the errors, for a list of entries.
  abbrev pub all_others : List Entry → List Entry
  all_others [] = []
  all_others (e ∷ es) = others_of e.type e ++ all_others es

  abbrev pub all_files : List Entry → List Entry
  all_files [] = []
  all_files (e ∷ es) = files_of e.type e ++ all_files es

  abbrev pub all_errors : List Entry → List Str
  all_errors [] = []
  all_errors (e ∷ es) = errors_of e.type e ++ all_errors es

  handle_entries-Adds :
      (es : List Entry) (r : Run)
      → Adds (all_others es) (all_files es) (all_errors es) r (handle_entries w index es r)
  unfolding handle_entries Adds
  handle_entries-Adds [] r =
      (sym (append-nil r.others), sym (append-nil r.files), sym (append-nil r.errors))
  handle_entries-Adds (e ∷ es) r =
      let r' = handle_entry w index e.type e r in
      let (a, b, c) = handle_entry-Adds e.type e r in
      let (a', b', c') = handle_entries-Adds es r' in
      (
        a'
            ∙ ap (λ l. l ++ all_others es) a
            ∙ append_assoc r.others (others_of e.type e) (all_others es),
        b'
            ∙ ap (λ l. l ++ all_files es) b
            ∙ append_assoc r.files (files_of e.type e) (all_files es),
        c'
            ∙ ap (λ l. l ++ all_errors es) c
            ∙ append_assoc r.errors (errors_of e.type e) (all_errors es),
      )

-- The entries that the scanner gave without an error.
abbrev pub scanned : List (Result Entry) → List Entry
scanned [] = []
scanned (err m ∷ results) = scanned results
scanned (ok e ∷ results) = e ∷ scanned results

collect-scanned :
    (results : List (Result Entry)) (es : List Entry) (p : Progress)
    → (collect results es p).0 ≡ es ++ scanned results
unfolding collect
collect-scanned [] es p = sym (append-nil es)
collect-scanned (err m ∷ results) es p = collect-scanned results es p
collect-scanned (ok e ∷ results) es p =
    collect-scanned results (es ++ (e ∷ [])) (count_file e.type e p)
    ∙ append_assoc es (e ∷ []) (scanned results)

-- The manifest of a list of entries: the entries that are no files, then the files that have
-- blocks; unless there is an error.
abbrev pub manifest_of : World → Manifest → Option (Dict Entry) → List Entry → Result Manifest
manifest_of w created index es = elim (all_errors w index es) [
  | m ∷ ms ↦ err (w.first_error m ms)
  | [] ↦ ok (record created {
    entries = all_others w index es ++ filter (λ e. not (is_empty e.blocks)) (all_files w index es);
  })
]

pub create_lem :
    (w : World) (created : Manifest) (results : List (Result Entry)) (previous : Option Manifest)
    → create w created results previous
      ≡ manifest_of w created (index_of previous) (scanned results)
unfolding create finish Adds
create_lem w created results previous =
    let r0 : Run = record {
      others = [];
      files = [];
      errors = [];
      progress = (collect results [] no_progress).1;
    } in
    let (a, b, c) =
      handle_entries-Adds w (index_of previous) ((collect results [] no_progress).0) r0 in
    ground (arith, a, b, c, collect-scanned results [] no_progress)

-- An empty file as the scanner gives it: it has no chunks, and nothing else goes wrong with it.
pub record IsEmptyFile (w : World) (index : Option (Dict Entry)) (e : Entry) : Type 0 where
  pub is_file : e.type ≡ file
  pub no_chunks : w.chunks e.path ≡ []
  pub goes_on : w.cancelled e.path ≡ none
  pub is_new : reuse index e ≡ none

ending_of_empty :
    (w : World) (index : Option (Dict Entry)) (e : Entry)
    → IsEmptyFile w index e
    → ending_of w index e ≡ finished []
unfolding process_file process_chunks
ending_of_empty w index e h = ground (arith, h.no_chunks, h.goes_on, h.is_new)

files_of_empty :
    (w : World) (index : Option (Dict Entry)) (e : Entry)
    → IsEmptyFile w index e
    → files_of w index e.type e ≡ record e { blocks = [] } ∷ []
files_of_empty w index e h =
    subst (λ t. files_of w index t e ≡ record e { blocks = [] } ∷ []) (sym h.is_file)
      (ap (file_of w index e) (ending_of_empty w index e h))

errors_of_empty :
    (w : World) (index : Option (Dict Entry)) (e : Entry)
    → IsEmptyFile w index e
    → errors_of w index e.type e ≡ []
errors_of_empty w index e h =
    subst (λ t. errors_of w index t e ≡ []) (sym h.is_file)
      (ap (error_of w index) (ending_of_empty w index e h))

others_of_empty :
    (w : World) (index : Option (Dict Entry)) (e : Entry)
    → IsEmptyFile w index e
    → others_of w index e.type e ≡ []
others_of_empty w index e h = subst (λ t. others_of w index t e ≡ []) (sym h.is_file) refl

module _ (w : World) (index : Option (Dict Entry)) (e : Entry) (h : IsEmptyFile w index e)
    (ys : List (Result Entry)) where
  others_without :
      (xs : List (Result Entry))
      → all_others w index (scanned (xs ++ (ok e ∷ ys))) ≡ all_others w index (scanned (xs ++ ys))
  others_without [] = ap (λ l. l ++ all_others w index (scanned ys)) (others_of_empty w index e h)
  others_without (err m ∷ xs) = others_without xs
  others_without (ok x ∷ xs) = ap (λ l. others_of w index x.type x ++ l) (others_without xs)

  errors_without :
      (xs : List (Result Entry))
      → all_errors w index (scanned (xs ++ (ok e ∷ ys))) ≡ all_errors w index (scanned (xs ++ ys))
  errors_without [] = ap (λ l. l ++ all_errors w index (scanned ys)) (errors_of_empty w index e h)
  errors_without (err m ∷ xs) = errors_without xs
  errors_without (ok x ∷ xs) = ap (λ l. errors_of w index x.type x ++ l) (errors_without xs)

  files_without :
      (xs : List (Result Entry))
      → filter (λ f. not (is_empty f.blocks)) (all_files w index (scanned (xs ++ (ok e ∷ ys))))
        ≡ filter (λ f. not (is_empty f.blocks)) (all_files w index (scanned (xs ++ ys)))
  files_without [] =
      ap (λ l. filter (λ f. not (is_empty f.blocks)) (l ++ all_files w index (scanned ys)))
        (files_of_empty w index e h)
  files_without (err m ∷ xs) = files_without xs
  files_without (ok x ∷ xs) =
      filter-append (λ f. not (is_empty f.blocks)) (files_of w index x.type x)
        (all_files w index (scanned (xs ++ (ok e ∷ ys))))
      ∙ ap (λ l. filter (λ f. not (is_empty f.blocks)) (files_of w index x.type x) ++ l)
          (files_without xs)
      ∙ sym (
          filter-append (λ f. not (is_empty f.blocks)) (files_of w index x.type x)
            (all_files w index (scanned (xs ++ ys))))

-- A new empty file among the scanned entries changes nothing in the result of a backup: the
-- manifest, or the error, is the one without it.
pub create_drops_empty :
    (w : World) (created : Manifest) (previous : Option Manifest) (e : Entry)
    (xs ys : List (Result Entry))
    → IsEmptyFile w (index_of previous) e
    → create w created (xs ++ (ok e ∷ ys)) previous ≡ create w created (xs ++ ys) previous
create_drops_empty w created previous e xs ys h =
    create_lem w created (xs ++ (ok e ∷ ys)) previous
    ∙ ground (
      arith,
      others_without w (index_of previous) e h ys xs,
      errors_without w (index_of previous) e h ys xs,
      files_without w (index_of previous) e h ys xs,
    )
    ∙ sym (create_lem w created (xs ++ ys) previous)
