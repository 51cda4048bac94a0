-- ===== src/Backup/Restore/Calls.antt =====
-- A restore that returns no error has made exactly the calls that the manifest asks for.
use ib.Prelude.{
  ℕ, ◌≡◌, refl, sym, ◌∙◌, Str, Bytes, List, [], ◌∷◌, ◌++◌, none, some, codes, All, arith,
  append_assoc, append-nil, join_path,
}
use ib.Backup.Manifest.{FileType, file, dir, symlink, Entry, Manifest}
use ib.Backup.Restore.{
  Call, mkdir_all, write_file, open_file, append, make_symlink, World, Outcome, download,
  write_blocks, restore_blocks, restore_file, labelled, restore_dir, restore_dirs, restore_entry,
  restore_entries, attribute_calls, set_attributes, restore,
}

abbrev pub dir_calls : Str → FileType → Entry → List Call
dir_calls out dir e = mkdir_all (join_path out e.path) e.mode ∷ []
dir_calls out _ e = []

abbrev pub blocks_calls : Str → List Bytes → List Call
blocks_calls path [] = []
blocks_calls path (b ∷ bs) = append path b ∷ blocks_calls path bs

abbrev pub file_calls : World → Str → ℕ → List Str → List Call
file_calls w path mode [] = write_file path [] mode ∷ []
file_calls w path mode (cid ∷ cids) =
    open_file path mode ∷ blocks_calls path (download w (cid ∷ cids)).0

abbrev pub entry_calls : World → Str → FileType → Entry → List Call
entry_calls w out file e = file_calls w (join_path out e.path) e.mode e.blocks
entry_calls w out symlink e = make_symlink e.link_target (join_path out e.path) ∷ []
entry_calls w out _ e = []

-- No download of the file's blocks has failed.
abbrev pub Downloaded : World → FileType → Entry → Type 0
Downloaded w file e = (download w e.blocks).1 ≡ []
Downloaded w _ e = Unit

module _ (w : World) (out : Str) where
  abbrev pub all_dirs : List Entry → List Call
  all_dirs [] = []
  all_dirs (e ∷ es) = dir_calls out e.type e ++ all_dirs es

  abbrev pub all_contents : List Entry → List Call
  all_contents [] = []
  all_contents (e ∷ es) = entry_calls w out e.type e ++ all_contents es

  abbrev pub all_attributes : List Entry → List Call
  all_attributes [] = []
  all_attributes (e ∷ es) = attribute_calls out e.type e ++ all_attributes es

  -- The output directory, every directory, then each file with its blocks in order and each
  -- symlink, and last the modes and times of what is no symlink.
  abbrev pub expected_calls : List Entry → List Call
  expected_calls es = mkdir_all out 0o755 ∷ (all_dirs es ++ (all_contents es ++ all_attributes es))

module _ (w : World) where
  write_blocks_lem :
      (path : Str) (bs : List Bytes) (trace : List Call)
      → (write_blocks w path bs trace).1 ≡ none
      → (write_blocks w path bs trace).0 ≡ trace ++ blocks_calls path bs
  unfolding write_blocks
  write_blocks_lem path [] trace h = sym (append-nil trace)
  write_blocks_lem path (b ∷ bs) trace h = ground (
    arith,
    write_blocks_lem path bs (trace ++ (append path b ∷ [])),
    append_assoc trace (append path b ∷ []) (blocks_calls path bs),
  )

  restore_blocks_lem :
      (path : Str) (mode : ℕ) (d : List Bytes × List Str) (trace : List Call)
      → (restore_blocks w path mode d trace).1 ≡ none
      → (d.1 ≡ [])
        × ((restore_blocks w path mode d trace).0
            ≡ trace ++ (open_file path mode ∷ blocks_calls path d.0))
  unfolding restore_blocks
  restore_blocks_lem path mode (bs, e ∷ es) trace h = absurd (cc)
  restore_blocks_lem path mode (bs, []) trace h = (
    refl,
    ground (
      arith,
      write_blocks_lem path bs (trace ++ (open_file path mode ∷ [])),
      append_assoc trace (open_file path mode ∷ []) (blocks_calls path bs),
    ),
  )

  restore_file_lem :
      (cids : List Str) (mode : ℕ) (path : Str) (trace : List Call)
      → (restore_file w cids mode path trace).1 ≡ none
      → ((restore_file w cids mode path trace).0 ≡ trace ++ file_calls w path mode cids)
        × ((download w cids).1 ≡ [])
  unfolding restore_file
  restore_file_lem [] mode path trace h = (refl, refl)
  restore_file_lem (cid ∷ cids) mode path trace h =
      let (complete, calls) = restore_blocks_lem path mode (download w (cid ∷ cids)) trace h in
      (calls, complete)

  labelled_lem :
      (what path : Str) (o : Outcome)
      → (labelled what path o).1 ≡ none
      → (o.1 ≡ none) × ((labelled what path o).0 ≡ o.0)
  unfolding labelled
  labelled_lem what path (trace, none) h = (refl, refl)
  labelled_lem what path (trace, some m) h = absurd (cc)

  restore_dir_lem :
      (out : Str) (t : FileType) (e : Entry) (trace : List Call)
      → (restore_dir w out t e trace).1 ≡ none
      → (restore_dir w out t e trace).0 ≡ trace ++ dir_calls out t e
  unfolding restore_dir
  restore_dir_lem out dir e trace h =
      (labelled_lem (codes "failed to create directory ") e.path _ h).1
  restore_dir_lem out _ e trace h = sym (append-nil trace)

  restore_dirs_lem :
      (out : Str) (es : List Entry) (trace : List Call)
      → (restore_dirs w out es trace).1 ≡ none
      → (restore_dirs w out es trace).0 ≡ trace ++ all_dirs w out es
  unfolding restore_dirs
  restore_dirs_lem out [] trace h = sym (append-nil trace)
  restore_dirs_lem out (e ∷ es) trace h = ground (
    arith,
    restore_dir_lem out e.type e trace,
    restore_dirs_lem out es (restore_dir w out e.type e trace).0,
    append_assoc trace (dir_calls out e.type e) (all_dirs w out es),
  )

  restore_entry_lem :
      (out : Str) (t : FileType) (e : Entry) (trace : List Call)
      → (restore_entry w out t e trace).1 ≡ none
      → ((restore_entry w out t e trace).0 ≡ trace ++ entry_calls w out t e) × Downloaded w t e
  unfolding restore_entry
  restore_entry_lem out file e trace h =
      let (p, q) =
        labelled_lem (codes "failed to restore file ") e.path
          (restore_file w e.blocks e.mode (join_path out e.path) trace) h in
      let (calls, complete) = restore_file_lem e.blocks e.mode (join_path out e.path) trace p in
      (q ∙ calls, complete)
  restore_entry_lem out symlink e trace h =
      ((labelled_lem (codes "failed to create symlink ") e.path _ h).1, tt)
  restore_entry_lem out _ e trace h = (sym (append-nil trace), tt)

  restore_entries_lem :
      (out : Str) (es : List Entry) (trace : List Call)
      → (restore_entries w out es trace).1 ≡ none
      → ((restore_entries w out es trace).0 ≡ trace ++ all_contents w out es)
        × All (λ e. Downloaded w e.type e) es
  unfolding restore_entries
  restore_entries_lem out [] trace h = (sym (append-nil trace), tt)
  restore_entries_lem out (e ∷ es) trace h =
      let next : Outcome = restore_entry w out e.type e trace in
      let first : next.1 ≡ none = ground arith in
      let (calls, complete) = restore_entry_lem out e.type e trace first in
      let (more, all) = restore_entries_lem out es next.0 (ground (arith, first)) in
      (
        ground (
          arith,
          first,
          calls,
          more,
          append_assoc trace (entry_calls w out e.type e) (all_contents w out es),
        ),
        (complete, all),
      )

  set_attributes_lem :
      (out : Str) (es : List Entry) (trace : List Call)
      → set_attributes out es trace ≡ trace ++ all_attributes w out es
  unfolding set_attributes
  set_attributes_lem out [] trace = sym (append-nil trace)
  set_attributes_lem out (e ∷ es) trace =
      set_attributes_lem out es (trace ++ attribute_calls out e.type e)
      ∙ append_assoc trace (attribute_calls out e.type e) (all_attributes w out es)

  -- If Restore returns no error, every block of every file was downloaded, and its calls were, in
  -- order: the output directory; every directory of the manifest; each file, empty or with its
  -- downloaded blocks in the order of its entry, and each symlink; the modes and times of what is
  -- no symlink.
  pub restore_calls :
      (m : Manifest) (out : Str)
      → (restore w m out).1 ≡ none
      → ((restore w m out).0 ≡ expected_calls w out m.entries)
        × All (λ e. Downloaded w e.type e) m.entries
  unfolding restore
  restore_calls m out h =
      let root : List Call = mkdir_all out 0o755 ∷ [] in
      let dirs : Outcome = restore_dirs w out m.entries root in
      let contents : Outcome = restore_entries w out m.entries dirs.0 in
      let dirs_done : dirs.1 ≡ none = ground arith in
      let done : contents.1 ≡ none = ground (arith, dirs_done) in
      let (calls, all) = restore_entries_lem out m.entries dirs.0 done in
      (
        ground (
          arith,
          dirs_done,
          done,
          calls,
          restore_dirs_lem out m.entries root dirs_done,
          set_attributes_lem out m.entries contents.0,
          append_assoc root (all_dirs w out m.entries) (all_contents w out m.entries),
          append_assoc root (all_dirs w out m.entries ++ all_contents w out m.entries)
              (all_attributes w out m.entries),
          append_assoc (all_dirs w out m.entries) (all_contents w out m.entries)
              (all_attributes w out m.entries),
        ),
        all,
      )
