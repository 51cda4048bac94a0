-- ===== src/Backup/Restore.antt =====
-- internal/backup/restore.go: the calls of the operating system that Restore makes, in order.
pub mod Calls
pub mod Direct
pub mod Disk
pub mod Contents
pub mod Original
use ib.Prelude.{
  ℕ, Str, Bytes, codes, List, [], ◌∷◌, ◌++◌, Bool, true, false, Option, none, some, Result, ok, err,
  join_path, if◌then◌else◌,
}
use ib.Backup.Manifest.{FileType, file, dir, symlink, other, Entry, Manifest}

-- os.MkdirAll, os.WriteFile, os.OpenFile with O_CREATE|O_WRONLY|O_TRUNC, a Write at the end of the
-- open file, os.Symlink, os.Chmod and os.Chtimes.
pub data Call : Type 0 where
  mkdir_all : Str → ℕ → Call
  write_file : Str → Bytes → ℕ → Call
  open_file : Str → ℕ → Call
  append : Str → Bytes → Call
  make_symlink : Str → Str → Call
  chmod : Str → ℕ → Call
  chtimes : Str → ℕ → Call

-- What a restore meets: the blocks, the error of each call (`none` for success), and which of the
-- failed downloads of a file is reported, since they run concurrently.
pub record World : Type 0 where
  pub fetch : Str → Result Bytes
  pub fault : Call → Option Str
  pub first_error : Str → List Str → Str

-- The calls so far, and the error with which the restore stops.
abbrev pub Outcome : Type 0
Outcome = List Call × Option Str

issue : World → Call → List Call → Outcome
issue w c trace = (trace ++ (c ∷ []), w.fault c)

-- The blocks in order, or the messages of the downloads that fail.
unfoldable pub download : World → List Str → List Bytes × List Str
download w [] = ([], [])
download w (cid ∷ cids) =
    let (blocks, errors) = download w cids in
    elim (w.fetch cid) [
      | ok b ↦ (b ∷ blocks, errors)
      | err m ↦ (blocks, (codes "failed to download block " ++ (cid ++ (codes ": " ++ m))) ∷ errors)
    ]

write_blocks : World → Str → List Bytes → List Call → Outcome
unfolding issue
write_blocks w path [] trace = (trace, none)
write_blocks w path (b ∷ bs) trace =
    let (trace', failure) = issue w (append path b) trace in
    elim failure [ some m ↦ (trace', some m) | none ↦ write_blocks w path bs trace' ]

open_and_write : World → Str → ℕ → List Bytes → List Call → Outcome
unfolding issue write_blocks
open_and_write w path mode blocks trace =
    let (trace', failure) = issue w (open_file path mode) trace in
    elim failure [ some m ↦ (trace', some m) | none ↦ write_blocks w path blocks trace' ]

restore_blocks : World → Str → ℕ → List Bytes × List Str → List Call → Outcome
unfolding open_and_write
restore_blocks w path mode (blocks, []) trace = open_and_write w path mode blocks trace
restore_blocks w path mode (blocks, e ∷ es) trace = (trace, some (w.first_error e es))

unfoldable pub restore_file : World → List Str → ℕ → Str → List Call → Outcome
unfolding issue restore_blocks download
restore_file w [] mode path trace = issue w (write_file path [] mode) trace
restore_file w (cid ∷ cids) mode path trace =
    restore_blocks w path mode (download w (cid ∷ cids)) trace

labelled : Str → Str → Outcome → Outcome
labelled what path (trace, none) = (trace, none)
labelled what path (trace, some m) = (trace, some (what ++ (path ++ (codes ": " ++ m))))

restore_dir : World → Str → FileType → Entry → List Call → Outcome
unfolding issue labelled
restore_dir w out dir e trace =
    labelled (codes "failed to create directory ") e.path
      (issue w (mkdir_all (join_path out e.path) e.mode) trace)
restore_dir w out _ e trace = (trace, none)

-- The first pass.
restore_dirs : World → Str → List Entry → List Call → Outcome
unfolding restore_dir
restore_dirs w out [] trace = (trace, none)
restore_dirs w out (e ∷ es) trace =
    let (trace', failure) = restore_dir w out e.type e trace in
    elim failure [ some m ↦ (trace', some m) | none ↦ restore_dirs w out es trace' ]

restore_entry : World → Str → FileType → Entry → List Call → Outcome
unfolding issue labelled
restore_entry w out file e trace =
    labelled (codes "failed to restore file ") e.path
      (restore_file w e.blocks e.mode (join_path out e.path) trace)
restore_entry w out symlink e trace =
    labelled (codes "failed to create symlink ") e.path
      (issue w (make_symlink e.link_target (join_path out e.path)) trace)
restore_entry w out _ e trace = (trace, none)

-- The second pass.
restore_entries : World → Str → List Entry → List Call → Outcome
unfolding restore_entry
restore_entries w out [] trace = (trace, none)
restore_entries w out (e ∷ es) trace =
    let (trace', failure) = restore_entry w out e.type e trace in
    elim failure [ some m ↦ (trace', some m) | none ↦ restore_entries w out es trace' ]

-- The third pass, whose failures are printed and passed over.
unfoldable pub attribute_calls : Str → FileType → Entry → List Call
attribute_calls out symlink e = []
attribute_calls out _ e =
    chmod (join_path out e.path) e.mode ∷ chtimes (join_path out e.path) e.mtime ∷ []

set_attributes : Str → List Entry → List Call → List Call
unfolding attribute_calls
set_attributes out [] trace = trace
set_attributes out (e ∷ es) trace = set_attributes out es (trace ++ attribute_calls out e.type e)

unfoldable pub restore : World → Manifest → Str → Outcome
unfolding issue restore_dirs restore_entries set_attributes
restore w m out =
    let (trace1, failure1) = issue w (mkdir_all out 0o755) [] in
    elim failure1 [
      | some msg ↦ (trace1, some (codes "failed to create output directory: " ++ msg))
      | none ↦
          let (trace2, failure2) = restore_dirs w out m.entries trace1 in
          elim failure2 [
            | some msg ↦ (trace2, some msg)
            | none ↦
                let (trace3, failure3) = restore_entries w out m.entries trace2 in
                elim failure3 [
                  | some msg ↦ (trace3, some msg)
                  | none ↦ (set_attributes out m.entries trace3, none)
                ]
          ]
    ]
