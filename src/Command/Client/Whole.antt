-- ===== src/Command/Client/Whole.antt =====
-- The manifest of a scanned tree holds the directory of each of its entries.
use ib.Prelude.{
  Bool-cases, subst, ◌≡◌, refl, sym, ◌∙◌, ap, Str, Dict, List, [], ◌∷◌, ◌++◌, Bool, true, not, ◌||◌,
  Option, ok, All, All-append, any, filter, is_empty, map, str_eq, arith, inl, inr,
}
use ib.Backup.Manifest.{FileType, file, dir, symlink, other, Entry, Manifest}
use ib.Backup.Scanner.{Root, ScanResult, found, scan_error, scan}
use ib.Backup.Scanner.Parents.{
  is_known, with_dir, after, known-after, IsBelow, IsParentFirst, RootIsReadable,
  scan-IsParentFirst,
}
use ib.Backup.Creator.{World, Ending, finished, unreadable, stopped, create, index_of}
use ib.Backup.Creator.Entries.{
  ending_of, file_of, others_of, files_of, all_others, all_files, scanned, manifest_of, create_lem,
}
use ib.Command.Client.{as_result}

-- The paths of the directories among some entries.
abbrev pub dir_paths : List Entry → List Str
dir_paths [] = []
dir_paths (e ∷ es) = with_dir e.type e.path (dir_paths es)

-- The entry stands in the root or in one of the directories.
abbrev pub HasDir : List Str → Entry → Type 0
HasDir dirs e = IsBelow dirs e.path

abbrev entries_of : List ScanResult → List Entry
entries_of rs = scanned (map as_result rs)

any-with_dir :
    (p path : Str) (t : FileType) (seen more : List Str)
    → (any (str_eq p) (with_dir t path seen) || any (str_eq p) more)
      ≡ (any (str_eq p) seen || any (str_eq p) (with_dir t path more))
any-with_dir p path file seen more = refl
any-with_dir p path dir seen more = ground arith
any-with_dir p path symlink seen more = refl
any-with_dir p path (other s) seen more = refl

any-after :
    (p : Str) (seen : List Str) (rs : List ScanResult)
    → any (str_eq p) (after seen rs)
      ≡ (any (str_eq p) seen || any (str_eq p) (dir_paths (entries_of rs)))
unfolding as_result
any-after p seen [] = ground arith
any-after p seen (scan_error m ∷ rs) = any-after p seen rs
any-after p seen (found e ∷ rs) =
    any-after p (with_dir e.type e.path seen) rs
    ∙ any-with_dir p e.path e.type seen (dir_paths (entries_of rs))

-- The directories of a scan are enough for its entries.
scan-HasDir :
    (seen : List Str) (rs : List ScanResult) (dirs : List Str)
    → ((p : Str) → is_known p (after seen rs) ≡ true → is_known p dirs ≡ true)
    → IsParentFirst seen rs
    → All (HasDir dirs) (entries_of rs)
unfolding as_result
scan-HasDir seen [] dirs sub h = tt
scan-HasDir seen (scan_error m ∷ rs) dirs sub h = scan-HasDir seen rs dirs sub h
scan-HasDir seen (found e ∷ rs) dirs sub ((parent, name, proper, same, known), h) = (
  (parent, name, proper, same, sub parent (known-after parent seen (found e ∷ rs) known)),
  scan-HasDir (with_dir e.type e.path seen) rs dirs sub h,
)

module _ (w : World) (index : Option (Dict Entry)) where
  others-with_dir :
      (t : FileType) (e : Entry) (es : List Entry)
      → e.type ≡ t
      → dir_paths (others_of w index t e ++ es) ≡ with_dir t e.path (dir_paths es)
  others-with_dir file e es h = refl
  others-with_dir dir e es h = ap (λ t. with_dir t e.path (dir_paths es)) h
  others-with_dir symlink e es h = ap (λ t. with_dir t e.path (dir_paths es)) h
  others-with_dir (other s) e es h = ap (λ t. with_dir t e.path (dir_paths es)) h

  -- No directory is lost.
  dir_paths-all_others : (es : List Entry) → dir_paths (all_others w index es) ≡ dir_paths es
  dir_paths-all_others [] = refl
  dir_paths-all_others (e ∷ es) =
      others-with_dir e.type e (all_others w index es) refl
      ∙ ap (with_dir e.type e.path) (dir_paths-all_others es)

  module _ (dirs : List Str) where
    others-HasDir :
        (t : FileType) (e : Entry) → HasDir dirs e → All (HasDir dirs) (others_of w index t e)
    others-HasDir file e h = tt
    others-HasDir dir e h = (h, tt)
    others-HasDir symlink e h = (h, tt)
    others-HasDir (other s) e h = (h, tt)

    file-HasDir : (e : Entry) (x : Ending) → HasDir dirs e → All (HasDir dirs) (file_of w index e x)
    file-HasDir e (finished bs) h = (h, tt)
    file-HasDir e unreadable h = (h, tt)
    file-HasDir e (stopped m) h = tt

    files-HasDir :
        (t : FileType) (e : Entry) → HasDir dirs e → All (HasDir dirs) (files_of w index t e)
    files-HasDir file e h = file-HasDir e (ending_of w index e) h
    files-HasDir dir e h = tt
    files-HasDir symlink e h = tt
    files-HasDir (other s) e h = tt

    all_others-HasDir :
        (es : List Entry) → All (HasDir dirs) es → All (HasDir dirs) (all_others w index es)
    all_others-HasDir [] h = tt
    all_others-HasDir (e ∷ es) (p, h) =
        All-append (HasDir dirs) (others_of w index e.type e) (all_others w index es)
          (others-HasDir e.type e p) (all_others-HasDir es h)

    all_files-HasDir :
        (es : List Entry) → All (HasDir dirs) es → All (HasDir dirs) (all_files w index es)
    all_files-HasDir [] h = tt
    all_files-HasDir (e ∷ es) (p, h) =
        All-append (HasDir dirs) (files_of w index e.type e) (all_files w index es)
          (files-HasDir e.type e p) (all_files-HasDir es h)

filter-All :
    (dirs : List Str) (q : Entry → Bool) (es : List Entry)
    → All (HasDir dirs) es
    → All (HasDir dirs) (filter q es)
filter-All dirs q [] h = tt
filter-All dirs q (e ∷ es) (p, h) = elim (Bool-cases (q e)) [
  | inl t ↦ rw t (p, filter-All dirs q es h)
  | inr t ↦ rw t (filter-All dirs q es h)
]

any-dir_step :
    (p path : Str) (t : FileType) (xs ys zs : List Str)
    → any (str_eq p) zs ≡ (any (str_eq p) xs || any (str_eq p) ys)
    → any (str_eq p) (with_dir t path zs)
      ≡ (any (str_eq p) (with_dir t path xs) || any (str_eq p) ys)
any-dir_step p path file xs ys zs h = h
any-dir_step p path dir xs ys zs h = ground (arith, h)
any-dir_step p path symlink xs ys zs h = h
any-dir_step p path (other s) xs ys zs h = h

any-dir_paths :
    (p : Str) (xs ys : List Entry)
    → any (str_eq p) (dir_paths (xs ++ ys))
      ≡ (any (str_eq p) (dir_paths xs) || any (str_eq p) (dir_paths ys))
any-dir_paths p [] ys = refl
any-dir_paths p (e ∷ xs) ys =
    any-dir_step p e.path e.type (dir_paths xs) (dir_paths ys) (dir_paths (xs ++ ys))
      (any-dir_paths p xs ys)

-- The entries of a manifest that is made.
manifest_of_entries :
    (w : World) (created m : Manifest) (index : Option (Dict Entry)) (es : List Entry)
    → manifest_of w created index es ≡ ok m
    → all_others w index es ++ filter (λ e. not (is_empty e.blocks)) (all_files w index es)
      ≡ m.entries
manifest_of_entries w created m index es h = ground (arith, h)

-- If Create makes a manifest from a scan in which the information of every directory can be read and
-- the names are not empty and have no slash, each entry of the manifest stands in the root or in a
-- directory that is an entry of the manifest too: its path is a name, or the path of that directory,
-- a slash and a name. That is so whatever was ignored, could not be read or was dropped, and
-- whatever the previous backup was.
pub create-HasDir :
    (w : World) (created m : Manifest) (r : Root) (previous : Option Manifest)
    → RootIsReadable r
    → create w created (map as_result (scan r)) previous ≡ ok m
    → All (HasDir (dir_paths m.entries)) m.entries
create-HasDir w created m r previous readable made =
    let index = index_of previous in
    let es = entries_of (scan r) in
    let others = all_others w index es in
    let files = filter (λ e. not (is_empty e.blocks)) (all_files w index es) in
    let dirs = dir_paths (others ++ files) in
    let sub : (p : Str) → is_known p (after [] (scan r)) ≡ true → is_known p dirs ≡ true = λ p h.
      ground (
        arith,
        h,
        any-after p [] (scan r),
        ap (any (str_eq p)) (dir_paths-all_others w index es),
        any-dir_paths p others files,
      ) in
    let all = scan-HasDir [] (scan r) dirs sub (scan-IsParentFirst r readable) in
    subst (λ xs. All (HasDir (dir_paths xs)) xs)
      (manifest_of_entries w created m index es (sym (create_lem w created _ previous) ∙ made))
      (All-append (HasDir dirs) others files (all_others-HasDir w index dirs es all)
        (filter-All dirs _ (all_files w index es) (all_files-HasDir w index dirs es all)))
