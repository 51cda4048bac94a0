-- ===== src/Backup/Scanner/Parents.antt =====
-- The order of a scan: directories before what they hold.
use ib.Prelude.{
  ◌≡◌, refl, Str, List, [], ◌∷◌, ◌++◌, Bool, true, false, ◌||◌, Option, none, some, ok, err, any,
  is_empty, ◌==◌, str_eq, str_eq_refl, arith, Bool-cases, inl, inr,
}
use ib.Backup.Manifest.{FileType, file, dir, symlink, other}
use ib.Backup.Ignore.{IgnoreMatcher, is_ignored}
use ib.Backup.Scanner.{
  Info, Leaf, regular, link, special, Tree, Forest, Root, unreadable, not_a_directory, leaf, folder,
  empty, also, directory, ScanResult, found, scan_error, under, dir_entry, leaf_results,
  error_results, load_ignores, walk, walk_all, scan,
}

-- The name of an entry of a directory: it is not empty and has no slash.
abbrev pub IsName : Str → Type 0
IsName name = (is_empty name ≡ false) × (any (λ c. c == b'/') name ≡ false)

-- The information of every directory can be read, and every entry goes by a name.
unfoldable mutual
  pub IsReadable : Tree → Type 0
  IsReadable (leaf name info l) = IsName name
  IsReadable (folder name (err m) g failure children) = ⊥
  IsReadable (folder name (ok info) g failure children) = IsName name × AllReadable children

  pub AllReadable : Forest → Type 0
  AllReadable empty = Unit
  AllReadable (also t ts) = IsReadable t × AllReadable ts

-- The root, or a directory that was found already.
abbrev pub is_known : Str → List Str → Bool
is_known path seen = is_empty path || any (str_eq path) seen

abbrev pub with_dir : FileType → Str → List Str → List Str
with_dir dir path seen = path ∷ seen
with_dir _ path seen = seen

-- The directories that are found, before those of `seen`.
abbrev pub after : List Str → List ScanResult → List Str
after seen [] = seen
after seen (scan_error m ∷ rs) = after seen rs
after seen (found e ∷ rs) = after (with_dir e.type e.path seen) rs

-- A path is that of an entry of the root or of one of the directories: it is a name, or a directory's
-- path, a slash and a name.
abbrev pub IsBelow : List Str → Str → Type 0
IsBelow dirs path =
    (parent : Str) × (name : Str) × IsName name
    × (path ≡ under parent name)
    × (is_known parent dirs ≡ true)

-- Each entry stands in the root or in a directory that was found before it.
abbrev pub IsParentFirst : List Str → List ScanResult → Type 0
IsParentFirst seen [] = Unit
IsParentFirst seen (scan_error m ∷ rs) = IsParentFirst seen rs
IsParentFirst seen (found e ∷ rs) =
    IsBelow seen e.path × IsParentFirst (with_dir e.type e.path seen) rs

pub known-after :
    (path : Str) (seen : List Str) (rs : List ScanResult)
    → is_known path seen ≡ true
    → is_known path (after seen rs) ≡ true
known-after path seen [] h = h
known-after path seen (scan_error m ∷ rs) h = known-after path seen rs h
known-after path seen (found e ∷ rs) h =
    known-after path (with_dir e.type e.path seen) rs (more e.type e.path h)
  where
    more :
        (t : FileType) (p : Str)
        → is_known path seen ≡ true
        → is_known path (with_dir t p seen) ≡ true
    more file p h = h
    more dir p h = ground (arith, h)
    more symlink p h = h
    more (other s) p h = h

append-IsParentFirst :
    (seen : List Str) (xs ys : List ScanResult)
    → IsParentFirst seen xs
    → IsParentFirst (after seen xs) ys
    → IsParentFirst seen (xs ++ ys)
append-IsParentFirst seen [] ys h k = k
append-IsParentFirst seen (scan_error m ∷ xs) ys h k = append-IsParentFirst seen xs ys h k
append-IsParentFirst seen (found e ∷ xs) ys (p, h) k =
    (p, append-IsParentFirst (with_dir e.type e.path seen) xs ys h k)

errors-IsParentFirst :
    (seen : List Str) (failure : Option Str) (rs : List ScanResult)
    → IsParentFirst seen rs
    → IsParentFirst seen (error_results failure ++ rs)
errors-IsParentFirst seen none rs h = h
errors-IsParentFirst seen (some m) rs h = h

leaf_results-IsParentFirst :
    (seen : List Str) (parent name : Str) (info : Info) (l : Leaf)
    → IsName name
    → is_known parent seen ≡ true
    → IsParentFirst seen (leaf_results (under parent name) info l)
unfolding leaf_results dir_entry
leaf_results-IsParentFirst seen parent name info regular n k = ((parent, name, n, refl, k), tt)
leaf_results-IsParentFirst seen parent name info (link (ok target)) n k =
    ((parent, name, n, refl, k), tt)
leaf_results-IsParentFirst seen parent name info (link (err m)) n k = tt
leaf_results-IsParentFirst seen parent name info special n k = tt

mutual
  unfolding walk walk_all dir_entry IsReadable AllReadable

  walk-IsParentFirst :
      (seen : List Str) (parent : Str) (t : Tree) (m : IgnoreMatcher)
      → IsReadable t
      → is_known parent seen ≡ true
      → IsParentFirst seen (walk parent t m).1
  walk-IsParentFirst seen parent (leaf name (err msg) l) m r k = tt
  walk-IsParentFirst seen parent (leaf name (ok info) l) m r k =
      elim (Bool-cases (is_ignored m (under parent name) false)) [
        | inl t ↦ rw (t, walk) tt
        | inr t ↦ rw (t, walk) (leaf_results-IsParentFirst seen parent name info l r k)
      ]
  walk-IsParentFirst seen parent (folder name (err msg) g failure children) m r k = absurd r
  walk-IsParentFirst seen parent (folder name (ok info) g failure children) m (n, r) k =
      elim (Bool-cases (is_ignored m (under parent name) true)) [
        | inl t ↦ rw (t, walk) tt
        | inr t ↦
            let path = under parent name in
            rw (t, walk)
              (
                (parent, name, n, refl, k),
                errors-IsParentFirst (path ∷ seen) failure _ (
                    walk_all-IsParentFirst (path ∷ seen) path children (load_ignores g m) r
                      (ground (arith, str_eq_refl path))),
              )
      ]

  walk_all-IsParentFirst :
      (seen : List Str) (parent : Str) (ts : Forest) (m : IgnoreMatcher)
      → AllReadable ts
      → is_known parent seen ≡ true
      → IsParentFirst seen (walk_all parent ts m).1
  walk_all-IsParentFirst seen parent empty m r k = tt
  walk_all-IsParentFirst seen parent (also t ts) m (r, rs) k =
      let first = (walk parent t m).1 in
      append-IsParentFirst seen first (walk_all parent ts (walk parent t m).0).1
        (walk-IsParentFirst seen parent t m r k)
        (walk_all-IsParentFirst (after seen first) parent ts (walk parent t m).0 rs
          (known-after parent seen first k))

abbrev pub RootIsReadable : Root → Type 0
RootIsReadable (directory g failure ts) = AllReadable ts
RootIsReadable _ = Unit

-- Whatever the ignore files at any level say and whichever other errors occur: where the
-- information of every directory can be read, and the names in it are not empty and have no slash,
-- the scan gives each entry after the directory that it stands in: the path of an entry is a name,
-- or the path of a directory that was given before, a slash and a name.
pub scan-IsParentFirst : (r : Root) → RootIsReadable r → IsParentFirst [] (scan r)
unfolding scan
scan-IsParentFirst (unreadable m) h = tt
scan-IsParentFirst not_a_directory h = tt
scan-IsParentFirst (directory g failure ts) h =
    errors-IsParentFirst [] failure _ (walk_all-IsParentFirst [] [] ts (load_ignores g []) h refl)
