-- ===== src/Backup/Scanner.antt =====
-- internal/backup/scanner.go: the walk over a directory tree, with ignore files on the way.
pub mod Visible
pub mod Parents
use ib.Prelude.{
  ℕ, Str, Bytes, codes, List, [], ◌∷◌, ◌++◌, Bool, true, false, not, Option, none, some, Result, ok,
  err, is_empty, if◌then◌else◌,
}
use ib.Backup.Manifest.{FileType, file, dir, symlink, Entry}
use ib.Backup.Ignore.{IgnoreMatcher, Opened, load_file, is_ignored}

-- What d.Info() gives, without the type. `mtime` in nanoseconds, and `size` is of regular files.
pub record Info : Type 0 where
  pub perm : ℕ
  pub mtime : ℕ
  pub size : ℕ

-- An entry that is no directory, by its type; a symlink with what os.Readlink gives. `special` is a
-- socket, a device or a pipe.
pub data Leaf : Type 0 where
  regular : Leaf
  link : Result Str → Leaf
  special : Leaf

-- The .gitignore and the .ibignore of a directory.
pub record Ignores : Type 0 where
  pub git_file : Opened
  pub ib_file : Opened

-- A directory tree that stays as it is during a scan: the entries of a directory in the order of
-- os.ReadDir, with its error if it ends in one.
mutual
  pub data Tree : Type 0 where
    leaf : Str → Result Info → Leaf → Tree
    folder : Str → Result Info → Ignores → Option Str → Forest → Tree

  pub data Forest : Type 0 where
    empty : Forest
    also : Tree → Forest → Forest

-- What filepath.WalkDir finds at the root: an error of os.Lstat, something else than a directory,
-- or a directory.
pub data Root : Type 0 where
  unreadable : Str → Root
  not_a_directory : Root
  directory : Ignores → Option Str → Forest → Root

pub data ScanResult : Type 0 where
  found : Entry → ScanResult
  scan_error : Str → ScanResult

-- The path relative to the root of an entry, from that of its directory, which is "" for the root.
abbrev pub under : Str → Str → Str
under parent name = if is_empty parent then name else parent ++ (codes "/" ++ name)

unfoldable pub dir_entry : Str → Info → Entry
dir_entry path info = record {
  path = path;
  type = dir;
  mode = info.perm;
  mtime = info.mtime;
  size = 0;
  cid = [];
  blocks = [];
  link_target = [];
}

-- The entry of a leaf, or its error; nothing for a special file.
unfoldable pub leaf_results : Str → Info → Leaf → List ScanResult
unfolding dir_entry
leaf_results path info regular =
    found (record (dir_entry path info) { type = file; size = info.size }) ∷ []
leaf_results path info (link (ok target)) =
    found (record (dir_entry path info) { type = symlink; link_target = target }) ∷ []
leaf_results path info (link (err m)) = scan_error m ∷ []
leaf_results path info special = []

abbrev pub error_results : Option Str → List ScanResult
error_results none = []
error_results (some m) = scan_error m ∷ []

-- The errors of LoadFile are dropped.
unfoldable pub load_ignores : Ignores → IgnoreMatcher → IgnoreMatcher
unfolding load_file
load_ignores g m = (load_file g.ib_file (load_file g.git_file m).0).0

-- The walk below one directory. The matcher is the Scanner's, and it grows on the way. A directory
-- whose information cannot be read is walked nevertheless, without its ignore files.
unfoldable mutual
  unfolding is_ignored leaf_results load_ignores dir_entry

  pub walk : Str → Tree → IgnoreMatcher → IgnoreMatcher × List ScanResult
  walk parent (leaf name (err m) l) matcher = (matcher, scan_error m ∷ [])
  walk parent (leaf name (ok info) l) matcher = (
    matcher,
    if is_ignored matcher (under parent name) false
        then []
        else leaf_results (under parent name) info l,
  )
  walk parent (folder name (err m) g failure children) matcher =
      let (matcher', results) = walk_all (under parent name) children matcher in
      (matcher', scan_error m ∷ (error_results failure ++ results))
  walk parent (folder name (ok info) g failure children) matcher =
      let path = under parent name in
      let (matcher', results) = walk_all path children (load_ignores g matcher) in
      if is_ignored matcher path true
      then (matcher, [])
      else (matcher', found (dir_entry path info) ∷ (error_results failure ++ results))

  pub walk_all : Str → Forest → IgnoreMatcher → IgnoreMatcher × List ScanResult
  walk_all parent empty matcher = (matcher, [])
  walk_all parent (also t ts) matcher =
      let (matcher1, results) = walk parent t matcher in
      let (matcher2, more) = walk_all parent ts matcher1 in (matcher2, results ++ more)

-- What the channel delivers.
unfoldable pub scan : Root → List ScanResult
unfolding walk_all load_ignores
scan (unreadable m) = scan_error m ∷ []
scan not_a_directory = []
scan (directory g failure children) =
    error_results failure ++ (walk_all [] children (load_ignores g [])).1
