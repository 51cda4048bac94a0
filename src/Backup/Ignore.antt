-- ===== src/Backup/Ignore.antt =====
-- internal/backup/ignore.go: ignore patterns and how a path is matched against them.
pub mod Glob
pub mod Last
use ib.Prelude.{
  Option, none, some, ℕ, Str, codes, List, [], ◌∷◌, ◌++◌, Bool, true, false, not, ◌&&◌, ◌||◌,
  str_eq, is_empty, has_prefix, has_suffix, contains, trim_prefix, trim_suffix, trim_space, base,
  split, on_head, join, drop, map, ◌==◌, if◌then◌else◌,
}
use ib.Backup.Ignore.Glob.{path_match}

pub record IgnorePattern : Type 0 where
  pub pattern : Str
  pub negation : Bool
  pub dir_only : Bool

-- The field of an `IgnoreMatcher`.
abbrev pub IgnoreMatcher : Type 0
IgnoreMatcher = List IgnorePattern

strip_negation : Str → IgnorePattern
unfolding has_prefix
strip_negation line =
    if has_prefix line (codes "!")
    then record { pattern = drop 1 line; negation = true; dir_only = false }
    else record { pattern = line; negation = false; dir_only = false }

strip_slash : IgnorePattern → IgnorePattern
unfolding has_suffix trim_suffix
strip_slash p =
    if has_suffix p.pattern (codes "/")
    then record p { pattern = trim_suffix p.pattern (codes "/"); dir_only = true }
    else p

-- A line of an ignore file that is neither empty nor a comment.
unfoldable pub parse_line : Str → IgnorePattern
unfolding strip_negation strip_slash
parse_line line = strip_slash (strip_negation line)

-- The loop of LoadFile over the file's lines.
unfoldable pub load_lines : IgnoreMatcher → List Str → IgnoreMatcher
unfolding trim_space has_prefix
load_lines m [] = m
load_lines m (text ∷ lines) =
    let line = trim_space text in
    load_lines
      (if is_empty line || has_prefix line (codes "#") then m else m ++ (parse_line line ∷ []))
      lines

-- What LoadFile meets: a file that is not there, one that cannot be opened, or its lines, with the
-- error that the reading of them ends in.
pub data Opened : Type 0 where
  missing : Opened
  not_opened : Str → Opened
  lines_of : List Str → Option Str → Opened

unfoldable pub load_file : Opened → IgnoreMatcher → IgnoreMatcher × Option Str
unfolding load_lines
load_file missing m = (m, none)
load_file (not_opened msg) m = (m, some msg)
load_file (lines_of lines failure) m = (load_lines m lines, failure)

-- The suffixes of the parts, joined, and the parts alone.
contains_match : List Str → Str → Bool
unfolding path_match join
contains_match [] pattern = false
contains_match (p ∷ ps) pattern =
    path_match pattern (join b'/' (p ∷ ps)) || path_match pattern p || contains_match ps pattern

-- strings.Split(pattern, "**")
split_double : Str → List Str
split_double [] = [] ∷ []
split_double (c ∷ []) = (c ∷ []) ∷ []
split_double (c ∷ d ∷ s) =
    let behind = split_double s in
    let along = split_double (d ∷ s) in
    if c == b'*' && d == b'*' then [] ∷ behind else on_head c along

plain_match : Str → Str → Bool
unfolding path_match base
plain_match pattern path = path_match pattern path || path_match pattern (base path)

-- A pattern with one "**" in it: what stands before it and what behind.
double_match : Str → Str → Str → Bool
unfolding contains_match has_prefix has_suffix trim_prefix split
double_match prefix suffix path =
    if not (is_empty prefix) && not (has_prefix path prefix)
    then false
    else if is_empty suffix
    then true
    else let rest = trim_prefix suffix (codes "/") in
      has_suffix path rest || contains_match (split b'/' path) rest

glob_parts : List Str → Str → Str → Bool
unfolding double_match plain_match
glob_parts (prefix ∷ suffix ∷ []) pattern path = double_match prefix suffix path
glob_parts _ pattern path = plain_match pattern path

-- Without "**" in it a pattern has one part.
unfoldable pub match_glob : Str → Str → Bool
unfolding glob_parts split_double
match_glob pattern path = glob_parts (split_double pattern) pattern path

unfoldable pub match_pattern : Str → Str → Bool
unfolding has_prefix contains has_suffix base
match_pattern pattern path =
    if has_prefix pattern (codes "/")
    then match_glob (drop 1 pattern) path
    else if contains pattern (codes "/")
    then match_glob pattern path || has_suffix path (b'/' ∷ pattern)
    else match_glob pattern (base path) || match_glob pattern path

-- The loop of Match over the patterns. Paths have forward slashes already.
match_loop : IgnoreMatcher → Str → Bool → Bool → Bool
match_loop [] path is_dir ignored = ignored
match_loop (p ∷ ps) path is_dir ignored = match_loop ps path is_dir (
    if p.dir_only && not is_dir
    then ignored
    else if match_pattern p.pattern path
    then not p.negation
    else ignored)

unfoldable pub is_ignored : IgnoreMatcher → Str → Bool → Bool
unfolding match_loop
is_ignored m path is_dir = match_loop m path is_dir false
