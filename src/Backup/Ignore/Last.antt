-- ===== src/Backup/Ignore/Last.antt =====
-- The last pattern that applies to a path decides.
use ib.Prelude.{
  ◌≡◌, refl, Str, [], ◌∷◌, Bool, false, not, ◌&&◌, Option, none, some, arith, if◌then◌else◌,
}
use ib.Backup.Ignore.{IgnorePattern, IgnoreMatcher, match_pattern, match_loop, is_ignored}

abbrev pub applies : Str → Bool → IgnorePattern → Bool
applies path is_dir p = not (p.dir_only && not is_dir) && match_pattern p.pattern path

-- The last pattern that applies, searched from the end.
abbrev pub last_applying : Str → Bool → IgnoreMatcher → Option IgnorePattern
last_applying path is_dir [] = none
last_applying path is_dir (p ∷ ps) = elim (last_applying path is_dir ps) [
  | some q ↦ some q
  | none ↦ if applies path is_dir p then some p else none
]

match_loop_lem :
    (m : IgnoreMatcher) (path : Str) (is_dir ignored : Bool)
    → match_loop m path is_dir ignored
      ≡ elim (last_applying path is_dir m) [ none ↦ ignored | some p ↦ not p.negation ]
unfolding match_loop
match_loop_lem [] path is_dir ignored = refl
match_loop_lem (p ∷ ps) path is_dir ignored =
    ground
      (arith, match_loop_lem ps path is_dir ignored, match_loop_lem ps path is_dir (not p.negation))

-- A path is ignored exactly if some pattern applies to it and the last one that does is no
-- negation. A pattern for directories only does not apply to a file.
pub is_ignored-last_applying :
    (m : IgnoreMatcher) (path : Str) (is_dir : Bool)
    → is_ignored m path is_dir
      ≡ elim (last_applying path is_dir m) [ none ↦ false | some p ↦ not p.negation ]
unfolding is_ignored
is_ignored-last_applying m path is_dir = match_loop_lem m path is_dir false
