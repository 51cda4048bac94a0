-- ===== src/Backup/Ignore/Glob.antt =====
-- filepath.Match, as ignore.go uses it: whether the whole name matches, and false for a malformed
-- pattern. It is exact where pattern and name are ASCII.
use ib.Prelude.{
  ℕ, Str, List, [], ◌∷◌, ◌++◌, Bool, true, false, not, ◌&&◌, ◌||◌, Option, none, some, leb, ◌==◌,
  is_empty, if◌then◌else◌,
}

pub data Test : Type 0 where
  literal : ℕ → Test
  any_byte : Test
  class : Bool → List (ℕ × ℕ) → Test

pub data Item : Type 0 where
  star : Item
  one : Test → Item

-- Where the reading of a pattern stands: outside a class, behind a backslash, and in a class before
-- its first character, before a range, in one, or behind a backslash there.
pub data Mode : Type 0 where
  normal : Mode
  escape : Mode
  class_start : Mode
  before_range : Bool → List (ℕ × ℕ) → Mode
  escape_low : Bool → List (ℕ × ℕ) → Mode
  after_low : Bool → List (ℕ × ℕ) → ℕ → Mode
  before_high : Bool → List (ℕ × ℕ) → ℕ → Mode
  escape_high : Bool → List (ℕ × ℕ) → ℕ → Mode

pub data Reading : Type 0 where
  bad : Reading
  go : Mode → Reading
  emit : Item → Reading

range_step : Bool → List (ℕ × ℕ) → ℕ → Reading
range_step negated ranges c =
    if c == b']' && not (is_empty ranges)
    then emit (one (class negated ranges))
    else if c == b'-' || c == b']'
    then bad
    else if c == 92
    then go (escape_low negated ranges)
    else go (after_low negated ranges c)

step : Mode → ℕ → Reading
unfolding range_step
step normal c =
    if c == b'*'
    then emit star
    else if c == b'?'
    then emit (one any_byte)
    else if c == b'['
    then go class_start
    else if c == 92
    then go escape
    else emit (one (literal c))
step escape c = emit (one (literal c))
step class_start c = if c == b'^' then go (before_range true []) else range_step false [] c
step (before_range negated ranges) c = range_step negated ranges c
step (escape_low negated ranges) c = go (after_low negated ranges c)
step (after_low negated ranges low) c =
    if c == b'-'
    then go (before_high negated ranges low)
    else range_step negated (ranges ++ ((low, low) ∷ [])) c
step (before_high negated ranges low) c =
    if c == b'-' || c == b']'
    then bad
    else if c == 92
    then go (escape_high negated ranges low)
    else go (before_range negated (ranges ++ ((low, c) ∷ [])))
step (escape_high negated ranges low) c = go (before_range negated (ranges ++ ((low, c) ∷ [])))

prepend : Item → Option (List Item) → Option (List Item)
prepend i none = none
prepend i (some items) = some (i ∷ items)

compile : Mode → Str → Option (List Item)
unfolding step prepend
compile normal [] = some []
compile _ [] = none
compile mode (c ∷ s) = elim (step mode c) [
  | bad ↦ none
  | go next ↦ compile next s
  | emit i ↦ prepend i (compile normal s)
]

in_ranges : List (ℕ × ℕ) → ℕ → Bool
in_ranges [] c = false
in_ranges ((low, high) ∷ ranges) c = (leb low c && leb c high) || in_ranges ranges c

-- A question mark does not match a slash. A class does not look for one.
accepts : Test → ℕ → Bool
unfolding in_ranges
accepts (literal x) c = c == x
accepts any_byte c = not (c == b'/')
accepts (class negated ranges) c = if negated then not (in_ranges ranges c) else in_ranges ranges c

match_items : List Item → Str → Bool
unfolding accepts
match_items [] [] = true
match_items [] (c ∷ s) = false
match_items (star ∷ p) [] = match_items p []
match_items (star ∷ p) (c ∷ s) =
    match_items p (c ∷ s) || (not (c == b'/') && match_items (star ∷ p) s)
match_items (one t ∷ p) [] = false
match_items (one t ∷ p) (c ∷ s) = accepts t c && match_items p s

unfoldable pub path_match : Str → Str → Bool
unfolding compile match_items
path_match pattern name = elim (compile normal pattern) [
  | none ↦ false
  | some items ↦ match_items items name
]
