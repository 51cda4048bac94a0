-- ===== src/Backup/Manifest/Index.antt =====
-- The index by path agrees with the search.
use ib.Prelude.{
  ◌≡◌, refl, Str, Dict, List, [], ◌∷◌, Option, none, some, lookup, insert, lookup-insert,
  str_eq_sym, str_eq_iff, ap, arith,
}
use ib.Backup.Manifest.{Entry, Manifest, find_loop, find_entry, index_loop, build_entry_index}

-- No path is listed twice.
abbrev pub UniquePaths : List Entry → Type 0
UniquePaths [] = Unit
UniquePaths (e ∷ es) = (find_loop es e.path ≡ none) × UniquePaths es

or_else : Option Entry → Option Entry → Option Entry
or_else (some e) o = some e
or_else none o = o

lookup-index_loop :
    (path : Str) (es : List Entry) (index : Dict Entry)
    → UniquePaths es
    → lookup path (index_loop es index) ≡ or_else (find_loop es path) (lookup path index)
unfolding index_loop find_loop or_else
lookup-index_loop path [] index h = refl
lookup-index_loop path (e ∷ es) index (fresh, h) = ground (
  arith,
  lookup-index_loop path es (insert e.path e index) h,
  lookup-insert path e.path e index,
  str_eq_sym path e.path,
  str_eq_iff e.path path,
  fresh,
  ap (find_loop es) {x = e.path} {y = path},
)

-- Where no two entries have one path, BuildEntryIndex and FindEntry give the same entry for every
-- path, or both give none.
pub lookup-build_entry_index :
    (m : Manifest) (path : Str)
    → UniquePaths m.entries
    → lookup path (build_entry_index m) ≡ find_entry m path
unfolding build_entry_index find_entry or_else lookup
lookup-build_entry_index m path h = ground (arith, lookup-index_loop path m.entries [] h)
