-- ===== src/Ipfs/ManifestDag/Placed.antt =====
-- Which entry stands at a path when all entries are added.
use ib.Prelude.{
  ◌<◌, ◌≤◌, ◌-◌, ◌^◌, ◌≡◌, refl, ◌∙◌, ap, Str, List, [], ◌∷◌, ◌++◌, false, All, All-split, length,
  split, is_empty, Bool-cases, inl, inr, arith,
}
use ib.Backup.Manifest.{FileType, file, dir, symlink, other, Entry}
use ib.Ipfs.ManifestDag.Tree.{
  DirNode, dir_node, empty_dir, add_last, add_path, add_entries, build_tree,
}
use ib.Ipfs.ManifestDag.Order.{IsTree, Fits, with_child-AreChildren, set_file-Fits, length-split}
use ib.Ipfs.ManifestDag.Look.{
  nothing, a_file, look, look-empty_dir, names, is_prefix, is_dir, look-add_path, look_added,
}

add_last-IsTree :
    (t : FileType) (n : Str) (e : Entry) (d : DirNode)
    → Fits n e
    → IsTree d
    → IsTree (add_last t n e d)
unfolding add_last
add_last-IsTree dir n e (dir_node ds files) h (t, ts) =
    (with_child-AreChildren n (λ d. d) ds h.0 (λ d x. x) t, ts)
add_last-IsTree file n e (dir_node ds files) h (t, ts) = (t, set_file-Fits n e files h ts)
add_last-IsTree symlink n e (dir_node ds files) h (t, ts) = (t, set_file-Fits n e files h ts)
add_last-IsTree (other s) n e (dir_node ds files) h (t, ts) = (t, set_file-Fits n e files h ts)

add_path-IsTree :
    (path : List Str) (e : Entry) (d : DirNode)
    → All (λ p. length p ≤ 2 ^ 32 - 1) path
    → e.size < 2 ^ 64
    → IsTree d
    → IsTree (add_path path e d)
unfolding add_path
add_path-IsTree [] e d h size t = t
add_path-IsTree (name ∷ []) e d (h, _) size t = elim (Bool-cases (is_empty name)) [
  | inl q ↦ rw q t
  | inr q ↦ rw q (add_last-IsTree e.type name e d (omega arith, size) t)
]
add_path-IsTree (part ∷ p ∷ path) e (dir_node ds files) (h, hs) size t =
    elim (Bool-cases (is_empty part)) [
      | inl q ↦ rw q (add_path-IsTree (p ∷ path) e (dir_node ds files) hs size t)
      | inr q ↦ rw q (
        with_child-AreChildren part (add_path (p ∷ path) e) ds (omega arith)
            (λ d x. add_path-IsTree (p ∷ path) e d hs size x) t.0,
        t.1,
      )
    ]

-- Entries whose paths and sizes fit into the nodes of the format.
abbrev pub IsSmall : Entry → Type 0
IsSmall e = (length e.path < 2 ^ 32) × (e.size < 2 ^ 64)

add_entry-IsTree :
    (e : Entry) (d : DirNode) → IsSmall e → IsTree d → IsTree (add_path (split b'/' e.path) e d)
add_entry-IsTree e d (short, size) t =
    add_path-IsTree (split b'/' e.path) e d (length-split b'/' (2 ^ 32 - 1) e.path (omega arith))
      size t

pub add_entries-IsTree :
    (es : List Entry) (d : DirNode) → All IsSmall es → IsTree d → IsTree (add_entries es d)
unfolding add_entries
add_entries-IsTree [] d h t = t
add_entries-IsTree (e ∷ es) d (h, hs) t =
    add_entries-IsTree es (add_path (split b'/' e.path) e d) hs (add_entry-IsTree e d h t)

-- The entry does not stand at the path or below it.
abbrev pub IsElsewhere : Str → List Str → Entry → Type 0
IsElsewhere n parts x = is_prefix n parts (names (split b'/' x.path)) ≡ false

look-add_entries :
    (n : Str) (parts : List Str) (es : List Entry) (d : DirNode)
    → All IsSmall es
    → IsTree d
    → All (IsElsewhere n parts) es
    → look n parts (add_entries es d) ≡ look n parts d
unfolding add_entries
look-add_entries n parts [] d h t out = refl
look-add_entries n parts (e ∷ es) d (h, hs) t (out, outs) =
    look-add_entries n parts es (add_path (split b'/' e.path) e d) hs (add_entry-IsTree e d h t)
      outs
    ∙ look-add_path n parts (split b'/' e.path) e d t out

add_entries-append :
    (xs ys : List Entry) (d : DirNode)
    → add_entries (xs ++ ys) d ≡ add_entries ys (add_entries xs d)
unfolding add_entries
add_entries-append [] ys d = refl
add_entries-append (x ∷ xs) ys d = add_entries-append xs ys (add_path (split b'/' x.path) x d)

-- A file or a link with a clean path stands there in the tree, if no other entry has the path or
-- lies below it.
pub look-build_tree :
    (xs ys : List Entry) (e : Entry) (n : Str) (parts : List Str)
    → All IsSmall (xs ++ (e ∷ ys))
    → split b'/' e.path ≡ n ∷ parts
    → All (λ p. is_empty p ≡ false) (n ∷ parts)
    → is_dir e.type ≡ false
    → All (IsElsewhere n parts) xs
    → All (IsElsewhere n parts) ys
    → look n parts (build_tree (xs ++ (e ∷ ys))) ≡ a_file e
unfolding build_tree add_entries
look-build_tree xs ys e n parts small path full t before behind =
    let (sx, (se, sy)) = All-split IsSmall xs (e ∷ ys) small in
    let d : DirNode = add_entries xs empty_dir in
    let td : IsTree d = add_entries-IsTree xs empty_dir sx (tt, tt) in
    let free : look n parts d ≡ nothing =
      look-add_entries n parts xs empty_dir sx (tt, tt) before ∙ look-empty_dir n parts in
    ap (look n parts) (add_entries-append xs (e ∷ ys) empty_dir)
    ∙ look-add_entries n parts ys (add_path (split b'/' e.path) e d) sy (add_entry-IsTree e d se td)
        behind
    ∙ ap (λ p. look n parts (add_path p e d)) path
    ∙ look_added n parts e d td full t free

pub build_tree-IsTree : (es : List Entry) → All IsSmall es → IsTree (build_tree es)
unfolding build_tree
build_tree-IsTree es h = add_entries-IsTree es empty_dir h (tt, tt)
