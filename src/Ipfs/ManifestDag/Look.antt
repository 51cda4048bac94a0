-- ===== src/Ipfs/ManifestDag/Look.antt =====
-- What stands at a path of the tree that buildDirectoryTree makes of the entries.
use ib.Prelude.{
  ◌≡◌, refl, ap, Str, Dict, List, [], ◌∷◌, Bool, true, false, not, ◌&&◌, Option, none, some, All,
  lookup, filter, str_eq, str_eq_iff, str_eq_refl, subst, Option-cases, is_empty, Bool-cases, inl,
  inr, arith,
}
use ib.Backup.Manifest.{FileType, file, dir, symlink, other, Entry}
use ib.Ipfs.ManifestDag.Tree.{
  DirNode, dir_node, Children, empty_dir, with_child, add_last, add_path,
}
use ib.Ipfs.ManifestDag.Order.{
  child_at, child_at-IsTree, or_empty, IsTree, AreChildren, child_at-with_child, lookup-set_file,
}

-- A directory hides a file of the same name, since the links to directories come first.
pub data Found : Type 0 where
  nothing : Found
  a_dir : Found
  a_file : Entry → Found

abbrev as_file : Option Entry → Found
as_file none = nothing
as_file (some e) = a_file e

abbrev pub last_found : Option Entry → Option DirNode → Found
last_found e none = as_file e
last_found e (some d) = a_dir

-- What stands at a path, which has at least one part.
unfoldable pub look : Str → List Str → DirNode → Found
look n [] (dir_node children files) = last_found (lookup n files) (child_at n children)
look n (p ∷ parts) (dir_node children files) = elim (child_at n children) [
  | none ↦ nothing
  | some d ↦ look p parts d
]

pub look-empty_dir : (n : Str) (parts : List Str) → look n parts empty_dir ≡ nothing
unfolding look child_at lookup
look-empty_dir n [] = refl
look-empty_dir n (p ∷ parts) = refl

-- The parts that count.
unfoldable pub names : List Str → List Str
names parts = filter (λ p. not (is_empty p)) parts

unfoldable pub is_prefix : Str → List Str → List Str → Bool
is_prefix n parts [] = false
is_prefix n [] (m ∷ ms) = str_eq n m
is_prefix n (p ∷ parts) (m ∷ ms) = str_eq n m && is_prefix p parts ms

abbrev pub is_dir : FileType → Bool
is_dir dir = true
is_dir _ = false

-- The write of the last part.
look-add_last :
    (n : Str) (parts : List Str) (t : FileType) (name : Str) (e : Entry) (d : DirNode)
    → IsTree d
    → is_prefix n parts (name ∷ []) ≡ false
    → look n parts (add_last t name e d) ≡ look n parts d
unfolding add_last look is_prefix
look-add_last n [] file name e (dir_node ds files) h out =
    ground (arith, out, lookup-set_file n name e files)
look-add_last n [] symlink name e (dir_node ds files) h out =
    ground (arith, out, lookup-set_file n name e files)
look-add_last n [] (other s) name e (dir_node ds files) h out =
    ground (arith, out, lookup-set_file n name e files)
look-add_last n [] dir name e (dir_node ds files) (h, hs) out =
    ground (arith, out, child_at-with_child n name (λ d. d) ds h)
look-add_last n (p ∷ ps) dir name e (dir_node ds files) (h, hs) out = ground (
  arith,
  child_at-with_child n name (λ d. d) ds h,
  str_eq_iff n name,
  ap (λ m. child_at m ds) {x = n} {y = name},
  look-empty_dir p ps,
)
look-add_last n (p ∷ ps) file name e (dir_node ds files) h out = refl
look-add_last n (p ∷ ps) symlink name e (dir_node ds files) h out = refl
look-add_last n (p ∷ ps) (other s) name e (dir_node ds files) h out = refl

-- A step down.
look-below :
    (n : Str) (parts : List Str) (part : Str) (path : List Str) (f : DirNode → DirNode)
    (ds : Children) (files : Dict Entry)
    → AreChildren ds
    → is_prefix n parts (part ∷ path) ≡ false
    → ((m : Str) (ms : List Str) (d : DirNode)
        → IsTree d
        → is_prefix m ms path ≡ false
        → look m ms (f d) ≡ look m ms d)
    → look n parts (dir_node (with_child part f ds) files) ≡ look n parts (dir_node ds files)
unfolding look is_prefix
look-below n [] part path f ds files t out same =
    ground (arith, out, child_at-with_child n part f ds t)
look-below n (p ∷ ps) part path f ds files t out same = elim (Bool-cases (str_eq n part)) [
  | inl q ↦ ground (
    arith,
    q,
    out,
    child_at-with_child n part f ds t,
    str_eq_iff n part,
    ap (λ m. child_at m ds) {x = n} {y = part},
    look-empty_dir p ps,
    same p ps (or_empty (child_at part ds)) (child_at-IsTree part ds t),
  )
  | inr q ↦ ground (arith, q, child_at-with_child n part f ds t)
]

-- Adding an entry elsewhere changes nothing at a path.
pub look-add_path :
    (n : Str) (parts path : List Str) (e : Entry) (d : DirNode)
    → IsTree d
    → is_prefix n parts (names path) ≡ false
    → look n parts (add_path path e d) ≡ look n parts d
unfolding add_path names
look-add_path n parts [] e d t out = refl
look-add_path n parts (name ∷ []) e d t out = elim (Bool-cases (is_empty name)) [
  | inl q ↦ rw q refl
  | inr q ↦ rw q (look-add_last n parts e.type name e d t (rw q at out))
]
look-add_path n parts (part ∷ p ∷ path) e (dir_node ds files) t out =
    elim (Bool-cases (is_empty part)) [
      | inl q ↦
          rw q (look-add_path n parts (p ∷ path) e (dir_node ds files) t (ground (arith, q, out)))
      | inr q ↦ rw q (
          look-below n parts part (names (p ∷ path)) (add_path (p ∷ path) e) ds files t.0
            (rw q at out) (λ m ms x. look-add_path m ms (p ∷ path) e x))
    ]

-- The write of a file.
look_added_last :
    (n : Str) (t : FileType) (e : Entry) (d : DirNode)
    → is_dir t ≡ false
    → look n [] d ≡ nothing
    → look n [] (add_last t n e d) ≡ a_file e
unfolding add_last look
look_added_last n dir e d h k = absurd (cc)
look_added_last n file e (dir_node ds files) h k =
    ground (arith, k, str_eq_refl n, lookup-set_file n n e files)
look_added_last n symlink e (dir_node ds files) h k =
    ground (arith, k, str_eq_refl n, lookup-set_file n n e files)
look_added_last n (other s) e (dir_node ds files) h k =
    ground (arith, k, str_eq_refl n, lookup-set_file n n e files)

look_added_below :
    (n p : Str) (ps : List Str) (f : DirNode → DirNode) (e : Entry) (ds : Children)
    (files : Dict Entry)
    → AreChildren ds
    → look n (p ∷ ps) (dir_node ds files) ≡ nothing
    → ((d : DirNode) → IsTree d → look p ps d ≡ nothing → look p ps (f d) ≡ a_file e)
    → look n (p ∷ ps) (dir_node (with_child n f ds) files) ≡ a_file e
unfolding look
look_added_below n p ps f e ds files t k made = elim (Option-cases (child_at n ds)) [
  | inl q ↦ ground (
    arith,
    q,
    child_at-with_child n n f ds t,
    str_eq_refl n,
    made empty_dir (tt, tt) (look-empty_dir p ps),
  )
  | inr (d, q) ↦ ground (
    arith,
    q,
    child_at-with_child n n f ds t,
    str_eq_refl n,
    made d (subst (λ x. IsTree (or_empty x)) q (child_at-IsTree n ds t)) (rw (q, look) at k),
  )
]

pub look_added :
    (n : Str) (parts : List Str) (e : Entry) (d : DirNode)
    → IsTree d
    → All (λ p. is_empty p ≡ false) (n ∷ parts)
    → is_dir e.type ≡ false
    → look n parts d ≡ nothing
    → look n parts (add_path (n ∷ parts) e d) ≡ a_file e
unfolding add_path
look_added n [] e d t (full, _) h k = rw full (look_added_last n e.type e d h k)
look_added n (p ∷ ps) e (dir_node ds files) t (full, fulls) h k = rw full (
    look_added_below n p ps (add_path (p ∷ ps) e) e ds files t.0 k
      (λ x tx kx. look_added p ps e x tx fulls h kx))
