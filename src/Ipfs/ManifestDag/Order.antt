-- ===== src/Ipfs/ManifestDag/Order.antt =====
-- The maps of dirNode, which are held in the order of their keys.
use ib.Prelude.{
  ℕ, zero, suc, ◌<◌, ◌≤◌, ◌^◌, ◌≡◌, refl, ap, Str, Dict, List, [], ◌∷◌, true, false, Option, none,
  some, All, All-map, length, lookup, split, on_head, ◌==◌, str_eq, str_eq_iff, if◌then◌else◌,
  Bool-cases, inl, inr, arith,
}
use ib.Backup.Manifest.{Entry}
use ib.Ipfs.ManifestDag.Tree.{
  DirNode, dir_node, Children, no_children, child, empty_dir, str_lt, set_file, with_child,
}

pub str_lt_trans : (a b c : Str) → str_lt a b ≡ true → str_lt b c ≡ true → str_lt a c ≡ true
unfolding str_lt
str_lt_trans a b [] h k = k
str_lt_trans a [] (z ∷ c) h k = absurd (ground (arith, h))
str_lt_trans [] (y ∷ b) (z ∷ c) h k = refl
str_lt_trans (x ∷ a) (y ∷ b) (z ∷ c) h k = ground (arith, str_lt_trans a b c)

pub str_lt_irrefl : (a : Str) → str_lt a a ≡ false
unfolding str_lt
str_lt_irrefl [] = refl
str_lt_irrefl (x ∷ a) = ground (arith, str_lt_irrefl a)

pub str_lt-total : (a b : Str) → str_eq a b ≡ false → str_lt a b ≡ false → str_lt b a ≡ true
unfolding str_lt str_eq
str_lt-total [] [] h k = absurd (ground arith)
str_lt-total (x ∷ a) [] h k = refl
str_lt-total [] (y ∷ b) h k = absurd (ground arith)
str_lt-total (x ∷ a) (y ∷ b) h k = ground (arith, str_lt-total a b)

unfoldable pub child_at : Str → Children → Option DirNode
child_at n no_children = none
child_at n (child m d rest) = let more = child_at n rest in if str_eq n m then some d else more

-- `children[name]`, or the directory that is made.
abbrev pub or_empty : Option DirNode → DirNode
or_empty none = empty_dir
or_empty (some d) = d

-- Every name stands behind this one.
abbrev pub Above : Str → Children → Type 0
Above n no_children = Unit
Above n (child m d rest) = (str_lt n m ≡ true) × Above n rest

Above-lt : (a n : Str) (ds : Children) → str_lt a n ≡ true → Above n ds → Above a ds
Above-lt a n no_children h k = tt
Above-lt a n (child m d rest) h (k, ks) = (str_lt_trans a n m h k, Above-lt a n rest h ks)

pub child_at-Above : (n : Str) (ds : Children) → Above n ds → child_at n ds ≡ none
unfolding child_at
child_at-Above n no_children h = refl
child_at-Above n (child m d rest) (h, hs) = ground (
  arith,
  child_at-Above n rest hs,
  str_eq_iff n m,
  ap (str_lt n) {x = n} {y = m},
  str_lt_irrefl n,
)

-- The sizes and names fit into the nodes of the format.
abbrev pub Fits : Str → Entry → Type 0
Fits name e = (length name < 2 ^ 32) × (e.size < 2 ^ 64)

abbrev mutual
  pub IsTree : DirNode → Type 0
  IsTree (dir_node children files) = AreChildren children × All (λ (n, e). Fits n e) files

  pub AreChildren : Children → Type 0
  AreChildren no_children = Unit
  AreChildren (child n d rest) = Above n rest × (length n < 2 ^ 32) × IsTree d × AreChildren rest

Above-with_child :
    (a n : Str) (f : DirNode → DirNode) (ds : Children)
    → str_lt a n ≡ true
    → Above a ds
    → Above a (with_child n f ds)
unfolding with_child
Above-with_child a n f no_children h k = (h, tt)
Above-with_child a n f (child m d rest) h (k, ks) = elim (Bool-cases (str_eq n m)) [
  | inl q ↦ rw q (k, ks)
  | inr q ↦ elim (Bool-cases (str_lt n m)) [
    | inl t ↦ rw q (rw t (h, (k, ks)))
    | inr t ↦ rw q (rw t (k, Above-with_child a n f rest h ks))
  ]
]

pub with_child-AreChildren :
    (n : Str) (f : DirNode → DirNode) (ds : Children)
    → length n < 2 ^ 32
    → ((d : DirNode) → IsTree d → IsTree (f d))
    → AreChildren ds
    → AreChildren (with_child n f ds)
unfolding with_child
with_child-AreChildren n f no_children fits keep h = (tt, fits, keep empty_dir (tt, tt), tt)
with_child-AreChildren n f (child m d rest) fits keep (above, l, t, ts) =
    elim (Bool-cases (str_eq n m)) [
      | inl q ↦ rw q (above, l, keep d t, ts)
      | inr q ↦ elim (Bool-cases (str_lt n m)) [
        | inl lt ↦ rw q (
            rw lt
              ((lt, Above-lt n m rest lt above), fits, keep empty_dir (tt, tt), (above, l, t, ts)))
        | inr ge ↦ rw q (
            rw ge (
              Above-with_child m n f rest (str_lt-total n m q ge) above,
              l,
              t,
              with_child-AreChildren n f rest fits keep ts,
            ))
      ]
    ]

-- The map after the write.
pub child_at-with_child :
    (q n : Str) (f : DirNode → DirNode) (ds : Children)
    → AreChildren ds
    → child_at q (with_child n f ds)
      ≡ (if str_eq q n then some (f (or_empty (child_at n ds))) else child_at q ds)
unfolding with_child child_at
child_at-with_child q n f no_children h = ground arith
child_at-with_child q n f (child m d rest) (above, l, t, ts) = elim (Bool-cases (str_eq n m)) [
  | inl e ↦ ground (arith, e, str_eq_iff n m, ap (str_eq q) {x = n} {y = m})
  | inr e ↦ elim (Bool-cases (str_lt n m)) [
    | inl lt ↦ ground (arith, e, lt, child_at-Above n rest (Above-lt n m rest lt above))
    | inr ge ↦ ground (
      arith,
      e,
      ge,
      child_at-with_child q n f rest ts,
      str_eq_iff q m,
      str_eq_iff q n,
      ap (str_eq n) {x = q} {y = m},
      str_eq_iff n m,
    )
  ]
]

pub child_at-IsTree : (n : Str) (ds : Children) → AreChildren ds → IsTree (or_empty (child_at n ds))
unfolding child_at
child_at-IsTree n no_children h = (tt, tt)
child_at-IsTree n (child m d rest) (above, l, t, ts) = elim (Bool-cases (str_eq n m)) [
  | inl q ↦ rw q t
  | inr q ↦ rw q (child_at-IsTree n rest ts)
]

pub lookup-set_file :
    (q n : Str) (e : Entry) (files : Dict Entry)
    → lookup q (set_file n e files) ≡ (if str_eq q n then some e else lookup q files)
unfolding set_file lookup
lookup-set_file q n e [] = ground arith
lookup-set_file q n e ((m, x) ∷ files) = ground (
  arith,
  lookup-set_file q n e files,
  str_eq_iff n m,
  str_eq_iff q m,
  str_eq_iff q n,
  ap (str_eq q) {x = n} {y = m},
)

pub set_file-Fits :
    (n : Str) (e : Entry) (files : Dict Entry)
    → Fits n e
    → All (λ (m, x). Fits m x) files
    → All (λ (m, x). Fits m x) (set_file n e files)
unfolding set_file
set_file-Fits n e [] h hs = (h, tt)
set_file-Fits n e ((m, x) ∷ files) h (k, ks) = elim (Bool-cases (str_eq n m)) [
  | inl q ↦ rw q ((k.0, h.1), ks)
  | inr q ↦ elim (Bool-cases (str_lt n m)) [
    | inl t ↦ rw q (rw t (h, (k, ks)))
    | inr t ↦ rw q (rw t (k, set_file-Fits n e files h ks))
  ]
]

on_head-All :
    (x b : ℕ) (parts : List Str)
    → All (λ p. length p ≤ b) parts
    → All (λ p. length p ≤ suc b) (on_head x parts)
on_head-All x b [] h = (omega arith, tt)
on_head-All x b (p ∷ parts) (h, hs) = (omega arith, All-map (λ p k. omega arith) parts hs)

-- The parts of a path are not longer than the path.
pub length-split : (c b : ℕ) (s : Str) → length s ≤ b → All (λ p. length p ≤ b) (split c s)
unfolding split
length-split c b [] h = (h, tt)
length-split c zero (x ∷ s) h = absurd (omega arith)
length-split c (suc b) (x ∷ s) h =
    let parts : All (λ p. length p ≤ b) (split c s) = length-split c b s (omega arith) in
    elim (Bool-cases (x == c)) [
      | inl q ↦ rw q (omega arith, All-map (λ p k. omega arith) (split c s) parts)
      | inr q ↦ rw q (on_head-All x b (split c s) parts)
    ]
