-- ===== src/Backup/Scanner/Visible.antt =====
-- Which entries a scan gives.
use ib.Prelude.{
  ◌≡◌, refl, ap, inl, inr, Str, List, [], ◌∷◌, ◌++◌, Bool, true, false, not, ◌&&◌, Option, ok, err,
  filter, map, arith, if◌then◌else◌, Bool-cases,
}
use ib.Backup.Ignore.{missing, load_file, IgnoreMatcher, is_ignored}
use ib.Backup.Scanner.{
  Ignores, Tree, Forest, leaf, folder, empty, also, directory, ScanResult, found, scan_error, under,
  dir_entry, leaf_results, error_results, load_ignores, walk, walk_all, scan,
}

-- No directory below the root has ignore files of its own.
unfoldable mutual
  pub IsPlain : Tree → Type 0
  IsPlain (leaf name info l) = Unit
  IsPlain (folder name info g failure children) =
      (g.git_file ≡ missing) × (g.ib_file ≡ missing) × AllPlain children

  pub AllPlain : Forest → Type 0
  AllPlain empty = Unit
  AllPlain (also t ts) = IsPlain t × AllPlain ts

-- What stands for a result: the paths that the matcher must let pass, each with whether it is a
-- directory, and the result.
abbrev pub Item : Type 0
Item = List (Str × Bool) × ScanResult

abbrev at : List (Str × Bool) → List ScanResult → List Item
at gs results = map (λ r. (gs, r)) results

-- Every entry and error of a tree, without any ignore pattern.
unfoldable mutual
  pub items : List (Str × Bool) → Str → Tree → List Item
  items gs parent (leaf name (err m) l) = (gs, scan_error m) ∷ []
  items gs parent (leaf name (ok info) l) =
      at ((under parent name, false) ∷ gs) (leaf_results (under parent name) info l)
  items gs parent (folder name (err m) g failure children) =
      (gs, scan_error m)
      ∷ (at gs (error_results failure) ++ all_items gs (under parent name) children)
  items gs parent (folder name (ok info) g failure children) =
      let path = under parent name in
      let below = (path, true) ∷ gs in
      (below, found (dir_entry path info))
      ∷ (at below (error_results failure) ++ all_items below path children)

  pub all_items : List (Str × Bool) → Str → Forest → List Item
  all_items gs parent empty = []
  all_items gs parent (also t ts) = items gs parent t ++ all_items gs parent ts

module _ (m : IgnoreMatcher) where
  -- The matcher ignores none of the paths.
  abbrev pub all_pass : List (Str × Bool) → Bool
  all_pass [] = true
  all_pass ((path, is_dir) ∷ gs) = not (is_ignored m path is_dir) && all_pass gs

  abbrev pub visible : List Item → List ScanResult
  visible xs = map (λ (gs, r). r) (filter (λ (gs, r). all_pass gs) xs)

  visible-append : (xs ys : List Item) → visible (xs ++ ys) ≡ visible xs ++ visible ys
  visible-append [] ys = refl
  visible-append ((gs, r) ∷ xs) ys = ground (arith, visible-append xs ys)

  visible-at :
      (gs : List (Str × Bool)) (rs : List ScanResult)
      → visible (at gs rs) ≡ (if all_pass gs then rs else [])
  visible-at gs [] = ground arith
  visible-at gs (r ∷ rs) = ground (arith, visible-at gs rs)

  -- Below a path that is ignored nothing is visible.
  mutual
    unfolding items all_items

    items-hidden :
        (gs : List (Str × Bool)) (parent : Str) (t : Tree)
        → all_pass gs ≡ false
        → visible (items gs parent t) ≡ []
    items-hidden gs parent (leaf name (err msg) l) h = ground (arith, h)
    items-hidden gs parent (leaf name (ok info) l) h = ground (
      arith,
      h,
      visible-at ((under parent name, false) ∷ gs) (leaf_results (under parent name) info l),
    )
    items-hidden gs parent (folder name (err msg) g failure children) h = ground (
      arith,
      h,
      visible-append (at gs (error_results failure)) (all_items gs (under parent name) children),
      visible-at gs (error_results failure),
      all_items-hidden gs (under parent name) children h,
    )
    items-hidden gs parent (folder name (ok info) g failure children) h =
        let path = under parent name in
        let below = (path, true) ∷ gs in
        ground (
          arith,
          h,
          visible-append (at below (error_results failure)) (all_items below path children),
          visible-at below (error_results failure),
          all_items-hidden below path children (ground (arith, h)),
        )

    all_items-hidden :
        (gs : List (Str × Bool)) (parent : Str) (ts : Forest)
        → all_pass gs ≡ false
        → visible (all_items gs parent ts) ≡ []
    all_items-hidden gs parent empty h = refl
    all_items-hidden gs parent (also t ts) h = ground (
      arith,
      visible-append (items gs parent t) (all_items gs parent ts),
      items-hidden gs parent t h,
      all_items-hidden gs parent ts h,
    )

  load_ignores-plain :
      (g : Ignores) → g.git_file ≡ missing → g.ib_file ≡ missing → load_ignores g m ≡ m
  unfolding load_ignores load_file
  load_ignores-plain g h k = rw (h, k) refl

  mutual
    unfolding walk walk_all items all_items IsPlain AllPlain

    walk-visible :
        (gs : List (Str × Bool)) (parent : Str) (t : Tree)
        → IsPlain t
        → all_pass gs ≡ true
        → walk parent t m ≡ (m, visible (items gs parent t))
    walk-visible gs parent (leaf name (err msg) l) plain h = ground (arith, h)
    walk-visible gs parent (leaf name (ok info) l) plain h = ground (
      arith,
      h,
      visible-at ((under parent name, false) ∷ gs) (leaf_results (under parent name) info l),
    )
    walk-visible gs parent (folder name (err msg) g failure children) (p0, p1, plain) h = ground (
      arith,
      h,
      visible-append (at gs (error_results failure)) (all_items gs (under parent name) children),
      visible-at gs (error_results failure),
      walk_all-visible gs (under parent name) children plain h,
    )
    walk-visible gs parent (folder name (ok info) g failure children) (p0, p1, plain) h =
        let path = under parent name in
        let below = (path, true) ∷ gs in
        let split =
          visible-append (at below (error_results failure)) (all_items below path children) in
        elim (Bool-cases (is_ignored m path true)) [
          | inl t ↦ ground (
            arith,
            h,
            t,
            split,
            visible-at below (error_results failure),
            all_items-hidden below path children (ground (arith, h, t)),
          )
          | inr t ↦ ground (
            arith,
            h,
            t,
            split,
            visible-at below (error_results failure),
            load_ignores-plain g p0 p1,
            walk_all-visible below path children plain (ground (arith, h, t)),
          )
        ]

    walk_all-visible :
        (gs : List (Str × Bool)) (parent : Str) (ts : Forest)
        → AllPlain ts
        → all_pass gs ≡ true
        → walk_all parent ts m ≡ (m, visible (all_items gs parent ts))
    walk_all-visible gs parent empty plain h = refl
    walk_all-visible gs parent (also t ts) (p, ps) h = ground (
      arith,
      visible-append (items gs parent t) (all_items gs parent ts),
      walk-visible gs parent t p h,
      walk_all-visible gs parent ts ps h,
    )

-- Where no directory below the root has ignore files of its own, the scan of a tree gives exactly
-- the entries and errors of the whole tree, in order, for which the root's patterns ignore neither
-- the path itself nor the directory of any level above it. (The error of an entry whose information
-- cannot be read depends on the levels above only, and such a directory hides nothing.)
pub scan-visible :
    (g : Ignores) (failure : Option Str) (ts : Forest)
    → AllPlain ts
    → scan (directory g failure ts)
      ≡ error_results failure ++ visible (load_ignores g []) (all_items [] [] ts)
unfolding scan
scan-visible g failure ts plain =
    ap (λ (r : IgnoreMatcher × List ScanResult). error_results failure ++ r.1)
      (walk_all-visible (load_ignores g []) [] [] ts plain refl)
