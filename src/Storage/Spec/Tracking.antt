-- ===== src/Storage/Spec/Tracking.antt =====
-- The reference tables keep track of the backups.
use ib.Prelude.{
  ◌≡◌, refl, ap, Str, Dict, List, [], ◌∷◌, ◌++◌, Bool, true, false, not, ◌&&◌, ◌||◌, none, some,
  any, any-append, filter, lookup, insert, lookup-insert, NodupKeys, str_eq, str_eq_iff, arith, map,
  if◌then◌else◌,
}
use ib.Storage.Tables.{ManifestRow, has_ref, is_referenced, has_row}
use ib.Storage.ManifestStore.{cascade}
use ib.Storage.Spec.{Backup, in_list}
use ib.Storage.Spec.References.{
  holds, any_holds, is_referenced_lem, is_referenced_add, has_ref-cascade,
}

-- `refs` is the table, `refers` what it stores of a backup, and `pinned` the backups that are gone
-- and still have their references.
pub record Tracks (cascades : Bool) (refers : Backup → List Str) (refs : List (Str × Str))
    (backups : Dict Backup) (pinned : List Backup) : Type 0 where
  pub counted :
      (c : Str)
      → is_referenced c refs
        ≡ (any_holds refers c backups || any (λ b. in_list c (refers b)) pinned)
  pub exact : cascades ≡ true → (i c : Str) → has_ref i c refs ≡ holds refers c i backups
  pub tidy : cascades ≡ true → pinned ≡ []

module _ (keep : Str × Backup → Bool) where
  pub lookup-filter_key :
      (i : Str) (d : Dict Backup)
      → NodupKeys d
      → lookup i (filter keep d)
        ≡ elim (lookup i d) [ none ↦ none | some b ↦ if keep (i, b) then some b else none ]
  unfolding lookup
  lookup-filter_key i [] h = refl
  lookup-filter_key i ((j, b) ∷ d) (fresh, h) = ground (
    arith,
    lookup-filter_key i d h,
    str_eq_iff i j,
    fresh,
    ap (λ k. lookup k d) {x = i} {y = j},
    ap (λ k. keep (k, b)) {x = i} {y = j},
  )

  pub filter-NodupKeys : (d : Dict Backup) → NodupKeys d → NodupKeys (filter keep d)
  filter-NodupKeys [] h = tt
  filter-NodupKeys ((j, b) ∷ d) (fresh, h) =
      ground (arith, filter-NodupKeys d h, lookup-filter_key j d h, fresh)

module _ (refers : Backup → List Str) (c : Str) where
  any_holds-insert :
      (id : Str) (b : Backup) (d : Dict Backup)
      → lookup id d ≡ none
      → any_holds refers c (insert id b d) ≡ (any_holds refers c d || in_list c (refers b))
  unfolding lookup insert
  any_holds-insert id b [] h = ground arith
  any_holds-insert id b ((j, b') ∷ d) h = ground (arith, any_holds-insert id b d)

  any_holds-split :
      (keep : Str × Backup → Bool) (d : Dict Backup)
      → any_holds refers c d ≡ (
          any_holds refers c (filter keep d)
          || any (λ b. in_list c (refers b)) (map (λ (i, b). b) (filter (λ x. not (keep x)) d)))
  any_holds-split keep [] = refl
  any_holds-split keep ((j, b) ∷ d) = ground (arith, any_holds-split keep d)

module _ (cascades : Bool) (refers : Backup → List Str) (refs : List (Str × Str)) (d : Dict Backup)
    (pinned : List Backup) (tracked : Tracks cascades refers refs d pinned) where
  -- A new backup, and its references in the table.
  pub Tracks-insert :
      (id : Str) (b : Backup) (refs' : List (Str × Str))
      → lookup id d ≡ none
      → ((i c : Str)
          → has_ref i c refs' ≡ (has_ref i c refs || (str_eq i id && in_list c (refers b))))
      → Tracks cascades refers refs' (insert id b d) pinned
  Tracks-insert id b refs' fresh h = record {
    counted = λ c. ground (
      arith,
      is_referenced_add refs refs' id c (in_list c (refers b)) (λ i. h i c),
      tracked.counted c,
      any_holds-insert refers c id b d fresh,
    );
    exact = λ t i c. ground (
      arith,
      h i c,
      tracked.exact t i c,
      lookup-insert i id b d,
      str_eq_iff i id,
      fresh,
      ap (λ k. lookup k d) {x = i} {y = id},
    );
    tidy = tracked.tidy;
  }

  -- Backups that go, and the rows that cascade with them.
  holds-filter :
      (keep : Str × Backup → Bool) (rows : Dict ManifestRow) (distinct : NodupKeys d)
      (same : (i : Str)
        → has_row i rows ≡ elim (lookup i (filter keep d)) [ none ↦ false | some _ ↦ true ])
      (i c : Str)
      → has_ref i c refs ≡ holds refers c i d
      → has_ref i c (cascade true rows refs) ≡ holds refers c i (filter keep d)
  holds-filter keep rows distinct same i c h =
      ground (arith, h, has_ref-cascade rows i c refs, same i, lookup-filter_key keep i d distinct)

module _ (refers : Backup → List Str) (refs : List (Str × Str)) (d : Dict Backup)
    (pinned : List Backup) (keep : Str × Backup → Bool) (rows : Dict ManifestRow)
    (distinct : NodupKeys d)
    (same : (i : Str)
      → has_row i rows ≡ elim (lookup i (filter keep d)) [ none ↦ false | some _ ↦ true ]) where
  abbrev gone : List Backup
  gone = map (λ (i, b). b) (filter (λ x. not (keep x)) d)

  pub Tracks-filter :
      (cascades : Bool)
      → Tracks cascades refers refs d pinned
      → Tracks cascades refers
          (cascade cascades rows refs)
          (filter keep d)
          (if cascades then pinned else gone ++ pinned)
  Tracks-filter true tracked =
      let exact : (i c : Str)
          → has_ref i c (cascade true rows refs) ≡ holds refers c i (filter keep d) =
        λ i c.
          holds-filter true refers refs d pinned tracked keep rows distinct same i c
            (tracked.exact refl i c) in
      record {
        counted = λ c. ground (
          arith,
          is_referenced_lem refers c (cascade true rows refs) (filter keep d)
              (filter-NodupKeys keep d distinct) (λ i. exact i c),
          tracked.tidy refl,
        );
        exact = λ t. exact;
        tidy = tracked.tidy;
      }
  Tracks-filter false tracked =
      unfold cascade in
      record {
        counted = λ c. ground (
          arith,
          tracked.counted c,
          any_holds-split refers c keep d,
          any-append (λ b. in_list c (refers b)) gone pinned,
        );
        exact = λ t. absurd (cc);
        tidy = λ t. absurd (cc);
      }
