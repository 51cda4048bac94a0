-- ===== src/Storage/Spec/References.antt =====
-- A table of references, and the backups that it stands for.
use ib.Prelude.{
  ◌≡◌, refl, sym, ◌∙◌, ap, Str, Dict, List, [], ◌∷◌, Bool, true, false, ◌&&◌, ◌||◌, none, some, any,
  lookup, NodupKeys, str_eq, str_eq_iff, str_eq_refl, arith, Bool-cases, inl, inr,
}
use ib.Storage.Tables.{ManifestRow, has_ref, is_referenced, has_row}
use ib.Storage.ManifestStore.{cascade}
use ib.Storage.Spec.{Backup, in_list}

-- Two tests agree if each holds where the other does.
both_ways : (a b : Bool) → (a ≡ true → b ≡ true) → (b ≡ true → a ≡ true) → a ≡ b
both_ways true b h k = sym (h refl)
both_ways false true h k = k refl
both_ways false false h k = refl

is_referenced_of_has_ref :
    (i c : Str) (refs : List (Str × Str)) → has_ref i c refs ≡ true → is_referenced c refs ≡ true
unfolding has_ref is_referenced
is_referenced_of_has_ref i c [] h = absurd (cc)
is_referenced_of_has_ref i c ((j, d) ∷ refs) h = ground (arith, is_referenced_of_has_ref i c refs)

has_ref_of_is_referenced :
    (c : Str) (refs : List (Str × Str))
    → is_referenced c refs ≡ true
    → (i : Str) × (has_ref i c refs ≡ true)
unfolding has_ref is_referenced
has_ref_of_is_referenced c [] h = absurd (cc)
has_ref_of_is_referenced c ((j, d) ∷ refs) h = elim (Bool-cases (str_eq c d)) [
  | inl t ↦ (j, ground (arith, t, str_eq_refl j))
  | inr t ↦
      let (i, p) = has_ref_of_is_referenced c refs (ground (arith, t)) in (i, ground (arith, p))
]

module _ (refers : Backup → List Str) (c : Str) where
  -- The backup under an id refers to `c`.
  abbrev pub holds : Str → Dict Backup → Bool
  holds i backups = elim (lookup i backups) [ none ↦ false | some b ↦ in_list c (refers b) ]

  abbrev pub any_holds : Dict Backup → Bool
  any_holds backups = any (λ (i, b). in_list c (refers b)) backups

  any_holds_of_holds :
      (i : Str) (backups : Dict Backup) → holds i backups ≡ true → any_holds backups ≡ true
  unfolding lookup
  any_holds_of_holds i [] h = absurd (cc)
  any_holds_of_holds i ((j, b) ∷ backups) h = ground (arith, any_holds_of_holds i backups)

  holds_of_any_holds :
      (backups : Dict Backup)
      → NodupKeys backups
      → any_holds backups ≡ true
      → (i : Str) × (holds i backups ≡ true)
  unfolding lookup
  holds_of_any_holds [] n h = absurd (cc)
  holds_of_any_holds ((j, b) ∷ backups) (fresh, n) h = elim (Bool-cases (in_list c (refers b))) [
    | inl t ↦ (j, ground (arith, t, str_eq_refl j))
    | inr t ↦
        let (i, p) = holds_of_any_holds backups n (ground (arith, t)) in
        (i, ground (arith, p, fresh, str_eq_iff i j, ap (λ k. lookup k backups) {x = i} {y = j}))
  ]

  -- If the table and the backups agree on each pair, they agree on whether `c` is named.
  pub is_referenced_lem :
      (refs : List (Str × Str)) (backups : Dict Backup)
      → NodupKeys backups
      → ((i : Str) → has_ref i c refs ≡ holds i backups)
      → is_referenced c refs ≡ any_holds backups
  is_referenced_lem refs backups n h =
      both_ways (is_referenced c refs) (any_holds backups)
        (λ t.
          let (i, p) = has_ref_of_is_referenced c refs t in
          any_holds_of_holds i backups (sym (h i) ∙ p))
        (λ t.
          let (i, p) = holds_of_any_holds backups n t in
          is_referenced_of_has_ref i c refs (h i ∙ p))

-- Adding the references of one id adds them to what is named.
pub is_referenced_add :
    (refs refs' : List (Str × Str)) (id c : Str) (new : Bool)
    → ((i : Str) → has_ref i c refs' ≡ (has_ref i c refs || (str_eq i id && new)))
    → is_referenced c refs' ≡ (is_referenced c refs || new)
is_referenced_add refs refs' id c new h =
    both_ways (is_referenced c refs') (is_referenced c refs || new)
      (λ t.
        let (i, p) = has_ref_of_is_referenced c refs' t in
        ground (arith, p, h i, is_referenced_of_has_ref i c refs))
      (λ t. elim (Bool-cases new) [
        | inl q ↦ is_referenced_of_has_ref id c refs' (ground (arith, h id, q, str_eq_refl id))
        | inr q ↦
            let (i, p) = has_ref_of_is_referenced c refs (ground (arith, q)) in
            is_referenced_of_has_ref i c refs' (ground (arith, h i, p))
      ])

pub has_ref-cascade :
    (rows : Dict ManifestRow) (i c : Str) (refs : List (Str × Str))
    → has_ref i c (cascade true rows refs) ≡ (has_row i rows && has_ref i c refs)
unfolding has_ref cascade
has_ref-cascade rows i c [] = ground arith
has_ref-cascade rows i c ((j, d) ∷ refs) =
    ground (
      arith,
      has_ref-cascade rows i c refs,
      str_eq_iff i j,
      ap (λ k. has_row k rows) {x = i} {y = j},
    )
