-- ===== src/Storage/ManifestStore/Latest.antt =====
-- Which manifest GetLatestManifest takes.
use ib.Prelude.{
  ◌≡◌, ◌≤◌, refl, ap, subst, ◌⊎◌, All-map, List-cases, Option-cases, Str, Bytes, Dict, List, [],
  ◌∷◌, Bool, true, ok, arith, All, filter, leb, Bool-cases, inl, inr,
}
use ib.Storage.Object.{S3}
use ib.Storage.Tables.{ManifestRow, Env, Store, list_manifests}
use ib.Storage.ManifestStore.{
  ManifestInfo, insert_sorted, order_by_created, matches_tags, list_manifests_by, get_manifest,
  get_latest_manifest,
}

-- No later element is newer.
abbrev IsSorted : List ManifestInfo → Type 0
IsSorted [] = Unit
IsSorted (x ∷ xs) = All (λ y. y.created_at ≤ x.created_at) xs × IsSorted xs

All-insert_sorted :
    (P : ManifestInfo → Type 0) (x : ManifestInfo) (ys : List ManifestInfo)
    → P x
    → All P ys
    → All P (insert_sorted x ys)
unfolding insert_sorted
All-insert_sorted P x [] p ps = (p, tt)
All-insert_sorted P x (y ∷ ys) p (q, ps) = elim (Bool-cases (leb y.created_at x.created_at)) [
  | inl t ↦ rw t (p, (q, ps))
  | inr t ↦ rw t (q, All-insert_sorted P x ys p ps)
]

insert_sorted-IsSorted :
    (x : ManifestInfo) (ys : List ManifestInfo) → IsSorted ys → IsSorted (insert_sorted x ys)
unfolding insert_sorted
insert_sorted-IsSorted x [] s = (tt, tt)
insert_sorted-IsSorted x (y ∷ ys) (h, s) = elim (Bool-cases (leb y.created_at x.created_at)) [
  | inl t ↦ rw t ((ground arith, All-map (λ z hz. ground arith) ys h), (h, s))
  | inr t ↦ rw t (
    All-insert_sorted (λ z. z.created_at ≤ y.created_at) x ys (ground arith) h,
    insert_sorted-IsSorted x ys s,
  )
]

order_by_created-IsSorted : (rows : Dict ManifestRow) → IsSorted (order_by_created rows)
unfolding order_by_created
order_by_created-IsSorted [] = tt
order_by_created-IsSorted ((id, row) ∷ rows) =
    insert_sorted-IsSorted _ _ (order_by_created-IsSorted rows)

module _ (p : ManifestInfo → Bool) where
  All-filter : (P : ManifestInfo → Type 0) (xs : List ManifestInfo) → All P xs → All P (filter p xs)
  All-filter P [] h = tt
  All-filter P (x ∷ xs) (h, hs) = elim (Bool-cases (p x)) [
    | inl t ↦ rw t (h, All-filter P xs hs)
    | inr t ↦ rw t (All-filter P xs hs)
  ]

  -- The first of a sorted list to pass the test bounds all that pass it.
  head_of_filter :
      (xs : List ManifestInfo) (y : ManifestInfo) (ys : List ManifestInfo)
      → IsSorted xs
      → filter p xs ≡ y ∷ ys
      → All (λ x. p x ≡ true → x.created_at ≤ y.created_at) xs × (p y ≡ true)
  head_of_filter [] y ys s h = absurd (cc)
  head_of_filter (x ∷ xs) y ys (b, s) h = elim (Bool-cases (p x)) [
    | inl t ↦
        let e : x ≡ y = ground (arith, t) in
        let n : x.created_at ≡ y.created_at = ap (λ (z : ManifestInfo). z.created_at) e in
        (
          ((λ _. omega (arith, n)), All-map (λ z hz _. omega (arith, n)) xs b),
          subst (λ z. p z ≡ true) e t,
        )
    | inr t ↦
        let (hs, py) = head_of_filter xs y ys s (ground (arith, t)) in
        (((λ q. absurd (cc)), hs), py)
  ]

abbrev pub of_row : Str → ManifestRow → ManifestInfo
of_row id row = record { id = id; tags = row.tags; created_at = row.created_at }

-- The information is that of a row of the table.
abbrev pub IsRow : ManifestInfo → Dict ManifestRow → Type 0
IsRow x [] = ⊥
IsRow x ((id, row) ∷ rows) = (x ≡ of_row id row) ⊎ IsRow x rows

order_by_created-IsRow : (rows : Dict ManifestRow) → All (λ x. IsRow x rows) (order_by_created rows)
unfolding order_by_created
order_by_created-IsRow [] = tt
order_by_created-IsRow ((id, row) ∷ rows) =
    All-insert_sorted (λ x. IsRow x ((id, row) ∷ rows)) (of_row id row) (order_by_created rows)
      (inl refl) (All-map (λ x h. inr h) (order_by_created rows) (order_by_created-IsRow rows))

All-of_insert_sorted :
    (P : ManifestInfo → Type 0) (x : ManifestInfo) (ys : List ManifestInfo)
    → All P (insert_sorted x ys)
    → P x × All P ys
unfolding insert_sorted
All-of_insert_sorted P x [] h = h
All-of_insert_sorted P x (y ∷ ys) h = elim (Bool-cases (leb y.created_at x.created_at)) [
  | inl t ↦ rw t at h
  | inr t ↦
      let h' : P y × All P (insert_sorted x ys) = rw t at h in
      let (px, ps) = All-of_insert_sorted P x ys h'.1 in (px, (h'.0, ps))
]

All-of_order :
    (P : ManifestInfo → Type 0) (rows : Dict ManifestRow)
    → All P (order_by_created rows)
    → All (λ (id, row). P (of_row id row)) rows
unfolding order_by_created
All-of_order P [] h = tt
All-of_order P ((id, row) ∷ rows) h =
    let (px, ps) = All-of_insert_sorted P (of_row id row) (order_by_created rows) h in
    (px, All-of_order P rows ps)

module _ (S : S3) (e : Env) (tags : Dict Str) (s : Store S) where
  -- If GetLatestManifest returns data, they are the data of a manifest of the table that matches
  -- the tags, and no manifest that matches them was created later.
  pub get_latest_manifest_newest :
      {content : Bytes}
      → get_latest_manifest S e tags s ≡ ok content
      → (info : ManifestInfo) × (get_manifest S e info.id s ≡ ok content)
        × IsRow info s.db.manifests
        × (matches_tags info.tags tags ≡ true)
        × All
            (λ (id, row). matches_tags row.tags tags ≡ true → row.created_at ≤ info.created_at)
            s.db.manifests
  unfolding get_latest_manifest list_manifests_by
  get_latest_manifest_newest h =
      let test : ManifestInfo → Bool = λ info. matches_tags info.tags tags in
      let ordered : List ManifestInfo = order_by_created s.db.manifests in
      elim (Option-cases (e.db_error list_manifests)) [
        | inr (msg, p) ↦ absurd (ground (arith, p))
        | inl p ↦ elim (List-cases (filter test ordered)) [
          | inl q ↦ absurd (ground (arith, p, q))
          | inr (info, rest, q) ↦
              let (bound, passed) =
                head_of_filter test ordered info rest (order_by_created-IsSorted s.db.manifests)
                  q in
              let rows : All (λ x. IsRow x s.db.manifests) (info ∷ rest) =
                subst (All (λ x. IsRow x s.db.manifests)) q (
                  All-filter test (λ x. IsRow x s.db.manifests) ordered
                    (order_by_created-IsRow s.db.manifests)) in
              (
                info,
                ground (arith, p, q),
                rows.0,
                passed,
                All-of_order (λ x. test x ≡ true → x.created_at ≤ info.created_at) s.db.manifests
                    bound,
              )
        ]
      ]
