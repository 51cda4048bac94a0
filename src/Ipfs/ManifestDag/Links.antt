-- ===== src/Ipfs/ManifestDag/Links.antt =====
-- The links of a directory's node, by name.
use ib.Prelude.{
  ◌^◌, ◌<◌, ◌≡◌, refl, ap, Str, Dict, List, [], ◌∷◌, true, false, Option, none, some, ok, length,
  All, lookup, str_eq, is_empty, if◌then◌else◌, inl, inr, Bool-cases, Result-cases, arith,
}
use ib.Backup.Manifest.{Entry}
use ib.Storage.Object.{S3}
use ib.Storage.Tables.{Env}
use ib.Ipfs.Dag.{Cids, DirEntry, PbLink, dir_links}
use ib.Ipfs.Dag.Wire.{IsEncodable}
use ib.Ipfs.Dag.Size.{small-IsEncodable}
use ib.Ipfs.ManifestDag.{file_dir_entries}
use ib.Ipfs.ManifestDag.Order.{Fits}

-- The first link with a name.
unfoldable pub find_link : Str → List PbLink → Option PbLink
find_link n [] = none
find_link n (l ∷ ls) = let more = find_link n ls in if str_eq n l.name then some l else more

-- The name and the size of a link to be made.
abbrev pub IsSlight : DirEntry → Type 0
IsSlight e = (length e.name < 2 ^ 32) × (e.size < 2 ^ 64)

-- Binary CIDs are short.
abbrev pub HasShortCids : Cids → Type 0
HasShortCids k = (c : Str) → length (k.to_bytes c) < 2 ^ 32

module _ (k : Cids) where
  -- The name leads to the CID.
  abbrev pub LinksTo : Str → List DirEntry → Str → Type 0
  LinksTo n es c = (l : PbLink) × (find_link n (dir_links k es) ≡ some l) × (l.hash ≡ k.to_bytes c)

  pub dir_links-IsEncodable :
      (es : List DirEntry) → HasShortCids k → All IsSlight es → All IsEncodable (dir_links k es)
  unfolding dir_links
  dir_links-IsEncodable [] short h = tt
  dir_links-IsEncodable (x ∷ es) short ((name, size), hs) = (
    small-IsEncodable (record { hash = k.to_bytes x.cid; name = x.name; tsize = x.size })
        (short x.cid) name size,
    dir_links-IsEncodable es short hs,
  )

  -- The first entry has the name, or it has not.
  pub LinksTo-here :
      (n : Str) (x : DirEntry) (es : List DirEntry)
      → str_eq n x.name ≡ true
      → LinksTo n (x ∷ es) x.cid
  unfolding find_link dir_links
  LinksTo-here n x es h =
      (record { hash = k.to_bytes x.cid; name = x.name; tsize = x.size }, ground (arith, h), refl)

  pub find_link_next :
      (n : Str) (x : DirEntry) (es : List DirEntry)
      → str_eq n x.name ≡ false
      → find_link n (dir_links k (x ∷ es)) ≡ find_link n (dir_links k es)
  unfolding find_link dir_links
  find_link_next n x es h = ground (arith, h)

module _ (S : S3) (k : Cids) (e : Env) where
  pub file_dir_entries-IsSlight :
      (files : Dict Entry)
      → All (λ (n, x). Fits n x) files
      → All IsSlight (file_dir_entries S k e files)
  unfolding file_dir_entries
  file_dir_entries-IsSlight [] h = tt
  file_dir_entries-IsSlight ((n, x) ∷ files) (h, hs) = elim (Bool-cases (is_empty x.cid)) [
    | inl q ↦ rw q (file_dir_entries-IsSlight files hs)
    | inr q ↦ elim (Result-cases (k.decode x.cid)) [
      | inl (c, t) ↦ rw q (rw (t, file_dir_entries) (h, file_dir_entries-IsSlight files hs))
      | inr (m, t) ↦ rw q (rw (t, file_dir_entries) (file_dir_entries-IsSlight files hs))
    ]
  ]

  -- A file whose CID decodes has its link.
  pub LinksTo-file :
      (n c : Str) (x : Entry) (files : Dict Entry)
      → lookup n files ≡ some x
      → is_empty x.cid ≡ false
      → k.decode x.cid ≡ ok c
      → LinksTo k n (file_dir_entries S k e files) c
  unfolding file_dir_entries lookup find_link dir_links
  LinksTo-file n c x [] h full valid = absurd (cc)
  LinksTo-file n c x ((m, y) ∷ files) h full valid = elim (Bool-cases (str_eq n m)) [
    | inl q ↦ (
      record { hash = k.to_bytes c; name = m; tsize = y.size },
      ground (
        arith,
        q,
        h,
        full,
        valid,
        ap (λ (z : Entry). is_empty z.cid) {x = y} {y = x},
        ap (λ (z : Entry). k.decode z.cid) {x = y} {y = x},
      ),
      refl,
    )
    | inr q ↦
        let (l, found, points) = LinksTo-file n c x files (rw (q, lookup) at h) full valid in
        (l, ground (arith, q, found), points)
  ]
