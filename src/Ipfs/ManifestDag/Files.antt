-- ===== src/Ipfs/ManifestDag/Files.antt =====
-- What the first loop of BuildManifestDAG makes of one entry among the others.
use ib.Prelude.{
  ◌≡◌, refl, sym, subst, ap, ◌∙◌, Str, List, [], ◌∷◌, ◌++◌, ok, All, inl, inr, Result-cases, arith,
}
use ib.Backup.Manifest.{Entry}
use ib.Storage.Object.{S3}
use ib.Storage.Tables.{Env}
use ib.Ipfs.Dag.{Cids}
use ib.Ipfs.ManifestDag.{NodeCollector, file_type_cid, process_files}
use ib.Ipfs.ManifestDag.Named.{Keeps, Keeps-refl, Keeps-trans, collect_node-Keeps}
use ib.Ipfs.ManifestDag.Steps.{file_type_cid-steps, process_files-steps}

-- The entries differ at most in their CIDs.
abbrev pub SameFiles : List Entry → List Entry → Type 0
SameFiles [] ys = ys ≡ []
SameFiles (x ∷ xs) ys =
    (c : Str) × (zs : List Entry) × (ys ≡ record x { cid = c } ∷ zs) × SameFiles xs zs

pub All-SameFiles :
    (P : Entry → Type 0)
    → ((x : Entry) (c : Str) → P x → P (record x { cid = c }))
    → (xs ys : List Entry) → SameFiles xs ys
    → All P xs
    → All P ys
All-SameFiles P keep [] ys same h = subst (All P) (sym same) tt
All-SameFiles P keep (x ∷ xs) ys (c, zs, is, same) (h, hs) =
    subst (All P) (sym is) (keep x c h, All-SameFiles P keep xs zs same hs)

module _ (S : S3) (k : Cids) (e : Env) where
  abbrev pub file_after : Entry → NodeCollector S → NodeCollector S
  file_after x nc = (file_type_cid S k e x.type x nc).0

  abbrev pub files_after : List Entry → NodeCollector S → NodeCollector S
  files_after xs nc = (process_files S k e xs nc).0

  pub file-Keeps : (x : Entry) (nc : NodeCollector S) → Keeps S k e nc (file_after x nc)
  file-Keeps x nc =
      file_type_cid-steps S k e (Keeps S k e) (Keeps-refl S k e) (Keeps-trans S k e)
        (collect_node-Keeps S k e) x.type x nc

  pub files-Keeps : (xs : List Entry) (nc : NodeCollector S) → Keeps S k e nc (files_after xs nc)
  files-Keeps xs nc =
      process_files-steps S k e (Keeps S k e) (Keeps-refl S k e) (Keeps-trans S k e)
        (collect_node-Keeps S k e) xs nc

  files-inv :
      (x : Entry) (xs : List Entry) (nc : NodeCollector S) (es : List Entry)
      → (process_files S k e (x ∷ xs) nc).1 ≡ ok es
      → (c : Str) × (more : List Entry) × ((file_type_cid S k e x.type x nc).1 ≡ ok c)
        × ((process_files S k e xs (file_after x nc)).1 ≡ ok more)
        × (es ≡ record x { cid = c } ∷ more)
        × (files_after xs (file_after x nc) ≡ files_after (x ∷ xs) nc)
  unfolding process_files
  files-inv x xs nc es h = elim (Result-cases ((file_type_cid S k e x.type x nc).1)) [
    | inr (m, q) ↦ absurd (ground (arith, q, h))
    | inl (c, q) ↦ elim (Result-cases ((process_files S k e xs (file_after x nc)).1)) [
      | inr (m, t) ↦ absurd (ground (arith, q, t, h))
      | inl (more, t) ↦ (c, more, q, t, ground (arith, q, t, h), ground (arith, q, t))
    ]
  ]

  -- One entry among those that the loop returns: the collector when it is reached, and its CID.
  pub record Place (nc : NodeCollector S) (xs : List Entry) (x : Entry) (ys es : List Entry)
      : Type 0 where
    pub reached : NodeCollector S
    pub cid : Str
    pub before : List Entry
    pub behind : List Entry
    pub is : es ≡ before ++ (record x { cid = cid } ∷ behind)
    pub same_before : SameFiles xs before
    pub same_behind : SameFiles ys behind
    pub start : Keeps S k e nc reached
    pub made : (file_type_cid S k e x.type x reached).1 ≡ ok cid
    pub end : Keeps S k e (file_after x reached) (files_after (xs ++ (x ∷ ys)) nc)

  files-SameFiles :
      (xs : List Entry) (nc : NodeCollector S) (es : List Entry)
      → (process_files S k e xs nc).1 ≡ ok es
      → SameFiles xs es
  unfolding process_files
  files-SameFiles [] nc es h = ground (arith, h)
  files-SameFiles (x ∷ xs) nc es h =
      let (c, more, q, t, is, _) = files-inv x xs nc es h in
      (c, more, is, files-SameFiles xs (file_after x nc) more t)

  pub files-Place :
      (xs : List Entry) (x : Entry) (ys : List Entry) (nc : NodeCollector S) (es : List Entry)
      → (process_files S k e (xs ++ (x ∷ ys)) nc).1 ≡ ok es
      → Place nc xs x ys es
  files-Place [] x ys nc es h =
      let (c, more, q, t, is, end) = files-inv x ys nc es h in
      record {
        reached = nc;
        cid = c;
        before = [];
        behind = more;
        is = is;
        same_before = refl;
        same_behind = files-SameFiles ys (file_after x nc) more t;
        start = Keeps-refl S k e nc;
        made = q;
        end = subst (Keeps S k e (file_after x nc)) end (files-Keeps ys (file_after x nc));
      }
  files-Place (y ∷ xs) x ys nc es h =
      let (c, more, q, t, is, end) = files-inv y (xs ++ (x ∷ ys)) nc es h in
      let p : Place (file_after y nc) xs x ys more = files-Place xs x ys (file_after y nc) more t in
      record {
        reached = p.reached;
        cid = p.cid;
        before = record y { cid = c } ∷ p.before;
        behind = p.behind;
        is = is ∙ ap (λ zs. record y { cid = c } ∷ zs) p.is;
        same_before = (c, p.before, refl, p.same_before);
        same_behind = p.same_behind;
        start = Keeps-trans S k e nc (file_after y nc) p.reached (file-Keeps y nc) p.start;
        made = p.made;
        end = subst (Keeps S k e (file_after x p.reached)) end p.end;
      }
