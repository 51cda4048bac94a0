-- ===== src/Backup/Restore/Contents.antt =====
-- What the calls of a restore leave in a file.
use ib.Prelude.{
  ℕ, ◌≡◌, refl, sym, ◌∙◌, ap, Str, Bytes, List, [], ◌∷◌, ◌++◌, false, Option, none, some, concat,
  All, All-split, any, any-append, not, subst, true, arith, str_eq, str_eq_refl, append_assoc,
  append-nil, join_path,
}
use ib.Backup.Manifest.{FileType, file, dir, symlink, other, Entry, Manifest}
use ib.Backup.Restore.{Call, World, download, attribute_calls, restore}
use ib.Backup.Restore.Calls.{
  dir_calls, blocks_calls, file_calls, entry_calls, all_dirs, all_contents, all_attributes,
  expected_calls, restore_calls,
}
use ib.Backup.Restore.Disk.{
  Disk, direct_call, direct_calls, at_or_below, IsWithin, after_calls, after_calls_clear,
}
use ib.Backup.Restore.Direct.{made_links, is_direct, IsDirect, expected_calls-AreClear}

module _ (p : Str) where
  direct_calls-append :
      (cs ds : List Call) (old : Option Bytes)
      → direct_calls p (cs ++ ds) old ≡ direct_calls p ds (direct_calls p cs old)
  unfolding direct_calls
  direct_calls-append [] ds old = refl
  direct_calls-append (c ∷ cs) ds old = direct_calls-append cs ds (direct_call p c old)

  after_blocks :
      (bs : List Bytes) (old : Bytes)
      → direct_calls p (blocks_calls p bs) (some old) ≡ some (old ++ concat bs)
  unfolding direct_calls
  after_blocks [] old = ap some (sym (append-nil old))
  after_blocks (b ∷ bs) old =
      ground (arith, str_eq_refl p, after_blocks bs (old ++ b), append_assoc old b (concat bs))

  after_blocks_elsewhere :
      (q : Str) (bs : List Bytes) (old : Option Bytes)
      → str_eq p q ≡ false
      → direct_calls p (blocks_calls q bs) old ≡ old
  unfolding direct_calls
  after_blocks_elsewhere q [] old h = refl
  after_blocks_elsewhere q (b ∷ bs) old h = ground (arith, h, after_blocks_elsewhere q bs old h)

  module _ (w : World) where
    after_file :
        (mode : ℕ) (cids : List Str) (old : Option Bytes)
        → direct_calls p (file_calls w p mode cids) old ≡ some (concat (download w cids).0)
    unfolding direct_calls download
    after_file mode [] old = ground (arith, str_eq_refl p)
    after_file mode (c ∷ cids) old =
        ground (arith, str_eq_refl p, after_blocks (download w (c ∷ cids)).0 [])

    after_file_elsewhere :
        (q : Str) (mode : ℕ) (cids : List Str) (old : Option Bytes)
        → str_eq p q ≡ false
        → direct_calls p (file_calls w q mode cids) old ≡ old
    unfolding direct_calls
    after_file_elsewhere q mode [] old h = ground (arith, h)
    after_file_elsewhere q mode (c ∷ cids) old h =
        ground (arith, h, after_blocks_elsewhere q (download w (c ∷ cids)).0 old h)

    module _ (out : Str) where
      abbrev pub IsAway : Entry → Type 0
      IsAway e = str_eq p (join_path out e.path) ≡ false

      after_entry :
          (t : FileType) (e : Entry) (old : Option Bytes)
          → IsAway e
          → direct_calls p (entry_calls w out t e) old ≡ old
      unfolding direct_calls
      after_entry file e old h = after_file_elsewhere (join_path out e.path) e.mode e.blocks old h
      after_entry dir e old h = refl
      after_entry symlink e old h = refl
      after_entry (other s) e old h = refl

      after_contents :
          (es : List Entry) (old : Option Bytes)
          → All IsAway es
          → direct_calls p (all_contents w out es) old ≡ old
      unfolding direct_calls
      after_contents [] old h = refl
      after_contents (e ∷ es) old (h, hs) =
          direct_calls-append (entry_calls w out e.type e) (all_contents w out es) old
          ∙ ap (direct_calls p (all_contents w out es)) (after_entry e.type e old h)
          ∙ after_contents es old hs

      after_dir :
          (t : FileType) (e : Entry) (old : Option Bytes)
          → direct_calls p (dir_calls out t e) old ≡ old
      unfolding direct_calls
      after_dir file e old = refl
      after_dir dir e old = refl
      after_dir symlink e old = refl
      after_dir (other s) e old = refl

      after_dirs :
          (es : List Entry) (old : Option Bytes) → direct_calls p (all_dirs w out es) old ≡ old
      unfolding direct_calls
      after_dirs [] old = refl
      after_dirs (e ∷ es) old =
          direct_calls-append (dir_calls out e.type e) (all_dirs w out es) old
          ∙ ap (direct_calls p (all_dirs w out es)) (after_dir e.type e old)
          ∙ after_dirs es old

      after_attribute :
          (t : FileType) (e : Entry) (old : Option Bytes)
          → direct_calls p (attribute_calls out t e) old ≡ old
      unfolding direct_calls attribute_calls
      after_attribute file e old = refl
      after_attribute dir e old = refl
      after_attribute symlink e old = refl
      after_attribute (other s) e old = refl

      after_attributes :
          (es : List Entry) (old : Option Bytes)
          → direct_calls p (all_attributes w out es) old ≡ old
      unfolding direct_calls
      after_attributes [] old = refl
      after_attributes (e ∷ es) old =
          direct_calls-append (attribute_calls out e.type e) (all_attributes w out es) old
          ∙ ap (direct_calls p (all_attributes w out es)) (after_attribute e.type e old)
          ∙ after_attributes es old

      all_contents-append :
          (xs ys : List Entry)
          → all_contents w out (xs ++ ys) ≡ all_contents w out xs ++ all_contents w out ys
      all_contents-append [] ys = refl
      all_contents-append (x ∷ xs) ys =
          ap (λ cs. entry_calls w out x.type x ++ cs) (all_contents-append xs ys)
          ∙ sym (
              append_assoc (entry_calls w out x.type x) (all_contents w out xs)
                (all_contents w out ys))

      after_expected :
          (xs ys : List Entry) (x : Entry) (old : Option Bytes)
          → x.type ≡ file
          → p ≡ join_path out x.path
          → All IsAway ys
          → direct_calls p (expected_calls w out (xs ++ (x ∷ ys))) old
            ≡ some (concat (download w x.blocks).0)
      unfolding direct_calls
      after_expected xs ys x old t is away =
          let es : List Entry = xs ++ (x ∷ ys) in
          let before : Option Bytes = direct_calls p (all_contents w out xs) old in
          let own : List Call = entry_calls w out x.type x in
          direct_calls-append (all_dirs w out es) (all_contents w out es ++ all_attributes w out es)
            old
          ∙ ap (direct_calls p (all_contents w out es ++ all_attributes w out es))
              (after_dirs es old)
          ∙ direct_calls-append (all_contents w out es) (all_attributes w out es) old
          ∙ after_attributes es (direct_calls p (all_contents w out es) old)
          ∙ ap (λ cs. direct_calls p cs old) (all_contents-append xs (x ∷ ys))
          ∙ direct_calls-append (all_contents w out xs) (own ++ all_contents w out ys) old
          ∙ direct_calls-append own (all_contents w out ys) before
          ∙ after_contents ys (direct_calls p own before) away
          ∙ ap (λ ty. direct_calls p (entry_calls w out ty x) before) t
          ∙ ap (λ q. direct_calls p (file_calls w q x.mode x.blocks) before) (sym is)
          ∙ after_file x.mode x.blocks before

-- If Restore returns no error, a file that no later entry of the manifest restores again holds the
-- downloaded blocks of its entry in order, and nothing else, whatever the file held before, and
-- whatever calls do that follow links: as long as no file of the manifest, and no link before its
-- end, is reached over a link that was there before or that the restore makes, and different clean
-- paths stand for different files otherwise.
pub restore_contents :
    (through : Call → Disk → Disk) (w : World) (m : Manifest) (out : Str) (xs ys : List Entry)
    (x : Entry) (d : Disk)
    → (restore w m out).1 ≡ none
    → m.entries ≡ xs ++ (x ∷ ys)
    → x.type ≡ file
    → All (IsAway (join_path out x.path) w out) ys
    → All (IsDirect out (d.links ++ made_links out m.entries)) m.entries
    → (after_calls through (join_path out x.path) (restore w m out).0 d).content
      ≡ some (concat (download w x.blocks).0)
restore_contents through w m out xs ys x d done is t away direct =
    let p = join_path out x.path in
    let links = d.links ++ made_links out m.entries in
    let before : IsWithin d.links links =
      λ f h. ground (arith, h, any-append f d.links (made_links out m.entries)) in
    let made : IsWithin (made_links out m.entries) links =
      λ f h. ground (arith, h, any-append f d.links (made_links out m.entries)) in
    let here =
      ((All-split (IsDirect out links) xs (x ∷ ys) (subst (All (IsDirect out links)) is direct)).1
      ).0 in
    let free : not (any (at_or_below p) links) ≡ true =
      subst (λ ty. is_direct out links ty x.path ≡ true) t here in
    ap (λ cs. (after_calls through p cs d).content) ((restore_calls w m out done).0)
    ∙ after_calls_clear through p links (expected_calls w out m.entries) d free
        (expected_calls-AreClear out w links m.entries direct made) before
    ∙ ap (λ es. direct_calls p (expected_calls w out es) d.content) is
    ∙ after_expected p w out xs ys x d.content t refl away
