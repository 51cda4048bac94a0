-- ===== src/Backup/Restore/Direct.antt =====
-- Restores whose calls follow no link.
use ib.Prelude.{
  ◌≡◌, refl, Str, Bytes, List, [], ◌∷◌, ◌++◌, Bool, true, not, All, All-append, any, arith, str_eq,
  str_eq_refl, join_path,
}
use ib.Backup.Manifest.{FileType, file, dir, symlink, other, Entry}
use ib.Backup.Restore.{Call, World, download, attribute_calls}
use ib.Backup.Restore.Calls.{
  dir_calls, blocks_calls, file_calls, entry_calls, all_dirs, all_contents, all_attributes,
  expected_calls,
}
use ib.Backup.Restore.Disk.{below, at_or_below, is_clear, IsWithin}

module _ (out : Str) where
  -- The links that a restore makes.
  abbrev pub link_of : FileType → Str → List Str → List Str
  link_of symlink path ls = join_path out path ∷ ls
  link_of _ path ls = ls

  abbrev pub made_links : List Entry → List Str
  made_links [] = []
  made_links (e ∷ es) = link_of e.type e.path (made_links es)

  -- The path of a file leads over none of the links, and that of a link over none before its end.
  abbrev pub is_direct : List Str → FileType → Str → Bool
  is_direct links file path = not (any (at_or_below (join_path out path)) links)
  is_direct links symlink path = not (any (below (join_path out path)) links)
  is_direct links _ path = true

  abbrev pub IsDirect : List Str → Entry → Type 0
  IsDirect links e = is_direct links e.type e.path ≡ true

  module _ (w : World) (links : List Str) where
    AreClear : List Call → Type 0
    AreClear cs = All (λ c. is_clear links c ≡ true) cs

    blocks_calls-AreClear :
        (q : Str) (bs : List Bytes)
        → not (any (at_or_below q) links) ≡ true
        → AreClear (blocks_calls q bs)
    unfolding AreClear
    blocks_calls-AreClear q [] h = tt
    blocks_calls-AreClear q (b ∷ bs) h = (h, blocks_calls-AreClear q bs h)

    entry_calls-AreClear :
        (t : FileType) (e : Entry) (ls : List Str)
        → is_direct links t e.path ≡ true
        → IsWithin (link_of t e.path ls) links
        → AreClear (entry_calls w out t e)
    unfolding AreClear
    entry_calls-AreClear file e ls h sub = by_blocks e.blocks
      where
        by_blocks : (cids : List Str) → AreClear (file_calls w (join_path out e.path) e.mode cids)
        by_blocks [] = (h, tt)
        by_blocks (c ∷ cids) =
            (h, blocks_calls-AreClear (join_path out e.path) (download w (c ∷ cids)).0 h)
    entry_calls-AreClear dir e ls h sub = tt
    entry_calls-AreClear symlink e ls h sub =
        let q = join_path out e.path in (ground (arith, h, sub (str_eq q), str_eq_refl q), tt)
    entry_calls-AreClear (other s) e ls h sub = tt

    tail-IsWithin :
        (t : FileType) (path : Str) (ls : List Str)
        → IsWithin (link_of t path ls) links
        → IsWithin ls links
    tail-IsWithin file path ls sub = sub
    tail-IsWithin dir path ls sub = sub
    tail-IsWithin symlink path ls sub = λ f k. sub f (ground (arith, k))
    tail-IsWithin (other s) path ls sub = sub

    all_contents-AreClear :
        (es : List Entry)
        → All (IsDirect links) es
        → IsWithin (made_links es) links
        → AreClear (all_contents w out es)
    unfolding AreClear
    all_contents-AreClear [] h sub = tt
    all_contents-AreClear (e ∷ es) (h, hs) sub =
        All-append (λ c. is_clear links c ≡ true) (entry_calls w out e.type e)
          (all_contents w out es) (entry_calls-AreClear e.type e (made_links es) h sub)
          (all_contents-AreClear es hs (tail-IsWithin e.type e.path (made_links es) sub))

    dir_calls-AreClear : (t : FileType) (e : Entry) → AreClear (dir_calls out t e)
    unfolding AreClear
    dir_calls-AreClear dir e = (refl, tt)
    dir_calls-AreClear file e = tt
    dir_calls-AreClear symlink e = tt
    dir_calls-AreClear (other s) e = tt

    all_dirs-AreClear : (es : List Entry) → AreClear (all_dirs w out es)
    unfolding AreClear
    all_dirs-AreClear [] = tt
    all_dirs-AreClear (e ∷ es) =
        All-append (λ c. is_clear links c ≡ true) (dir_calls out e.type e) (all_dirs w out es)
          (dir_calls-AreClear e.type e) (all_dirs-AreClear es)

    attribute_calls-AreClear : (t : FileType) (e : Entry) → AreClear (attribute_calls out t e)
    unfolding AreClear attribute_calls
    attribute_calls-AreClear symlink e = tt
    attribute_calls-AreClear file e = (refl, (refl, tt))
    attribute_calls-AreClear dir e = (refl, (refl, tt))
    attribute_calls-AreClear (other s) e = (refl, (refl, tt))

    all_attributes-AreClear : (es : List Entry) → AreClear (all_attributes w out es)
    unfolding AreClear
    all_attributes-AreClear [] = tt
    all_attributes-AreClear (e ∷ es) =
        All-append (λ c. is_clear links c ≡ true) (attribute_calls out e.type e)
          (all_attributes w out es) (attribute_calls-AreClear e.type e) (all_attributes-AreClear es)

    pub expected_calls-AreClear :
        (es : List Entry)
        → All (IsDirect links) es
        → IsWithin (made_links es) links
        → All (λ c. is_clear links c ≡ true) (expected_calls w out es)
    unfolding AreClear
    expected_calls-AreClear es h sub = (
      refl,
      All-append (λ c. is_clear links c ≡ true) (all_dirs w out es)
          (all_contents w out es ++ all_attributes w out es) (all_dirs-AreClear es)
          (All-append (λ c. is_clear links c ≡ true) (all_contents w out es)
            (all_attributes w out es) (all_contents-AreClear es h sub)
            (all_attributes-AreClear es)),
    )
