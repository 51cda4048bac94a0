-- ===== src/Backup/Restore/Original.antt =====
-- Whether a restored file is the one that was backed up.
use ib.Prelude.{
  ◌+◌, ◌≤◌, ◌≡◌, ◌↔◌, refl, sym, ◌∙◌, ap, Str, Bytes, List, [], ◌∷◌, ◌++◌, none, some, ok, concat,
  map, All, length, length-append, inl, inr, arith, join_path,
}
use ib.Backup.Codec.{Codec, IsLawful}
use ib.Backup.Manifest.{file, Entry, Manifest}
use ib.Backup.Chunker.{ChunkResult, chunk_data}
use ib.Backup.Chunker.Split.{
  Processed, chunk_data-IsCut, decompress-process_chunk, process_chunk-IsMade,
}
use ib.Backup.Restore.{Call, World, download, restore}
use ib.Backup.Restore.Disk.{Disk, after_calls}
use ib.Backup.Restore.Direct.{made_links, IsDirect}
use ib.Backup.Restore.Contents.{IsAway, restore_contents}

-- The server gives each block as it was uploaded.
abbrev pub Serves : World → List ChunkResult → Type 0
Serves w rs = All (λ r. w.fetch r.cid ≡ ok r.content) rs

-- The chunk is stored as it is.
abbrev pub IsRaw : ChunkResult → Type 0
IsRaw r = length r.content ≡ r.original_size

abbrev pub contents : List ChunkResult → List Bytes
contents rs = map (λ r. r.content) rs

download_lem :
    (w : World) (rs : List ChunkResult)
    → Serves w rs
    → (download w (map (λ r. r.cid) rs)).0 ≡ contents rs
unfolding download
download_lem w [] h = refl
download_lem w (r ∷ rs) (h, hs) = ground (arith, h, download_lem w rs hs)

module _ (c : Codec) (L : IsLawful c) where
  -- No chunk is stored longer than it is.
  stored-le :
      (bs : List Bytes) (rs : List ChunkResult)
      → Processed c bs rs
      → length (concat (contents rs)) ≤ length (concat bs)
  stored-le [] [] h = omega arith
  stored-le [] (r ∷ rs) h = absurd h
  stored-le (b ∷ bs) [] h = absurd h
  stored-le (b ∷ bs) (r ∷ rs) (h, hs) =
      elim (decompress-process_chunk c L b r (length b) h (omega arith)) [
        | inl same ↦ omega (
          arith,
          ap length same,
          stored-le bs rs hs,
          length-append b (concat bs),
          length-append r.content (concat (contents rs)),
        )
        | inr (less, _) ↦ omega (
          arith,
          stored-le bs rs hs,
          length-append b (concat bs),
          length-append r.content (concat (contents rs)),
        )
      ]

  IsRaw-eq :
      (bs : List Bytes) (rs : List ChunkResult)
      → Processed c bs rs
      → All IsRaw rs
      → concat (contents rs) ≡ concat bs
  IsRaw-eq [] [] h raw = refl
  IsRaw-eq [] (r ∷ rs) h raw = absurd h
  IsRaw-eq (b ∷ bs) [] h raw = absurd h
  IsRaw-eq (b ∷ bs) (r ∷ rs) (h, hs) (raw, raws) =
      elim (decompress-process_chunk c L b r (length b) h (omega arith)) [
        | inl same ↦ ground (arith, same, IsRaw-eq bs rs hs raws)
        | inr (less, _) ↦ absurd (omega (arith, (process_chunk-IsMade c b r h).size))
      ]

  eq-IsRaw :
      (bs : List Bytes) (rs : List ChunkResult)
      → Processed c bs rs
      → length (concat (contents rs)) ≡ length (concat bs)
      → All IsRaw rs
  eq-IsRaw [] [] h eq = tt
  eq-IsRaw [] (r ∷ rs) h eq = absurd h
  eq-IsRaw (b ∷ bs) [] h eq = absurd h
  eq-IsRaw (b ∷ bs) (r ∷ rs) (h, hs) eq =
      let here : length (b ++ concat bs) ≡ length b + length (concat bs) =
        length-append b (concat bs) in
      let there : length (r.content ++ concat (contents rs))
          ≡ length r.content + length (concat (contents rs)) =
        length-append r.content (concat (contents rs)) in
      let size : r.original_size ≡ length b = (process_chunk-IsMade c b r h).size in
      elim (decompress-process_chunk c L b r (length b) h (omega arith)) [
        | inl same ↦
            (omega (arith, ap length same), eq-IsRaw bs rs hs (omega (arith, ap length same)))
        | inr (less, _) ↦ absurd (omega (arith, stored-le bs rs hs))
      ]

  -- If a file's blocks are those that ChunkData makes of its contents, and the server gives each
  -- block as it was uploaded, a successful restore whose calls follow no link leaves the blocks one
  -- behind the other. These are
  -- the contents that were backed up exactly if none of the chunks was compressed.
  pub restore-chunk_data :
      (through : Call → Disk → Disk) (content : Bytes) (rs : List ChunkResult) (w : World)
      (m : Manifest) (out : Str) (xs ys : List Entry) (x : Entry) (d : Disk)
      → chunk_data c content ≡ ok rs
      → Serves w rs
      → (restore w m out).1 ≡ none
      → m.entries ≡ xs ++ (x ∷ ys)
      → x.type ≡ file
      → x.blocks ≡ map (λ r. r.cid) rs
      → All (IsAway (join_path out x.path) w out) ys
      → All (IsDirect out (d.links ++ made_links out m.entries)) m.entries
      → let left = (after_calls through (join_path out x.path) (restore w m out).0 d).content in
        (left ≡ some (concat (contents rs))) × ((left ≡ some content) ↔ All IsRaw rs)
  restore-chunk_data through content rs w m out xs ys x d cut served done is t blocks away direct =
      let (bs, processed, joined, _) = chunk_data-IsCut c content rs cut in
      let left : (after_calls through (join_path out x.path) (restore w m out).0 d).content
          ≡ some (concat (contents rs)) =
        restore_contents through w m out xs ys x d done is t away direct
        ∙ ap (λ cids. some (concat (download w cids).0)) blocks
        ∙ ap (λ z. some (concat z)) (download_lem w rs served) in
      (
        left,
        (
          λ same.
              let e : concat (contents rs) ≡ content = ground (arith, left, same) in
              eq-IsRaw bs rs processed (ap length (e ∙ sym joined)),
          λ raw. left ∙ ap some (IsRaw-eq bs rs processed raw ∙ joined),
        ),
      )
