-- ===== src/Backup/Creator/Blocks.antt =====
-- The blocks of a file that was read to its end.
use ib.Prelude.{
  subst, ℕ, ◌+◌, ◌≡◌, refl, sym, ◌∙◌, Str, Bytes, List, [], ◌∷◌, ◌++◌, true, false, none, ok, arith,
  append-nil, append_assoc, ◌⊎◌, inl, inr, length, Bool-cases, Option-cases, Result-cases,
}
use ib.Backup.Manifest.{Entry}
use ib.Backup.Chunker.Stream.{Received, block, failure}
use ib.Backup.Creator.{World, finished, Progress, process_chunks, process_file}

module _ (w : World) where
  -- The blocks are the CIDs of the chunks in order, no chunk is an error, and for each the server
  -- has said that it has the block or has taken its upload without an error.
  abbrev pub AllStored : Str → ℕ → List Received → List Str → Type 0
  AllStored path i [] [] = Unit
  AllStored path i [] (b ∷ bs) = ⊥
  AllStored path i (failure m ∷ rest) bs = ⊥
  AllStored path i (block cid content size ∷ rest) [] = ⊥
  AllStored path i (block cid content size ∷ rest) (b ∷ bs) =
      (b ≡ cid)
      × ((w.exists path i cid ≡ ok true)
          ⊎ ((w.exists path i cid ≡ ok false) × (w.upload path i cid content ≡ none)))
      × AllStored path (i + 1) rest bs

  Tail : Str → ℕ → List Received → List Str → List Str → Type 0
  Tail path i chunks before bs =
      (more : List Str) × (bs ≡ before ++ more) × AllStored path i chunks more

  cons-Tail :
      (path : Str) (i : ℕ) (rest : List Received) (before bs : List Str) (cid : Str)
      (content : Bytes) (size : ℕ)
      → (w.exists path i cid ≡ ok true)
        ⊎ ((w.exists path i cid ≡ ok false) × (w.upload path i cid content ≡ none))
      → Tail path (i + 1) rest (before ++ (cid ∷ [])) bs
      → Tail path i (block cid content size ∷ rest) before bs
  unfolding Tail
  cons-Tail path i rest before bs cid content size s (more, e, all) =
      (cid ∷ more, e ∙ append_assoc before (cid ∷ []) more, (refl, s, all))

  process_chunks-Tail :
      (path : Str) (i : ℕ) (chunks : List Received) (before bs : List Str) (up skip : ℕ)
      (p : Progress)
      → (process_chunks w path i chunks before up skip p).0 ≡ finished bs
      → Tail path i chunks before bs
  unfolding process_chunks
  process_chunks-Tail path i [] before bs up skip p h =
      unfold Tail in ([], ground (arith, append-nil before), tt)
  process_chunks-Tail path i (failure m ∷ rest) before bs up skip p h =
      absurd (elim (Bool-cases (w.is_permission m)) [
        | inl t ↦ ground (arith, t)
        | inr t ↦ ground (arith, t)
      ])
  process_chunks-Tail path i (block cid content size ∷ rest) before bs up skip p h =
      elim (Result-cases (w.exists path i cid)) [
        | inr (m, q) ↦ absurd (ground (arith, q))
        | inl (true, q) ↦ cons-Tail path i rest before bs cid content size (inl q) (
            process_chunks-Tail path (i + 1) rest (before ++ (cid ∷ [])) bs up (skip + size)
              (record p { blocks_skipped = p.blocks_skipped + 1 }) (ground (arith, q)))
        | inl (false, q) ↦ elim (Option-cases (w.upload path i cid content)) [
          | inr (m, u) ↦ absurd (ground (arith, q, u))
          | inl u ↦ cons-Tail path i rest before bs cid content size (inr (q, u)) (
              process_chunks-Tail path (i + 1) rest (before ++ (cid ∷ [])) bs (up + length content)
                skip (record p { blocks_uploaded = p.blocks_uploaded + 1 }) (ground (arith, q, u)))
        ]
      ]

  -- If a worker finishes its file, the blocks that it records are the CIDs of all chunks of the
  -- file in order, and the server has each of them: it said so, or it took the upload.
  pub process_file-AllStored :
      (e : Entry) (p : Progress) (bs : List Str)
      → (process_file w e p).0 ≡ finished bs
      → AllStored e.path 0 (w.chunks e.path) bs
  unfolding process_file Tail
  process_file-AllStored e p bs h = elim (Option-cases (w.cancelled e.path)) [
    | inr (m, c) ↦ absurd (ground (arith, c))
    | inl c ↦
        let (more, same, all) =
          process_chunks-Tail e.path 0 (w.chunks e.path) [] bs 0 0 p (ground (arith, c)) in
        subst (AllStored e.path 0 (w.chunks e.path)) (sym same) all
  ]
