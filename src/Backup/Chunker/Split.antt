-- ===== src/Backup/Chunker/Split.antt =====
-- What ChunkData cuts, and that what it stores can be read back.
use ib.Prelude.{
  ℕ, zero, suc, ◌+◌, ◌-◌, ◌≤◌, ◌<◌, ◌≡◌, refl, sym, ◌∙◌, ap, Bytes, List, [], ◌∷◌, ◌++◌, ◌&&◌, true,
  false, ok, length, take, drop, ltb, concat, arith, ◌⊎◌, inl, inr, Bool-cases, is_empty,
  length-take, length-drop, take-append-drop, append_assoc, append-nil, if◌then◌else◌, Result-cases,
}
use ib.Prelude.{drop-drop, take_all, drop_all, length-append, subst}
use ib.Backup.Codec.{Codec, IsLawful}
use ib.Backup.Chunker.{
  ChunkResult, process_chunk, chunk_loop, chunk_data, decompress, chunk_size, smaller,
}

-- Every chunk but the last has the full size, and the last is not empty.
abbrev pub IsCut : ℕ → List Bytes → Type 0
IsCut size [] = Unit
IsCut size (b ∷ []) = (0 < length b) × (length b ≤ size)
IsCut size (b ∷ d ∷ bs) = (length b ≡ size) × IsCut size (d ∷ bs)

module _ (c : Codec) where
  -- Each result is that of its chunk.
  abbrev pub Processed : List Bytes → List ChunkResult → Type 0
  Processed [] [] = Unit
  Processed [] (r ∷ rs) = ⊥
  Processed (b ∷ bs) [] = ⊥
  Processed (b ∷ bs) (r ∷ rs) = (process_chunk c b ≡ ok r) × Processed bs rs

IsCut-head :
    (size : ℕ) (d : Bytes) (bs : List Bytes) → 0 < size → IsCut size (d ∷ bs) → 0 < length d
IsCut-head size d [] h k = k.0
IsCut-head size d (b ∷ bs) h k = omega (arith, k.0)

IsCut-cons :
    (size : ℕ) (rest : Bytes) (bs : List Bytes)
    → 0 < size
    → 0 < length rest
    → concat bs ≡ drop size rest
    → IsCut size bs
    → IsCut size (take size rest ∷ bs)
IsCut-cons size rest [] h k e cut = omega (arith, length-take size rest)
IsCut-cons size rest (d ∷ bs) h k e cut = (
  omega (
    arith,
    length-take size rest,
    length-drop size rest,
    ap length e,
    length-append d (concat bs),
    IsCut-head size d bs h cut,
  ),
  cut,
)

-- The slice of one round is the next `size` bytes, or all that is left.
slice :
    (size offset : ℕ) (content : Bytes)
    → offset < length content
    → take
        ((if ltb (length content) (offset + size) then length content else offset + size) - offset)
        (drop offset content)
      ≡ take size (drop offset content)
slice size offset content h = elim (Bool-cases (ltb (length content) (offset + size))) [
  | inl t ↦ rw t (
      take_all (length content - offset) (drop offset content)
        (omega (arith, length-drop offset content))
      ∙ sym (take_all size (drop offset content) (ground (arith, length-drop offset content))))
  | inr t ↦ rw t (let e : offset + size - offset ≡ size = omega arith in rw e)
]

module _ (c : Codec) where
  abbrev Cut : ℕ → Bytes → List ChunkResult → List ChunkResult → Type 0
  Cut size rest results out =
      (bs : List Bytes) × (rs : List ChunkResult) × (out ≡ results ++ rs)
      × Processed c bs rs
      × (concat bs ≡ rest)
      × IsCut size bs

  chunk_loop-Cut :
      (size fuel offset : ℕ) (content : Bytes) (results out : List ChunkResult)
      → 0 < size
      → length content ≤ offset + fuel
      → chunk_loop c size fuel offset content results ≡ ok out
      → Cut size (drop offset content) results out
  unfolding chunk_loop
  chunk_loop-Cut size zero offset content results out h k e = (
    [],
    [],
    ground (arith, append-nil results),
    tt,
    sym (drop_all offset content (omega arith)),
    tt,
  )
  chunk_loop-Cut size (suc fuel) offset content results out h k e =
      let rest : Bytes = drop offset content in
      elim (Bool-cases (ltb offset (length content))) [
        | inr t ↦ (
          [],
          [],
          ground (arith, t, append-nil results),
          tt,
          sym (drop_all offset content (ground (arith, t))),
          tt,
        )
        | inl t ↦ elim (Result-cases (process_chunk c (take size rest))) [
          | inr (m, p) ↦ absurd (ground (arith, t, p, slice size offset content))
          | inl (r, p) ↦
              let (bs, rs, q, done, joined, cut) =
                chunk_loop-Cut size fuel (offset + size) content (results ++ (r ∷ [])) out h
                  (omega arith) (ground (arith, t, p, slice size offset content)) in
              let tail_eq : concat bs ≡ drop size rest =
                joined ∙ sym (drop-drop size offset content) in
              (
                take size rest ∷ bs,
                r ∷ rs,
                q ∙ append_assoc results (r ∷ []) rs,
                (p, done),
                rw tail_eq (take-append-drop size rest),
                IsCut-cons size rest bs h (ground (arith, length-drop offset content)) tail_eq cut,
              )
        ]
      ]

  -- The chunks of ChunkData are the data cut in order at every 8 MB: joined they are the data,
  -- each but the last has the full size, and the last is not empty. Each result is the one of its
  -- chunk.
  pub chunk_data-IsCut :
      (content : Bytes) (out : List ChunkResult)
      → chunk_data c content ≡ ok out
      → (bs : List Bytes) × Processed c bs out × (concat bs ≡ content) × IsCut chunk_size bs
  unfolding chunk_data
  chunk_data-IsCut content out h =
      let (bs, rs, q, done, joined, cut) =
        chunk_loop-Cut chunk_size (length content) 0 content [] out (omega arith) (omega arith) h in
      (bs, subst (Processed c bs) (sym q) done, joined, cut)

  nonempty : (out : Bytes) → ltb 0 (length out) ≡ true → is_empty out ≡ false
  nonempty [] h = absurd (ground arith)
  nonempty (x ∷ out) h = refl

  -- What a result is made of.
  pub record IsMade (chunk : Bytes) (r : ChunkResult) : Type 0 where
    pub packed : Bytes
    pub named : c.generate chunk ≡ ok r.cid
    pub compressed : c.compress chunk (c.bound (length chunk)) ≡ ok packed
    pub content : r.content ≡ smaller c packed chunk
    pub size : r.original_size ≡ length chunk

  pub process_chunk-IsMade :
      (chunk : Bytes) (r : ChunkResult) → process_chunk c chunk ≡ ok r → IsMade chunk r
  unfolding process_chunk
  process_chunk-IsMade chunk r h = elim (Result-cases (c.generate chunk)) [
    | inr (m, p) ↦ absurd (ground (arith, p))
    | inl (cid, p) ↦ elim (Result-cases (c.compress chunk (c.bound (length chunk)))) [
      | inr (m, q) ↦ absurd (ground (arith, p, q))
      | inl (packed, q) ↦ record {
        packed = packed;
        named = ground (arith, p, q, h);
        compressed = q;
        content = ground (arith, p, q, h);
        size = ground (arith, p, q, h);
      }
    ]
  ]

  -- What ChunkData stores for a chunk is the chunk itself or is shorter. If it is shorter, it is
  -- decompressed into the chunk by every buffer that has room for it.
  pub decompress-process_chunk :
      (L : IsLawful c) (chunk : Bytes) (r : ChunkResult) (room : ℕ)
      → process_chunk c chunk ≡ ok r
      → length chunk ≤ room
      → (r.content ≡ chunk)
        ⊎ ((length r.content < length chunk) × (decompress c r.content room ≡ ok chunk))
  unfolding smaller decompress
  decompress-process_chunk L chunk r room h k =
      let made = process_chunk-IsMade chunk r h in
      let out : Bytes = made.packed in
      elim (Bool-cases (ltb 0 (length out) && ltb (length out) (length chunk))) [
        | inr t ↦ inl (ground (arith, made.content, t))
        | inl t ↦ inr (
            ground (
              arith,
              made.content,
              t,
              L.uncompress-compress chunk out (c.bound (length chunk)) room made.compressed,
              nonempty out,
            ))
      ]
