-- ===== src/Storage/Block/Key.antt =====
-- The S3 key of a block determines its CID.
use ib.Prelude.{
  ℕ, ◌≡◌, refl, Str, codes, List, [], ◌∷◌, ◌++◌, map, length, take, drop, arith, leb, sym, ◌∙◌,
  length-take, length-drop, append_cancel_left, append_cancel_right, Bool-cases, inl, inr, to_lower,
  false, str_eq, str_eq_iff, leb→le,
}
use ib.Storage.Block.{key_prefix, block_s3_key}

length-map : (f : ℕ → ℕ) (xs : List ℕ) → length (map f xs) ≡ length xs
length-map f [] = refl
length-map f (x ∷ xs) = omega (arith, length-map f xs)

length-to_lower : (s : Str) → length (to_lower s) ≡ length s
unfolding to_lower
length-to_lower s = length-map _ s

length-key_prefix : (cid : Str) → length (key_prefix cid) ≡ 2
unfolding key_prefix
length-key_prefix cid = elim (Bool-cases (leb 10 (length cid))) [
  | inl long ↦ rw long (
      omega (
        arith,
        length-to_lower (take 2 (drop 8 cid)),
        length-take 2 (drop 8 cid),
        length-drop 8 cid,
        leb→le 10 (length cid) long,
      ))
  | inr short ↦ rw short
]

-- Blocks with different CIDs have different S3 keys.
pub block_s3_key_injective : (c d : Str) → block_s3_key c ≡ block_s3_key d → c ≡ d
unfolding block_s3_key
block_s3_key_injective c d h = append_cancel_right c d (codes ".lz4") tail_eq
  where
    behind :
        key_prefix c ++ (codes "/" ++ (c ++ codes ".lz4"))
        ≡ key_prefix d ++ (codes "/" ++ (d ++ codes ".lz4"))
    behind = append_cancel_left (codes "backups/ib/") (codes "backups/ib/") _ _ refl h

    tail_eq : c ++ codes ".lz4" ≡ d ++ codes ".lz4"
    tail_eq = append_cancel_left (codes "/") (codes "/") _ _ refl (
        append_cancel_left (key_prefix c) (key_prefix d) _ _
          (length-key_prefix c ∙ sym (length-key_prefix d)) behind)

pub str_eq-block_s3_key :
    (c d : Str) → str_eq c d ≡ false → str_eq (block_s3_key c) (block_s3_key d) ≡ false
str_eq-block_s3_key c d h = elim (Bool-cases (str_eq (block_s3_key c) (block_s3_key d))) [
  | inl same ↦ ground (arith, str_eq_iff c d, block_s3_key_injective c d ((str_eq_iff _ _).0 same))
  | inr differ ↦ differ
]
