-- ===== src/Cid.antt =====
-- internal/cid/cid.go.
use ib.Prelude.{◌≡◌, Str, Bytes, Bool, true, false, Result, ok, err, arith, Result-cases, inl, inr}

-- crypto/sha256, go-multihash and go-cid: the hash, the multihash of one, the text of the CIDv1 with
-- the raw codec of a multihash, and the CID of a text.
pub record Cids : Type 0 where
  pub sum256 : Bytes → Bytes
  pub encode : Bytes → Result Bytes
  pub new_cid_v1 : Bytes → Str
  pub decode : Str → Result Bytes

module _ (k : Cids) where
  unfoldable pub generate : Bytes → Result Str
  generate content = elim (k.encode (k.sum256 content)) [
    | err m ↦ err m
    | ok mh ↦ ok (k.new_cid_v1 mh)
  ]

  unfoldable pub validate : Str → Bool
  validate s = elim (k.decode s) [ err m ↦ false | ok c ↦ true ]

  -- A generated CID is valid, where the CID of a multihash is decoded to it.
  pub validate-generate :
      ((mh : Bytes) → k.decode (k.new_cid_v1 mh) ≡ ok mh)
      → (content : Bytes) (c : Str) → generate content ≡ ok c
      → validate c ≡ true
  unfolding generate validate
  validate-generate back content c h = elim (Result-cases (k.encode (k.sum256 content))) [
    | inr (m, q) ↦ absurd (ground (arith, q, h))
    | inl (mh, q) ↦ ground (arith, q, h, back mh)
  ]
