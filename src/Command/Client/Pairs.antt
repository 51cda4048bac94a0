-- ===== src/Command/Client/Pairs.antt =====
-- The tags of the flags.
use ib.Prelude.{
  ◌≡◌, refl, Str, Dict, [], ◌∷◌, ◌++◌, Bool, false, some, ok, lookup, insert, NodupKeys, All, any,
  map, ◌==◌, arith,
}
use ib.Client.Manifests.Tags.{insert_all, lookup-insert_all}
use ib.Command.Client.{cut_equals, parse_tags}

abbrev pub has_equals : Str → Bool
has_equals = any (λ c. c == b'=')

abbrev pub flag_of : Str × Str → Str
flag_of (k, v) = k ++ (b'=' ∷ v)

cut_equals-flag_of : (k v : Str) → has_equals k ≡ false → cut_equals (flag_of (k, v)) ≡ some (k, v)
unfolding cut_equals
cut_equals-flag_of [] v h = refl
cut_equals-flag_of (c ∷ k) v h = ground (arith, cut_equals-flag_of k v)

parse_tags-insert_all :
    (tags d : Dict Str)
    → All (λ (p : Str × Str). has_equals p.0 ≡ false) tags
    → parse_tags (map flag_of tags) d ≡ ok (insert_all tags d)
unfolding parse_tags
parse_tags-insert_all [] d h = refl
parse_tags-insert_all ((k, v) ∷ tags) d (plain, h) =
    rw (cut_equals-flag_of k v plain, parse_tags) (parse_tags-insert_all tags (insert k v d) h)

-- Flags that write a map of tags as key=value, with no equals sign in a key, are read as this map,
-- whatever signs the values hold.
pub parse_tags-flag_of :
    (tags : Dict Str)
    → All (λ (p : Str × Str). has_equals p.0 ≡ false) tags
    → NodupKeys tags
    → (d : Dict Str) × (parse_tags (map flag_of tags) [] ≡ ok d)
      × ((j : Str) → lookup j d ≡ lookup j tags)
unfolding lookup
parse_tags-flag_of tags plain h = (
  insert_all tags [],
  parse_tags-insert_all tags [] plain,
  λ j. ground (arith, lookup-insert_all j tags [] h),
)
