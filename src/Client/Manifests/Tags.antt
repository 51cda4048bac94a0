-- ===== src/Client/Manifests/Tags.antt =====
-- Tags on their way from the client to the server.
use ib.Prelude.{
  ◌≡◌, refl, sym, ◌∙◌, ap, Str, Dict, codes, List, [], ◌∷◌, ◌++◌, Bool, true, false, Option, none,
  some, lookup, insert, lookup-insert, NodupKeys, str_eq, str_eq_iff, arith, if◌then◌else◌,
}
use ib.Server.Api.{extract_tags}
use ib.Client.Manifests.{query_loop, tags_query}

abbrev tagged : Dict Str → Dict (List Str)
tagged [] = []
tagged ((k, v) ∷ d) = (codes "tag." ++ k, v ∷ []) ∷ tagged d

insert-tagged :
    (k v : Str) (d : Dict Str)
    → insert (codes "tag." ++ k) (v ∷ []) (tagged d) ≡ tagged (insert k v d)
unfolding insert str_eq
insert-tagged k v [] = refl
insert-tagged k v ((j, w) ∷ d) = ground (arith, insert-tagged k v d)

abbrev pub insert_all : Dict Str → Dict Str → Dict Str
insert_all [] d = d
insert_all ((k, v) ∷ tags) d = insert_all tags (insert k v d)

query_loop-tagged : (tags d : Dict Str) → query_loop tags (tagged d) ≡ tagged (insert_all tags d)
unfolding query_loop
query_loop-tagged [] d = refl
query_loop-tagged ((k, v) ∷ tags) d =
    ap (query_loop tags) (insert-tagged k v d) ∙ query_loop-tagged tags (insert k v d)

lookup-extract_tags : (j : Str) (d : Dict Str) → lookup j (extract_tags (tagged d)) ≡ lookup j d
unfolding extract_tags lookup ib.Prelude.has_prefix ib.Prelude.trim_prefix
lookup-extract_tags j [] = refl
lookup-extract_tags j ((k, v) ∷ d) =
    ground (arith, lookup-insert j k v (extract_tags (tagged d)), lookup-extract_tags j d)

pub lookup-insert_all :
    (j : Str) (tags d : Dict Str)
    → NodupKeys tags
    → lookup j (insert_all tags d) ≡ elim (lookup j tags) [ none ↦ lookup j d | some v ↦ some v ]
unfolding lookup
lookup-insert_all j [] d h = refl
lookup-insert_all j ((k, v) ∷ tags) d (fresh, h) = ground (
  arith,
  lookup-insert_all j tags (insert k v d) h,
  lookup-insert j k v d,
  str_eq_iff j k,
  fresh,
  ap (λ i. lookup i tags) {x = j} {y = k},
)

-- What handleListManifests and handleGetLatestManifest take from the query that the client makes
-- of a map of tags is the same map: each key has the same value, and no key is added.
pub lookup-extract_tags-tags_query :
    (tags : Dict Str) (j : Str)
    → NodupKeys tags
    → lookup j (extract_tags (tags_query tags)) ≡ lookup j tags
unfolding tags_query lookup
lookup-extract_tags-tags_query tags j h =
    ap (λ q. lookup j (extract_tags q)) (query_loop-tagged tags [])
    ∙ lookup-extract_tags j (insert_all tags [])
    ∙ ground (arith, lookup-insert_all j tags [] h)
