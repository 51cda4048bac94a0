-- ===== src/Tests/Reaching.antt =====
-- The nodes of two files in a directory, with CIDs that are the nodes themselves.
use ib.Prelude.{
  ◌≡◌, refl, ap, codes, Str, List, [], ◌∷◌, ◌++◌, none, some, Result, ok, err, true, take, drop,
  length, length-take, lookup, arith,
}
use ib.Backup.Manifest.{Manifest, Entry}
use ib.Ipfs.Dag.{Cids}
use ib.Ipfs.ManifestDag.{NodeCollector, build_manifest_dag}
use ib.Ipfs.ManifestDag.Directories.{Leads}
use ib.Ipfs.ManifestDag.Contents.{HoldsFile, build_manifest_dag-HoldsFile}
use ib.Tests.Fixtures.{memory, calm, store, file_entry, manifest_with}

abbrev open_cids : Cids
open_cids = record {
  decode = λ text. ok text;
  to_bytes = λ cid. take 8 cid;
  dag_pb = λ content. 1 ∷ content;
  is_dag_pb = λ text. true;
}

abbrev two_files : List Entry
two_files =
    file_entry (codes "d/f") 9000000 (codes "cid-a" ∷ codes "cid-b" ∷ [])
    ∷ file_entry (codes "d/g") 7 (codes "cid-c" ∷ [])
    ∷ []

abbrev collector : NodeCollector memory
collector = record {
  saver = record store { db = record (store.db) { nodes = [] } };
  node_cids = [];
}

-- The manifest, or the one that it was.
abbrev made : Result Manifest → Manifest
made (ok m) = m
made (err msg) = manifest_with (codes "m") []

shared : Manifest
unfolding build_manifest_dag
shared =
    made
      (build_manifest_dag memory open_cids calm (manifest_with (codes "m") two_files) collector).1

is_made :
    (build_manifest_dag memory open_cids calm (manifest_with (codes "m") two_files) collector).1
    ≡ ok shared
unfolding build_manifest_dag shared
is_made = refl

build_manifest_dag-HoldsFile_example :
    (target : Str) × Leads open_cids
      (build_manifest_dag memory open_cids calm
        (manifest_with (codes "m") two_files)
        collector).0.saver.db.nodes
      shared.root_cid
      (codes "d")
      (codes "f" ∷ [])
      target
    × HoldsFile open_cids
        (build_manifest_dag memory open_cids calm
          (manifest_with (codes "m") two_files)
          collector).0.saver.db.nodes
        target
        (codes "cid-a")
        (codes "cid-b" ∷ [])
unfolding lookup ib.Prelude.split ib.Ipfs.ManifestDag.Look.is_prefix ib.Ipfs.ManifestDag.Look.names
    ib.Prelude.str_eq
build_manifest_dag-HoldsFile_example =
    build_manifest_dag-HoldsFile memory open_cids calm (manifest_with (codes "m") two_files) shared
      collector [] (file_entry (codes "d/g") 7 (codes "cid-c" ∷ []) ∷ [])
      (file_entry (codes "d/f") 9000000 (codes "cid-a" ∷ codes "cid-b" ∷ [])) (codes "d")
      (codes "f" ∷ []) (codes "cid-a") (codes "cid-b" ∷ []) (λ a b h. ap (drop 1) h)
      (λ c. omega (arith, length-take 8 c)) (λ b. (refl, refl)) (λ c row h. absurd (cc)) is_made
      refl (omega arith) refl refl (refl, (refl, tt)) (refl, tt) refl (refl, (codes "cid-a", refl))
      (omega arith)
