-- ===== src/Ipfs.antt =====
-- The package internal/ipfsnode: the encoding of UnixFS nodes, the DAG of a manifest and the
-- read-only blockstore.
pub mod Dag
pub mod Blockstore
pub mod ManifestDag
pub mod Node
