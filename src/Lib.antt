-- ===== src/Lib.antt =====
-- ib, a backup program with content-addressed blocks: a client cuts files into chunks, uploads the
-- chunks that the server does not have and a manifest that lists them; a server keeps blocks in
-- SQLite or S3, prunes old backups, serves downloads and shares the blocks over IPFS.
--
-- The parts, by file, with the code that each models:
-- - Prelude: strings as bytes, maps as association lists, (value, error) pairs, and the lemmas on
--   them. Go's `strings` and `path/filepath` are written out as far as the program uses them; where
--   they walk characters the model is exact on ASCII.
-- - Backup.Manifest: internal/backup/manifest.go.
-- - Backup.Chunker: internal/backup/chunker.go. ChunkData and Decompress are functions over a
--   `Codec`, the parameter for LZ4 and CIDs (Backup.Codec). Chunker.Stream is ChunkFile as turns of
--   its goroutine and of the receiver, with the buffer that they share.
-- - Backup.Ignore: internal/backup/ignore.go, with filepath.Match in Ignore.Glob.
-- - Backup.Scanner: internal/backup/scanner.go, with filepath.WalkDir as a recursion over a tree of
--   entries. The matcher is passed along, since nested ignore files add to it.
-- - Backup.Creator: Create of internal/backup/creator.go, over a `World` that gives the chunks of
--   each file and the server's answers. The workers share counters and the first error only, so
--   each file is handled by itself. Creator.Report: what it prints, and formatBytes.
-- - Backup.Restore: internal/backup/restore.go, as the sequence of its system calls. Restore.Disk is
--   a disk with links, as far as one file sees it, on which the calls act; what a call does that
--   follows a link is a parameter. Restore.Direct is about restores that follow none.
-- - Cid: internal/cid/cid.go over its hash and CID packages.
-- - Config: internal/config/config.go. An `Os` gives the files, the environment and the JSON; a
--   `Session` is a process with its files and its sync.Once.
-- - Storage: internal/storage/storage.go. Storage.Tables is the schema as a record of tables;
--   Storage.Object the interface to S3, which Storage.S3Client (internal/storage/s3.go) fills over
--   the AWS SDK; Open, Block, Node, ManifestStore and Prune are the methods, each from a store to a
--   store and an error. An `Env` says which SQL statements fail. The statements of a transaction act
--   on a view of the tables, also those before one that fails, until Commit or Rollback. Storage.Spec is what the storage
--   promises, without its tables: a shelf of blocks, nodes and backups, on which the same calls act;
--   Spec.Refines relates a store to a shelf, Steps and Dropping have one lemma for each call, and
--   Histories puts them together.
-- - Server.RateLimit and Server.Auth: internal/server/ratelimit.go and the authMiddleware of
--   internal/server/server.go. Server.Api, Server.Archive and Server.Static: internal/server/api.go
--   and internal/server/metrics.go, as functions from the server's state to a response. Server.Routes
--   is setupRoutes: the table of routes, and one request from gin's router through the middleware to
--   its handler. Server.Jobs: prune, runPruner and loadExistingRootCIDs. Server.Start: New, Run and Close.
-- - Ipfs.Dag, Ipfs.ManifestDag, Ipfs.Blockstore and Ipfs.Node: dag.go, manifest_dag.go, blockstore.go
--   and node.go of internal/ipfsnode, over the storage. CIDs are the parameter `Cids`; a node's use
--   of libp2p is a list of events. Dag.Wire and Dag.Node read dag-pb without knowing the encoder;
--   ManifestDag.Directories follows the links of the nodes that are stored.
-- - Client: internal/client/client.go, the retries over a `Network` that gives the replies, and in
--   Client.Manifests the requests for manifests over a `Remote` that answers them.
-- - Session: a client with a server. The client's requests for blocks go through the server's router
--   and middleware to the storage; push_blocks is the loop over a file's chunks in Create, each call
--   at its first attempt, and pull_block the DownloadBlock of a restore.
-- - Command.Server and Command.Client: the bodies of the commands of cmd/server and cmd/client, which
--   put these parts together. Command.Tree: the commands with their arguments and flags.
-- - Tests: the theorems at concrete inputs, with a bucket in memory and a small codec.
--
-- Bounds. The chunk loop has the data's length as fuel, which is enough because each round moves on
-- by a chunk; the varint loop has nine rounds and a last byte, enough for a uint64; the loop of
-- formatBytes has seven rounds, of which an int64 needs six; sizes of nodes are sums modulo 2^64.
-- Integers that only come from files or the clock are natural numbers. A directory tree does not
-- change while it is scanned. A day of the retention period has 24 hours.
--
-- A tar archive is read back by Server.Archive.Reader, which takes no data but those of the size in
-- the header, as archive/tar does.
--
-- Not modelled: cobra, which parses the flags, the help texts and what commands print; the embedded
-- files, which are parameters; and the web interface. encoding/json is a parameter, and the tags that
-- internal/storage/helpers.go writes with it are taken to be read back. The mutex of the storage
-- makes its writes sequences of whole calls, and so they are sequences here.
pub mod Prelude
pub mod Backup
pub mod Storage
pub mod Server
pub mod Ipfs
pub mod Config
pub mod Cid
pub mod Client
pub mod Command
pub mod Session
mod Tests
