-- ===== src/Server/Start.antt =====
-- New, Run and Close of internal/server/server.go.
use ib.Prelude.{
  ℕ, ◌*◌, Str, codes, List, [], ◌∷◌, ◌++◌, decimal, ltb, Option, none, some, Result, ok, err,
  if◌then◌else◌,
}
use ib.Config.{ServerConfig}
use ib.Storage.Object.{S3}
use ib.Storage.Tables.{Db, Store}
use ib.Storage.Open.{Opening, new_storage}
use ib.Ipfs.Node as Node
use ib.Ipfs.Node.{Libp2p, new_node, ipfs_config}
use ib.Server.RateLimit.{new_rate_limiter}
use ib.Server.Api.{new_metrics}
use ib.Server.Routes.{Running}

-- A server, with its node where it has one.
pub record Made (S : S3) : Type 0 where
  pub running : Running S
  pub node : Option Node.Node

module _ (S : S3) (o : Opening) (l : Libp2p) where
  -- Failed attempts block an address for fifteen seconds.
  made : Store S → Option Node.Node → Made S
  unfolding new_rate_limiter
  made store node = record {
    running = record {
      server = record {
        storage = store;
        metrics = new_metrics;
        root_cids = elim node [ none ↦ none | some n ↦ some n.root_cids ];
      };
      limiter = new_rate_limiter (15 * 1_000_000_000);
    };
    node = node;
  }

  -- The events of the IPFS node, and the server. Without a node the storage is closed again.
  unfoldable pub new_server : ServerConfig → Db → S.State → List Node.Event × Result (Made S)
  unfolding made new_storage new_node ipfs_config
  new_server cfg db bucket = elim (new_storage S o cfg db bucket) [
    | err m ↦ ([], err (codes "failed to initialize storage: " ++ m))
    | ok store ↦
        if cfg.ipfs_enabled
        then (
          (new_node l (ipfs_config cfg)).0,
          elim (new_node l (ipfs_config cfg)).1 [
            | err m ↦ err (codes "failed to start IPFS node: " ++ m)
            | ok n ↦ ok (made store (some n))
          ],
        )
        else ([], ok (made store none))
  ]

-- An error of the node's Close is printed. The result is that of the database.
unfoldable pub close_server : {S : S3} → Option Str → Made S → List Node.Event × Option Str
unfolding Node.close
close_server db_error m = (elim m.node [ none ↦ [] | some n ↦ Node.close n ], db_error)

-- What Run starts beside the router: the server of "/metrics" at an address, runPruner, and
-- loadExistingRootCIDs.
pub data Task : Type 0 where
  metrics_server : Str → Task
  pruner : Task
  load_root_cids : Task

unfoldable pub run_metrics_server : ℕ → Task
run_metrics_server port = metrics_server (codes ":" ++ decimal port)

-- The goroutines in the order of their start, and the error of the router, which listens until it
-- has one.
unfoldable pub run_server :
    {S : S3} → ServerConfig → ℕ → (Str → Option Str) → Made S → List Task × Option Str
unfolding run_metrics_server
run_server cfg metrics_port listen m = (
  (if ltb 0 metrics_port then run_metrics_server metrics_port ∷ [] else [])
      ++ (pruner ∷ elim m.node [ none ↦ [] | some n ↦ load_root_cids ∷ [] ]),
  listen cfg.listen_addr,
)
