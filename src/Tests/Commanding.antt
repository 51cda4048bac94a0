-- ===== src/Tests/Commanding.antt =====
-- The commands, the configuration, the sizes and the IPFS node.
use ib.Prelude.{
  ℕ, ◌+◌, ◌^◌, ◌≡◌, ◌≤◌, ◌<◌, ◌⊎◌, refl, Str, Bytes, Dict, codes, [], ◌∷◌, ◌++◌, true, false, ◌&&◌,
  any, All, concat, if◌then◌else◌, map, none, some, Result, ok, lookup, insert, NodupKeys,
  get_elem?, decimal, str_eq, arith,
}
use ib.Server.Api.{extract_tags}
use ib.Config.{ServerConfig, FileRead, not_exist, contents, Os, Session}
use ib.Client.Manifests.{tags_query}
use ib.Client.Manifests.Tags.{lookup-extract_tags-tags_query}
use ib.Command.Server.{Typed, ServeFlags}
use ib.Backup.Creator.Report.{units, format_bytes}
use ib.Backup.Creator.Report.Units.{format_bytes_lem}
use ib.Ipfs.Node.{
  default_config, Libp2p, Node, slept, provided, advertised, failed_to_provide, new_node,
  advertise_roots,
}
use ib.Ipfs.Node.Calls.{opens, still_open, upto, report, new_node_error, advertise_roots_lem}

-- A configuration with all but a token.
abbrev plain : ServerConfig
plain = record {
  token = [];
  db_path = codes "/ib.db";
  listen_addr = codes ":8080";
  retention_days = 90;
  s3_endpoint = codes "http://localhost:9000";
  s3_bucket = codes "ib-backups";
  s3_access_key = [];
  s3_secret_key = [];
  s3_region = codes "us-east-1";
  ipfs_enabled = false;
  ipfs_listen_addrs = [];
  ipfs_gateway_addr = [];
  ipfs_public_ip = [];
}

abbrev read_disk : Str → Dict Bytes → FileRead
read_disk path s = elim (lookup path s) [ none ↦ not_exist | some d ↦ contents d ]

-- A computer without variables, whose JSON is the token and stands for `plain` with it.
abbrev computer : Os
computer = record {
  State = Dict Bytes;
  user_config_dir = ok (codes "/c");
  mkdir_all = λ p s. (s, none);
  read_file = read_disk;
  write_file = λ p d s. (insert p d s, none);
  getenv = λ v. [];
  atoi = λ s. none;
  marshal_client = λ c. ok c.token;
  unmarshal_client = λ d. ok (record { server_url = []; token = d });
  marshal_server = λ c. ok c.token;
  unmarshal_server = λ d. ok (record plain { token = d });
}

-- The file is there, and has no token.
abbrev session : Session computer
session = record { disk = (codes "/c/ib/server.json", []) ∷ []; once = false; config_dir = [] }

abbrev random : Result Bytes
random = ok (10 ∷ 255 ∷ [])

-- Enter at every question.
abbrev typed : Typed
typed = record {
  endpoint = [];
  bucket = [];
  access_key = [];
  secret_key = [];
  region = [];
  listen_addr = [];
  db_path = [];
  retention = [];
  ipfs = [];
  gateway = [];
  regenerate = [];
}

abbrev flags : ServeFlags
flags = record { listen = []; metrics_port = 0; title = codes "ib Backup" }

abbrev tags : Dict Str
tags = (codes "name", codes "a") ∷ (codes "env", codes "x=y") ∷ []

tags_distinct : NodupKeys tags
unfolding lookup str_eq
tags_distinct = (refl, (refl, tt))

lookup-extract_tags-tags_query_example :
    lookup (codes "env") (extract_tags (tags_query tags)) ≡ lookup (codes "env") tags
lookup-extract_tags-tags_query_example =
    lookup-extract_tags-tags_query tags (codes "env") tags_distinct

format_bytes_lem_example :
    (exp : ℕ) × (c : ℕ) × (get_elem? units exp ≡ some c)
    × (1024 ^ (exp + 1) ≤ 5000000)
    × (5000000 < 1024 ^ (exp + 2))
    × (format_bytes (λ a b. decimal a) 5000000
        ≡ some ((λ (a b : ℕ). decimal a) 5000000 (1024 ^ (exp + 1)) ++ (b' ' ∷ c ∷ codes "B")))
format_bytes_lem_example = format_bytes_lem (λ a b. decimal a) 5000000 (omega arith) (omega arith)

abbrev network : Libp2p
network = record {
  new_multiaddr = λ a. ok a;
  conn_manager = none;
  new_host = λ a b. none;
  bootstrap = some (codes "no peers");
  addr_info = λ a. ok a;
  blocks_backend = none;
  table_size = λ n. n;
  provide = λ c. if str_eq c (codes "b") then some (codes "no route") else none;
}

new_node_error_example : still_open (new_node network default_config).0 ≡ (
    any opens (new_node network default_config).0
    && (elim network.bootstrap [ none ↦ false | some _ ↦ true ]))
unfolding new_node
new_node_error_example =
    new_node_error network default_config (codes "failed to bootstrap DHT: no peers") refl

abbrev two_roots : Node
two_roots = record { gateway = none; root_cids = codes "a" ∷ codes "b" ∷ [] }

advertise_roots_lem_example :
    (n : ℕ) × (advertise_roots network two_roots
      ≡ map slept (upto n 0)
        ++ concat (map (λ c. provided c ∷ report c (network.provide c) ∷ []) two_roots.root_cids))
    × All (λ j. network.table_size j ≡ 0) (upto n 0)
    × ((n ≡ 30) ⊎ ((n < 30) × (0 < network.table_size n)))
advertise_roots_lem_example = advertise_roots_lem network two_roots

-- One wait, a root that is provided and one that is not.
two_roots_advertised :
    advertise_roots network two_roots
    ≡ slept 0
      ∷ provided (codes "a")
      ∷ advertised (codes "a")
      ∷ provided (codes "b")
      ∷ failed_to_provide (codes "b") (codes "no route")
      ∷ []
unfolding advertise_roots str_eq
two_roots_advertised = refl
