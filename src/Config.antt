-- ===== src/Config.antt =====
-- internal/config/config.go: the configuration files, and the environment that overrides them.
pub mod Saved
use ib.Prelude.{
  ℕ, Str, Bytes, codes, List, [], ◌∷◌, Bool, true, false, ◌||◌, Option, none, some, Result, ok, err,
  ◌≡◌, is_empty, str_eq, join_path, if◌then◌else◌,
}

pub record ClientConfig : Type 0 where
  pub server_url : Str
  pub token : Str

-- `retention_days` is an int by its bit pattern.
pub record ServerConfig : Type 0 where
  pub token : Str
  pub db_path : Str
  pub listen_addr : Str
  pub retention_days : ℕ
  pub s3_endpoint : Str
  pub s3_bucket : Str
  pub s3_access_key : Str
  pub s3_secret_key : Str
  pub s3_region : Str
  pub ipfs_enabled : Bool
  pub ipfs_listen_addrs : List Str
  pub ipfs_gateway_addr : Str
  pub ipfs_public_ip : Str

abbrev pub empty_client : ClientConfig
empty_client = record { server_url = []; token = [] }

-- os.ReadFile: a file that is not there, another error, or the bytes.
pub data FileRead : Type 0 where
  not_exist : FileRead
  read_error : Str → FileRead
  contents : Bytes → FileRead

-- The packages os, strconv and encoding/json, by what the configuration calls.
pub record Os : Type 1 where
  pub State : Type 0
  pub user_config_dir : Result Str
  pub mkdir_all : Str → State → State × Option Str
  pub read_file : Str → State → FileRead
  pub write_file : Str → Bytes → State → State × Option Str
  pub getenv : Str → Str
  pub atoi : Str → Option ℕ
  pub marshal_client : ClientConfig → Result Bytes
  pub unmarshal_client : Bytes → Result ClientConfig
  pub marshal_server : ServerConfig → Result Bytes
  pub unmarshal_server : Bytes → Result ServerConfig

-- A file that is written without an error is read back.
pub record IsLawful (O : Os) : Type 0 where
  pub read-write :
      (path : Str) (d : Bytes) (s : O.State)
      → (O.write_file path d s).1 ≡ none
      → O.read_file path (O.write_file path d s).0 ≡ contents d

-- A process: the files, whether configOnce has run, and configDir.
pub record Session (O : Os) : Type 0 where
  pub disk : O.State
  pub once : Bool
  pub config_dir : Str

-- A variable that is not set is "".
abbrev pub env_or : Str → Str → Str
env_or v old = if is_empty v then old else v

module _ (O : Os) where
  -- The path and the error, which only the first call has.
  unfoldable pub dir : Session O → Session O × Str × Option Str
  unfolding join_path
  dir s = if s.once then (s, s.config_dir, none) else elim O.user_config_dir [
    | err m ↦ (record { disk = s.disk; once = true; config_dir = [] }, [], some m)
    | ok home ↦
        let path = join_path home (codes "ib") in
        let (disk, failure) = O.mkdir_all path s.disk in
        (record { disk = disk; once = true; config_dir = path }, path, failure)
  ]

  unfoldable pub default_server_config : Session O → Session O × ServerConfig
  unfolding dir join_path
  default_server_config s =
      let (s1, path, failure) = dir s in
      (
        s1,
        record {
          token = [];
          db_path = join_path path (codes "ib.db");
          listen_addr = codes ":8080";
          retention_days = 90;
          s3_endpoint = [];
          s3_bucket = [];
          s3_access_key = [];
          s3_secret_key = [];
          s3_region = codes "us-east-1";
          ipfs_enabled = false;
          ipfs_listen_addrs = [];
          ipfs_gateway_addr = [];
          ipfs_public_ip = [];
        },
      )

  decode_client : FileRead → Result ClientConfig
  decode_client not_exist = ok empty_client
  decode_client (read_error m) = err m
  decode_client (contents d) = O.unmarshal_client d

  unfoldable pub load_client : Session O → Session O × Result ClientConfig
  unfolding dir join_path decode_client
  load_client s =
      let (s1, path, failure) = dir s in
      elim failure [
        | some m ↦ (s1, err m)
        | none ↦ (s1, decode_client (O.read_file (join_path path (codes "config.json")) s1.disk))
      ]

  -- The writing of `name` in the directory, for both kinds of configuration.
  save : Str → Result Bytes → Session O → Session O × Option Str
  unfolding dir join_path
  save name encoded s =
      let (s1, path, failure) = dir s in
      elim failure [
        | some m ↦ (s1, some m)
        | none ↦ elim encoded [
          | err m ↦ (s1, some m)
          | ok d ↦
              let (disk, failed) = O.write_file (join_path path name) d s1.disk in
              (record s1 { disk = disk }, failed)
        ]
      ]

  unfoldable pub save_client : ClientConfig → Session O → Session O × Option Str
  unfolding save
  save_client c s = save (codes "config.json") (O.marshal_client c) s

  unfoldable pub save_server : ServerConfig → Session O → Session O × Option Str
  unfolding save
  save_server c s = save (codes "server.json") (O.marshal_server c) s

  override_days : ServerConfig → ℕ
  override_days c =
      if is_empty (O.getenv (codes "IB_RETENTION_DAYS"))
      then c.retention_days
      else elim (O.atoi (O.getenv (codes "IB_RETENTION_DAYS"))) [
        | some days ↦ days
        | none ↦ c.retention_days
      ]

  override_ipfs : ServerConfig → Bool
  unfolding str_eq
  override_ipfs c =
      let v = O.getenv (codes "IB_IPFS_ENABLED") in
      if is_empty v then c.ipfs_enabled else str_eq v (codes "true") || str_eq v (codes "1")

  -- The variables of the environment that are not empty, over the file.
  unfoldable pub override : ServerConfig → ServerConfig
  unfolding override_days override_ipfs
  override c = record {
    token = env_or (O.getenv (codes "IB_TOKEN")) c.token;
    db_path = env_or (O.getenv (codes "IB_DB_PATH")) c.db_path;
    listen_addr = env_or (O.getenv (codes "IB_LISTEN_ADDR")) c.listen_addr;
    retention_days = override_days c;
    s3_endpoint = env_or (O.getenv (codes "IB_S3_ENDPOINT")) c.s3_endpoint;
    s3_bucket = env_or (O.getenv (codes "IB_S3_BUCKET")) c.s3_bucket;
    s3_access_key = env_or (O.getenv (codes "IB_S3_ACCESS_KEY")) c.s3_access_key;
    s3_secret_key = env_or (O.getenv (codes "IB_S3_SECRET_KEY")) c.s3_secret_key;
    s3_region = env_or (O.getenv (codes "IB_S3_REGION")) c.s3_region;
    ipfs_enabled = override_ipfs c;
    ipfs_listen_addrs = c.ipfs_listen_addrs;
    ipfs_gateway_addr = env_or (O.getenv (codes "IB_IPFS_GATEWAY_ADDR")) c.ipfs_gateway_addr;
    ipfs_public_ip = env_or (O.getenv (codes "IB_IPFS_PUBLIC_IP")) c.ipfs_public_ip;
  }

  server_from : FileRead → Session O → Session O × Result ServerConfig
  unfolding default_server_config
  server_from not_exist s = let (s1, c) = default_server_config s in (s1, ok c)
  server_from (read_error m) s = (s, err m)
  server_from (contents d) s = (s, O.unmarshal_server d)

  unfoldable pub load_server : Session O → Session O × Result ServerConfig
  unfolding dir join_path server_from override
  load_server s =
      let (s1, path, failure) = dir s in
      elim failure [
        | some m ↦ (s1, err m)
        | none ↦
            let (s2, r) =
              server_from (O.read_file (join_path path (codes "server.json")) s1.disk) s1 in
            elim r [ err m ↦ (s2, err m) | ok c ↦ (s2, ok (override c)) ]
      ]
