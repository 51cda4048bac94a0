-- ===== src/Command/Server.antt =====
-- cmd/server: token.go, init.go and serve.go.
pub mod Kept
use ib.Prelude.{
  hex, ℕ, ◌+◌, ◌/◌, ◌%◌, Str, Bytes, codes, List, [], ◌∷◌, ◌++◌, Bool, true, false, ◌||◌, ◌&&◌,
  Option, none, some, Result, ok, err, is_empty, str_eq, ltb, ◌==◌, decimal, trim_space, to_lower,
  if◌then◌else◌,
}
use ib.Config.{ServerConfig, Os, Session, load_server, save_server, default_server_config}

-- Of what rand.Read gives for 32 bytes.
unfoldable pub generate_token : Result Bytes → Result Str
unfolding hex
generate_token (err m) = err m
generate_token (ok b) = ok (hex b)

module _ (O : Os) (random : Result Bytes) where
  -- A configuration without a token gets one and is saved. The result is what is printed.
  show_token : ServerConfig → Session O → Session O × Result (List Str)
  unfolding generate_token save_server
  show_token cfg s =
      if is_empty cfg.token
      then elim (generate_token random) [
        | err m ↦ (s, err (codes "failed to generate token: " ++ m))
        | ok token ↦
            let (s1, failure) = save_server O (record cfg { token = token }) s in
            elim failure [
              | some m ↦ (s1, err (codes "failed to save config: " ++ m))
              | none ↦ (s1, ok (codes "Generated new token:" ∷ token ∷ []))
            ]
      ]
      else (s, ok (cfg.token ∷ []))

  unfoldable pub run_token_show : Session O → Session O × Result (List Str)
  unfolding load_server show_token
  run_token_show s =
      let (s1, r) = load_server O s in
      elim r [
        | err m ↦ (s1, err (codes "failed to load config: " ++ m))
        | ok cfg ↦ show_token cfg s1
      ]

-- The answer to a question: the line that is typed, or what stood there, or the default.
unfoldable pub prompt : Str → Str → Str → Str
unfolding trim_space
prompt line current default_val =
    let input = trim_space line in
    if is_empty input then if is_empty current then default_val else current else input

unfoldable pub prompt_secret : Str → Str → Str
unfolding trim_space
prompt_secret line current =
    let input = trim_space line in if is_empty input then current else input

unfoldable pub prompt_yes_no : Str → Bool → Bool
unfolding trim_space to_lower str_eq
prompt_yes_no line default_val =
    let input = trim_space (to_lower line) in
    if is_empty input then default_val else str_eq input (codes "y") || str_eq input (codes "yes")

-- What is typed at each question of the wizard, "" at the end of the input.
pub record Typed : Type 0 where
  pub endpoint : Str
  pub bucket : Str
  pub access_key : Str
  pub secret_key : Str
  pub region : Str
  pub listen_addr : Str
  pub db_path : Str
  pub retention : Str
  pub ipfs : Str
  pub gateway : Str
  pub regenerate : Str

module _ (O : Os) (random : Result Bytes) where
  -- The questions before the one for the token. The retention period is not negative.
  unfoldable pub ask : Typed → ServerConfig → ServerConfig
  unfolding prompt prompt_secret prompt_yes_no decimal
  ask t cfg =
      let ipfs = prompt_yes_no t.ipfs cfg.ipfs_enabled in
      record cfg {
        s3_endpoint = prompt t.endpoint cfg.s3_endpoint (codes "http://localhost:9000");
        s3_bucket = prompt t.bucket cfg.s3_bucket (codes "ib-backups");
        s3_access_key = prompt t.access_key cfg.s3_access_key [];
        s3_secret_key = prompt_secret t.secret_key cfg.s3_secret_key;
        s3_region = prompt t.region cfg.s3_region (codes "us-east-1");
        listen_addr = prompt t.listen_addr cfg.listen_addr (codes ":8080");
        db_path = prompt t.db_path cfg.db_path [];
        retention_days =
            elim (O.atoi (prompt t.retention (decimal cfg.retention_days) (codes "90"))) [
              | some days ↦ days
              | none ↦ cfg.retention_days
            ];
        ipfs_enabled = ipfs;
        ipfs_gateway_addr =
            if ipfs
            then prompt t.gateway cfg.ipfs_gateway_addr (codes ":8081")
            else cfg.ipfs_gateway_addr;
      }

  wants_token : Typed → ServerConfig → Bool
  unfolding prompt_yes_no
  wants_token t cfg = is_empty cfg.token || prompt_yes_no t.regenerate false

  unfoldable pub new_token : Typed → ServerConfig → Result ServerConfig
  unfolding wants_token generate_token
  new_token t cfg =
      if wants_token t cfg
      then elim (generate_token random) [
        | err m ↦ err (codes "failed to generate token: " ++ m)
        | ok token ↦ ok (record cfg { token = token })
      ]
      else ok cfg

  save_config : Result ServerConfig → Session O → Session O × Option Str
  unfolding save_server
  save_config (err m) s = (s, some m)
  save_config (ok cfg) s =
      let (s1, failure) = save_server O cfg s in
      elim failure [
        | some m ↦ (s1, some (codes "failed to save config: " ++ m))
        | none ↦ (s1, none)
      ]

  -- A configuration that cannot be loaded is replaced by the default.
  unfoldable pub start_config : Session O → Session O × ServerConfig
  unfolding load_server default_server_config
  start_config s =
      let (s1, r) = load_server O s in
      elim r [ ok cfg ↦ (s1, cfg) | err m ↦ default_server_config O s1 ]

  unfoldable pub run_init : Typed → Session O → Session O × Option Str
  unfolding start_config ask new_token save_config
  run_init t s = let (s1, cfg) = start_config s in save_config (new_token t (ask t cfg)) s1

-- The flags of serve, with their defaults "", 0 and "ib Backup".
pub record ServeFlags : Type 0 where
  pub listen : Str
  pub metrics_port : ℕ
  pub title : Str

-- What server.New and Run are called with.
pub record Started : Type 0 where
  pub cfg : ServerConfig
  pub metrics_port : ℕ
  pub title : Str

module _ (O : Os) where
  serve_title : ServeFlags → Str
  unfolding str_eq
  serve_title f =
      let v = O.getenv (codes "IB_TITLE") in
      if is_empty v then f.title else if str_eq f.title (codes "ib Backup") then v else f.title

  serve_port : ServeFlags → ℕ
  serve_port f =
      let v = O.getenv (codes "IB_METRICS_PORT") in
      if is_empty v
      then f.metrics_port
      else if f.metrics_port == 0
      then elim (O.atoi v) [ some port ↦ port | none ↦ f.metrics_port ]
      else f.metrics_port

  config_path : Str → Str
  config_path path = path ++ codes "/server.json"

  -- The flag --listen over the configuration.
  unfoldable pub started : ServeFlags → ServerConfig → Started
  unfolding serve_title serve_port
  started f c = record {
    cfg = record c { listen_addr = if is_empty f.listen then c.listen_addr else f.listen };
    metrics_port = serve_port f;
    title = serve_title f;
  }

  unfoldable pub run_serve : ServeFlags → Session O → Session O × Result Started
  unfolding load_server started config_path
  run_serve f s =
      let (s1, r) = load_server O s in
      elim r [
        | err m ↦ (s1, err (codes "failed to load config: " ++ m))
        | ok c ↦
            if is_empty c.s3_bucket
            then (
              s1,
              err (
                  codes "S3 bucket not configured. Run 'ib-server token show' and edit "
                  ++ config_path s1.config_dir),
            )
            else (s1, ok (started f c))
      ]
