-- ===== src/Config/Saved.antt =====
-- What is loaded after a configuration was saved.
use ib.Prelude.{
  ◌≡◌, refl, sym, ◌∙◌, ap, Str, Bytes, codes, true, false, Option, none, some, Result, ok, is_empty,
  join_path, arith,
}
use ib.Config.{
  ClientConfig, ServerConfig, FileRead, not_exist, read_error, contents, Os, IsLawful, Session, dir,
  load_client, load_server, save, save_client, save_server, default_server_config, load_server,
  override, decode_client, server_from,
}

module _ (O : Os) where
  dir_once : (s : Session O) → ((dir O s).0.once ≡ true) × ((dir O s).0.config_dir ≡ (dir O s).1)
  unfolding dir
  dir_once s = ground arith

  dir_later : (s : Session O) → s.once ≡ true → dir O s ≡ (s, s.config_dir, none)
  unfolding dir
  dir_later s h = rw (h, dir) refl

  -- The first call of Dir reports an error, and every later one does not.
  pub dir_forgets :
      (s : Session O) {m : Str}
      → (dir O s).2 ≡ some m
      → dir O (dir O s).0 ≡ ((dir O s).0, (dir O s).1, none)
  dir_forgets s h = ground (arith, dir_once s, dir_later (dir O s).0)

  server_from_state : (r : FileRead) (s : Session O) → s.once ≡ true → (server_from O r s).0 ≡ s
  unfolding server_from default_server_config
  server_from_state not_exist s h = ap (λ (x : Session O × Str × Option Str). x.0) (dir_later s h)
  server_from_state (read_error m) s h = refl
  server_from_state (contents d) s h = refl

  server_path : Session O → Str
  unfolding join_path dir
  server_path s = join_path (dir O s).1 (codes "server.json")

  load_server_state : (s : Session O) → (load_server O s).0 ≡ (dir O s).0
  unfolding load_server server_path
  load_server_state s = ground (
    arith,
    dir_once s,
    server_from_state (O.read_file (server_path s) (dir O s).0.disk) (dir O s).0,
  )

  load_server_from :
      (s : Session O) (c : ServerConfig)
      → (load_server O s).1 ≡ ok c
      → dir O (dir O s).0 ≡ ((dir O s).0, (dir O s).1, none)
      → load_server O (dir O s).0 ≡ ((dir O s).0, ok c)
  unfolding load_server server_path
  load_server_from s c h later = ground (
    arith,
    later,
    dir_once s,
    server_from_state (O.read_file (server_path s) (dir O s).0.disk) (dir O s).0,
  )

  -- A second LoadServer gives what the first gave.
  pub load_server_again :
      (s : Session O) {c : ServerConfig}
      → (load_server O s).1 ≡ ok c
      → load_server O (load_server O s).0 ≡ ((load_server O s).0, ok c)
  load_server_again s {c = c} h =
      ap (load_server O) (load_server_state s)
      ∙ load_server_from s c h (ground (arith, dir_once s, dir_later (dir O s).0))
      ∙ ap (λ (x : Session O). (x, ok c)) (sym (load_server_state s))

  saved_state :
      (name : Str) (d : Bytes) (s : Session O)
      → (save O name (ok d) s).1 ≡ none
      → (save O name (ok d) s).0 ≡ record ((dir O s).0) {
        disk = (O.write_file (join_path (dir O s).1 name) d (dir O s).0.disk).0;
      }
        × ((O.write_file (join_path (dir O s).1 name) d (dir O s).0.disk).1 ≡ none)
  unfolding save
  saved_state name d s h = ground arith

module _ (O : Os) (L : IsLawful O) where
  -- What was saved under a name is there, and later calls see the same directory.
  save_lem :
      (name : Str) (d : Bytes) (s : Session O)
      → (save O name (ok d) s).1 ≡ none
      → let after : Session O = (save O name (ok d) s).0 in
        (dir O after ≡ (after, (dir O s).1, none))
        × (O.read_file (join_path (dir O s).1 name) after.disk ≡ contents d)
  save_lem name d s h =
      let (same, written) = saved_state O name d s h in
      let after : Session O = (save O name (ok d) s).0 in
      let (once, path) = dir_once O s in
      (
        dir_later O after (ap (λ (t : Session O). t.once) same ∙ once)
            ∙ ap (λ (p : Str). (after, p, none)) (ap (λ (t : Session O). t.config_dir) same ∙ path),
        ap (λ (t : Session O). O.read_file (join_path (dir O s).1 name) t.disk) same
            ∙ L.read-write (join_path (dir O s).1 name) d (dir O s).0.disk written,
      )

  -- LoadServer after a SaveServer that returns no error gives the saved configuration, with the
  -- variables of the environment that are set over it, if its JSON decodes to it.
  pub load_server-save_server :
      (c : ServerConfig) (d : Bytes) (s : Session O)
      → O.marshal_server c ≡ ok d
      → O.unmarshal_server d ≡ ok c
      → (save_server O c s).1 ≡ none
      → load_server O (save_server O c s).0 ≡ ((save_server O c s).0, ok (override O c))
  unfolding load_server save_server server_from
  load_server-save_server c d s out back h =
      let lem =
        save_lem (codes "server.json") d s
          (ap (λ (r : Result Bytes). (save O (codes "server.json") r s).1) (sym out) ∙ h) in
      rw (out, save_server) (ground (arith, lem, back))

  pub load_client-save_client :
      (c : ClientConfig) (d : Bytes) (s : Session O)
      → O.marshal_client c ≡ ok d
      → O.unmarshal_client d ≡ ok c
      → (save_client O c s).1 ≡ none
      → load_client O (save_client O c s).0 ≡ ((save_client O c s).0, ok c)
  unfolding load_client save_client decode_client
  load_client-save_client c d s out back h =
      let lem =
        save_lem (codes "config.json") d s
          (ap (λ (r : Result Bytes). (save O (codes "config.json") r s).1) (sym out) ∙ h) in
      rw (out, save_client) (ground (arith, lem, back))

module _ (O : Os) where
  pub override_full :
      (c : ServerConfig)
      → is_empty c.s3_bucket ≡ false
      → is_empty c.token ≡ false
      → (is_empty (override O c).s3_bucket ≡ false) × (is_empty (override O c).token ≡ false)
  unfolding override
  override_full c h k = ground (arith, h, k)
