-- ===== src/Tests/Running.antt =====
-- A server between requests, its pruning job, and the scan of a tree.
use ib.Prelude.{◌≡◌, ◌⊎◌, refl, codes, [], ◌∷◌, ◌++◌, false, none, some, ok, lookup, str_eq, arith}
use ib.Storage.Tables.{has_ref, ManifestRow}
use ib.Storage.Block.{get_block}
use ib.Server.RateLimit.{is_blocked, new_rate_limiter}
use ib.Server.Auth.{bearer}
use ib.Server.Api.{new_metrics}
use ib.Server.Routes.{delete_method, Http, Host, Running, serve}
use ib.Server.Routes.Guard.{SameContents, IsAuthorized, serve-IsAuthorized}
use ib.Server.Jobs.{run_pruner}
use ib.Server.Jobs.Retention.{run_pruner_keeps}
use ib.Backup.Scanner.{
  Info, Ignores, Tree, Forest, leaf, folder, empty, also, regular, directory, ScanResult, found,
  error_results, load_ignores, dir_entry, scan,
}
use ib.Backup.Scanner.Visible.{all_items, visible, scan-visible}
use ib.Backup.Manifest.{file}
use ib.Backup.Ignore.{missing, lines_of}
use ib.Backup.Scanner.Parents.{IsParentFirst, scan-IsParentFirst}
use ib.Tests.Fixtures.{memory, memory-IsLawful, calm, toy, store, plain_cids}

-- Every request is for the route that deletes the manifest "new".
abbrev host : Host
host = record {
  codec = toy;
  formats = record { unmarshal = λ b. none; marshal = λ m. none; parse_int = λ s. 0 };
  cids = plain_cids;
  gin = record {
    find_route = λ m path routes. some (11, (codes "id", codes "new") ∷ []);
    bind_json = λ b. none;
  };
  net = record { split_host_port = λ s. none; canonical = λ s. some s };
  token = codes "secret";
  title = codes "ib";
  frontend_fs = λ p. none;
  client_binaries = λ p. none;
}

abbrev removal : Http
removal = record {
  method = delete_method;
  path = codes "/api/manifests/new";
  query = [];
  request = record {
    headers = (codes "Authorization", codes "Bearer secret") ∷ [];
    client_ip = codes "1.2.3.4";
  };
  body = none;
  peer = record { is_done = λ n. false; header_fails = λ n. false };
}

abbrev running : Running memory
running = record {
  server = record { storage = store; metrics = new_metrics; root_cids = none };
  limiter = new_rate_limiter 15;
}

serve-IsAuthorized_example :
    SameContents memory host running (serve memory host 5 calm removal running).0
    ⊎ IsAuthorized memory host 5 removal running
serve-IsAuthorized_example = serve-IsAuthorized memory host 5 calm removal running

removed :
    lookup (codes "new") (serve memory host 5 calm removal running).0.server.storage.db.manifests
    ≡ none
unfolding serve lookup is_blocked new_rate_limiter ib.Server.Auth.strip_bearer
removed = refl

abbrev new_row : ManifestRow
new_row = record { tags = (codes "host", codes "a") ∷ []; created_at = 90; row_data = 9 ∷ [] }

run_pruner_keeps_example :
    (lookup (codes "new") (run_pruner memory 1 (calm ∷ calm ∷ []) store).db.manifests
      ≡ some new_row)
    × (get_block memory calm (codes "cid-new") (run_pruner memory 1 (calm ∷ calm ∷ []) store)
        ≡ get_block memory calm (codes "cid-new") store)
unfolding lookup str_eq has_ref
run_pruner_keeps_example =
    run_pruner_keeps memory memory-IsLawful (codes "new") (codes "cid-new") new_row 1
      (calm ∷ calm ∷ []) calm store (omega arith, (omega arith, tt)) refl refl

abbrev info : Info
info = record { perm = 420; mtime = 5; size = 3 }

abbrev no_ignores : Ignores
no_ignores = record { git_file = missing; ib_file = missing }

abbrev some_ignores : Ignores
some_ignores = record {
  git_file = lines_of (codes "build/" ∷ []) none;
  ib_file = lines_of (codes "*.log" ∷ []) none;
}

abbrev tree : Forest
tree = also (leaf (codes "a.log") (ok info) regular) (
    also
      (folder (codes "build") (ok info) no_ignores none
        (also (leaf (codes "x") (ok info) regular) empty))
      (also (leaf (codes "c") (ok info) regular) empty))

scan-visible_example :
    scan (directory some_ignores none tree)
    ≡ error_results none ++ visible (load_ignores some_ignores []) (all_items [] [] tree)
unfolding ib.Backup.Scanner.Visible.IsPlain
scan-visible_example = scan-visible some_ignores none tree (tt, ((refl, refl, (tt, tt)), (tt, tt)))

scan-IsParentFirst_example : IsParentFirst [] (scan (directory some_ignores none tree))
unfolding ib.Backup.Scanner.Parents.IsReadable
scan-IsParentFirst_example =
    scan-IsParentFirst (directory some_ignores none tree)
      ((refl, refl), (((refl, refl), ((refl, refl), tt)), ((refl, refl), tt)))

only_c :
    scan (directory some_ignores none tree)
    ≡ found (record (dir_entry (codes "c") info) { type = file; size = 3 }) ∷ []
unfolding scan ib.Backup.Ignore.parse_line ib.Backup.Ignore.match_pattern
    ib.Backup.Ignore.match_glob
only_c = refl

-- The patterns of one directory are used for its siblings too.
abbrev siblings : Forest
siblings =
    also
      (folder (codes "a") (ok info)
        (record { git_file = lines_of (codes "x" ∷ []) none; ib_file = missing }) none empty)
      (also (leaf (codes "x") (ok info) regular) empty)

x_is_lost : scan (directory no_ignores none siblings) ≡ found (dir_entry (codes "a") info) ∷ []
unfolding scan ib.Backup.Ignore.parse_line ib.Backup.Ignore.match_pattern
    ib.Backup.Ignore.match_glob
x_is_lost = refl
