-- ===== src/Tests/Restoring.antt =====
-- A restore of four sevens, which were compressed, and their way over a server.
use ib.Prelude.{
  ℕ, ◌≡◌, ◌↔◌, refl, inl, Str, Bytes, Dict, codes, [], ◌∷◌, ◌++◌, false, true, Option, none, some,
  Result, ok, concat, All, str_eq, lookup, if◌then◌else◌, arith,
}
use ib.Backup.Manifest.{symlink, Entry, Manifest}
use ib.Backup.Chunker.{ChunkResult}
use ib.Backup.Restore as Restore
use ib.Backup.Restore.{Call, download, restore}
use ib.Backup.Restore.Disk.{Disk, after_calls}
use ib.Backup.Restore.Contents.{restore_contents}
use ib.Backup.Restore.Original.{IsRaw, contents}
use ib.Storage.Tables.{empty_db}
use ib.Storage.Spec.Histories.{empty_shelf, empty-Represents}
use ib.Server.RateLimit.{is_blocked, new_rate_limiter}
use ib.Server.Api.{new_metrics}
use ib.Server.Routes.{Method, get_method, Host, Running, serve}
use ib.Session.{
  Line, auth_headers, exists_request, upload_request, download_request, push_blocks, pull_block,
}
use ib.Session.Requests.{IsRouted, IsAdmitted}
use ib.Session.Restored.{from_server, push_blocks-restore}
use ib.Tests.Fixtures.{
  memory, memory-IsLawful, calm, calm-IsHealthy, toy, toy-IsLawful, sevens, file_entry,
  manifest_with, plain_cids,
}

abbrev packed : ChunkResult
packed = record { cid = codes "cid-" ++ sevens; content = 7 ∷ []; original_size = 4 }

abbrev world : Restore.World
world = record { fetch = λ cid. ok (7 ∷ []); fault = λ c. none; first_error = λ m ms. m }

-- A link besides the file.
abbrev link_entry : Entry
link_entry = record (file_entry (codes "l") 0 []) { type = symlink; link_target = codes "a" }

abbrev one_file : Manifest
one_file = manifest_with (codes "m") (file_entry (codes "a") 4 (packed.cid ∷ []) ∷ link_entry ∷ [])

-- Another link was there before, and the file; a call that follows a link empties the file.
abbrev linked : Disk
linked = record { links = codes "out/k" ∷ []; content = some (1 ∷ []) }

abbrev elsewhere : Call → Disk → Disk
elsewhere c d = record d { content = some [] }

restore_contents_example :
    (after_calls elsewhere (codes "out/a") (restore world one_file (codes "out")).0 linked).content
    ≡ some (concat (download world (packed.cid ∷ [])).0)
unfolding restore Restore.restore_file ib.Prelude.join_path
restore_contents_example =
    restore_contents elsewhere world one_file (codes "out") [] (link_entry ∷ [])
      (file_entry (codes "a") 4 (packed.cid ∷ [])) linked refl refl refl (refl, tt)
      (refl, (refl, tt))

-- A server without blocks, whose router knows the requests for the one block.
abbrev find : Method → Str → Option (ℕ × Dict Str)
find get_method path = some (5, (codes "cid", packed.cid) ∷ [])
find _ path =
    if str_eq path (codes "/api/blocks")
    then some (13, [])
    else some (12, (codes "cid", packed.cid) ∷ [])

abbrev host : Host
host = record {
  codec = toy;
  formats = record { unmarshal = λ b. none; marshal = λ m. none; parse_int = λ s. 4 };
  cids = plain_cids;
  gin = record { find_route = λ m path routes. find m path; bind_json = λ b. none };
  net = record { split_host_port = λ s. none; canonical = λ s. some s };
  token = codes "secret";
  title = codes "ib";
  frontend_fs = λ p. none;
  client_binaries = λ p. none;
}

abbrev line : Str → Line
line token = record {
  client = record { base_url = codes "http://ib"; token = token };
  ip = codes "1.2.3.4";
  peer = record { is_done = λ n. false; header_fails = λ n. false };
  body_of = λ a. [];
}

abbrev running : Running memory
running = record {
  server = record {
    storage = record { db = empty_db true; objects = [] };
    metrics = new_metrics;
    root_cids = none;
  };
  limiter = new_rate_limiter 15;
}

packed-IsRouted : IsRouted host packed.cid
unfolding str_eq
packed-IsRouted = record { to_exists = refl; to_upload = refl; to_download = refl }

line-IsAdmitted : IsAdmitted memory host (line (codes "secret")) 5 running
unfolding is_blocked new_rate_limiter lookup
line-IsAdmitted = record { token = refl; full = refl; free = refl }

abbrev pushed : Running memory
pushed = (push_blocks memory host (line (codes "secret")) 5 calm (packed ∷ []) running).0

is_restored :
    (restore (from_server memory host (line []) 5 calm pushed world) one_file (codes "out")).1
    ≡ none
unfolding restore Restore.restore_file push_blocks pull_block serve exists_request upload_request
    download_request auth_headers str_eq lookup is_blocked new_rate_limiter
    ib.Server.RateLimit.get_real_ip ib.Server.Auth.strip_bearer ib.Prelude.insert
is_restored = refl

push_blocks-restore_example :
    let left =
      (after_calls elsewhere
        (codes "out/a")
        (restore (from_server memory host (line []) 5 calm pushed world) one_file (codes "out")).0
        linked).content in
    ((push_blocks memory host (line (codes "secret")) 5 calm (packed ∷ []) running).1
      ≡ ok (packed.cid ∷ []))
    × (left ≡ some (concat (contents (packed ∷ []))))
    × ((left ≡ some sevens) ↔ All IsRaw (packed ∷ []))
unfolding ib.Prelude.join_path ib.Backup.Chunker.chunk_data ib.Backup.Chunker.process_chunk str_eq
push_blocks-restore_example =
    push_blocks-restore memory memory-IsLawful (λ k d s. refl) host true 5 calm calm-IsHealthy toy
      toy-IsLawful sevens (packed ∷ []) (line (codes "secret")) (line []) running empty_shelf
      elsewhere world one_file (codes "out") [] (link_entry ∷ [])
      (file_entry (codes "a") 4 (packed.cid ∷ [])) linked refl (tt, tt)
      (empty-Represents memory true []) line-IsAdmitted
      ((packed-IsRouted, refl, refl, inl refl), tt) refl refl refl (refl, tt) (refl, (refl, tt))
      is_restored

-- An entry for a file with the path of a link is written over the link, to the file that it leads to.
link_is_followed :
    (after_calls elsewhere
      (codes "out/a")
      (restore world
        (manifest_with (codes "m") (
          file_entry (codes "a") 4 (packed.cid ∷ [])
          ∷ link_entry
          ∷ file_entry (codes "l") 0 []
          ∷ []))
        (codes "out")).0
      linked).content
    ≡ some []
unfolding restore Restore.restore_file ib.Prelude.join_path after_calls str_eq
link_is_followed = refl
