-- ===== src/Tests/Serving.antt =====
-- The server.
use ib.Prelude.{
  ℕ, ◌+◌, ◌*◌, ◌≡◌, ◌≢◌, ◌<◌, ◌⊎◌, refl, Str, Bytes, codes, List, [], ◌∷◌, ◌++◌, Bool, true, false,
  Option, none, some, Result, ok, err, length, concat, lookup, is_empty, str_eq, str_eq_iff,
  trim_space, Bool-cases, inl, inr, ltb, leb, base, arith, if◌then◌else◌,
}
use ib.Backup.Manifest.{dir, Entry, Manifest}
use ib.Backup.Chunker.{ChunkResult, process_chunk, chunk_data}
use ib.Storage.Block.{get_block}
use ib.Server.RateLimit.{RateLimiter, Net, Request, is_blocked, cleanup, get_real_ip, get_header}
use ib.Server.RateLimit.Window.{is_blocked-cleanup}
use ib.Server.Auth.{next, strip_bearer, auth_middleware}
use ib.Server.Auth.Access.{auth_middleware_blocks}
use ib.Server.Api.{
  Formats, Server, new_metrics, read_manifest, compress_data, manifest_reply, handle_get_manifest,
  handle_create_manifest, handle_upload_block,
}
use ib.Server.Api.Facts.{read_manifest-compress_data, handle_get_manifest-handle_create_manifest}
use ib.Server.Archive.{
  TarCall, Peer, tar_stream, file_stream, parse_format, folder_entries, handle_download,
  handle_download_file, handle_download_folder,
}
use ib.Server.Archive.Reader.{unpacked_dir, unpacked_file, name_below, unpack, unpacked_entries}
use ib.Server.Archive.Unpacked.{IsKept, handle_download-unpack, handle_download_folder-unpack}
use ib.Server.Archive.Contents.{handle_download_file-chunk_data}
use ib.Tests.Fixtures.{
  memory, calm, toy, toy-IsLawful, sevens, store, file_entry, manifest_with, plain_cids,
}

-- The host in front of the first colon is not looked for; every address is canonical.
abbrev net : Net
net = record { split_host_port = λ s. none; canonical = λ s. some s }

abbrev token : Str
token = codes "secret"

abbrev request : Str → Request
request header = record {
  headers = (codes "Authorization", header) ∷ [];
  client_ip = codes "1.2.3.4";
}

abbrev limiter : RateLimiter
limiter = record { blocked_ips = (codes "9.9.9.9", 500) ∷ []; block_period = 100 }

is_blocked-cleanup_example :
    is_blocked 600 (codes "9.9.9.9") (cleanup 550 limiter)
    ≡ is_blocked 600 (codes "9.9.9.9") limiter
unfolding lookup
is_blocked-cleanup_example =
    is_blocked-cleanup 550 600 (codes "9.9.9.9") limiter (refl, tt) (omega arith)

guess_refused : (auth_middleware net token 5 (request (codes "guess")) limiter).1 ≢ next
unfolding auth_middleware is_blocked lookup str_eq get_real_ip trim_space strip_bearer get_header
guess_refused h = absurd (ground (arith, h))

auth_middleware_blocks_example :
    is_blocked 50
      (codes "1.2.3.4")
      (auth_middleware net token 5 (request (codes "guess")) limiter).0
    ≡ (if str_eq (codes "1.2.3.4") (get_real_ip net (request (codes "guess")))
        then ltb 50 (5 + 100)
        else is_blocked 50 (codes "1.2.3.4") limiter)
unfolding auth_middleware is_blocked lookup str_eq get_real_ip trim_space
auth_middleware_blocks_example =
    auth_middleware_blocks net token 5 (request (codes "guess")) limiter 50 (codes "1.2.3.4") refl
      guess_refused

-- Every text is the JSON of one manifest, that of a backup with one file.
abbrev one_file : Manifest
one_file = manifest_with (codes "m") (file_entry (codes "f") 4 ((codes "cid-" ++ sevens) ∷ []) ∷ [])

abbrev formats : Formats
formats = record {
  unmarshal = λ content. some one_file;
  marshal = λ m. some sevens;
  parse_int = λ text. 0;
}

abbrev server : Server memory
server = record { storage = store; metrics = new_metrics; root_cids = none }

read_manifest-compress_data_example :
    read_manifest toy formats (compress_data toy sevens)
    ≡ formats.unmarshal (if leb (length sevens) (1 * 10) then sevens else 7 ∷ [])
unfolding str_eq
read_manifest-compress_data_example =
    read_manifest-compress_data toy toy-IsLawful formats sevens (7 ∷ []) refl refl (omega arith)

handle_get_manifest-handle_create_manifest_example :
    (m : Manifest) × (content : Bytes) × (m.id ≡ codes "m")
    × (m.root_cid ≡ codes "node")
    × (formats.marshal m ≡ some content)
    × (handle_get_manifest memory toy formats calm
          (codes "m")
          (handle_create_manifest memory toy formats plain_cids calm (some one_file) server).0
        ≡ manifest_reply memory toy formats (compress_data toy content))
unfolding handle_create_manifest lookup
handle_get_manifest-handle_create_manifest_example =
    handle_get_manifest-handle_create_manifest memory toy formats plain_cids calm calm one_file
      (codes "m") (codes "node") server refl refl

abbrev with_sevens : Server memory
with_sevens =
    (handle_upload_block memory formats calm (codes "cid-" ++ sevens) (codes "4") (some (7 ∷ []))
      server).0

abbrev sevens_result : ChunkResult
sevens_result = record { cid = codes "cid-" ++ sevens; content = 7 ∷ []; original_size = 4 }

abbrev patient : Peer
patient = record { is_done = λ i. false; header_fails = λ name. false }

handle_download_file-chunk_data_example :
    (writes : List Bytes) × ((handle_download_file memory toy formats calm patient
        (codes "old")
        (codes "/f")
        with_sevens).1
      ≡ file_stream (base (codes "f")) (length (concat writes)) true writes)
    × (concat writes ≡ sevens)
unfolding chunk_data process_chunk ib.Storage.ManifestStore.get_manifest lookup handle_upload_block
    str_eq read_manifest ib.Backup.Manifest.find_entry get_block ib.Prelude.insert
handle_download_file-chunk_data_example =
    handle_download_file-chunk_data memory toy toy-IsLawful formats calm patient (codes "old")
      (codes "f") with_sevens (8 ∷ []) sevens one_file
      (file_entry (codes "f") 4 ((codes "cid-" ++ sevens) ∷ [])) (sevens_result ∷ []) (λ i. refl)
      refl refl refl refl refl refl refl (inl (omega arith), tt) (refl, tt)

-- A directory and a file in it.
abbrev folder_entry : Entry
folder_entry = record (file_entry (codes "d") 0 []) { type = dir }

abbrev inner_entry : Entry
inner_entry = file_entry (codes "d/f") 4 ((codes "cid-" ++ sevens) ∷ [])

abbrev one_folder : Manifest
one_folder = manifest_with (codes "m") (folder_entry ∷ inner_entry ∷ [])

abbrev folder_formats : Formats
folder_formats = record formats { unmarshal = λ content. some one_folder }

folder_entry-IsKept : IsKept memory toy calm (λ path. sevens) with_sevens.storage folder_entry
folder_entry-IsKept h = absurd (ground (arith, h))

inner_entry-IsKept : IsKept memory toy calm (λ path. sevens) with_sevens.storage inner_entry
unfolding chunk_data process_chunk lookup handle_upload_block str_eq get_block ib.Prelude.insert
inner_entry-IsKept h = (sevens_result ∷ [], refl, refl, refl, (inl (omega arith), tt), (refl, tt))

handle_download-unpack_example :
    (calls : List TarCall) × (handle_download memory toy folder_formats calm patient
        (codes "old.tar.gz")
        with_sevens.storage
      ≡ tar_stream (codes "old" ++ codes ".tar.gz") calls)
    × (unpack calls
        ≡ some (unpacked_entries (λ path. sevens) (λ path. some path) one_folder.entries))
unfolding ib.Storage.ManifestStore.get_manifest lookup str_eq read_manifest parse_format
    handle_upload_block
handle_download-unpack_example =
    handle_download-unpack memory toy toy-IsLawful folder_formats calm (λ path. sevens) patient
      (codes "old.tar.gz") (codes "old") with_sevens.storage (8 ∷ []) one_folder (λ i. refl) refl
      refl refl (folder_entry-IsKept, (inner_entry-IsKept, tt))

handle_download_folder-unpack_example :
    (calls : List TarCall) × (handle_download_folder memory toy folder_formats calm patient
        (codes "old")
        (codes "/d.tar.gz")
        with_sevens.storage
      ≡ tar_stream (base (codes "d") ++ codes ".tar.gz") calls)
    × (unpack calls
        ≡ some (unpacked_entries (λ path. sevens) (name_below (codes "d")) one_folder.entries))
unfolding ib.Storage.ManifestStore.get_manifest lookup str_eq read_manifest parse_format
    folder_entries handle_upload_block
handle_download_folder-unpack_example =
    handle_download_folder-unpack memory toy toy-IsLawful folder_formats calm (λ path. sevens)
      patient (codes "old") (codes "d.tar.gz") (codes "d") with_sevens.storage (8 ∷ []) one_folder
      (λ i. refl) refl refl refl refl refl (folder_entry-IsKept, (inner_entry-IsKept, tt))

-- The folder is named `d/` in the archive, and the file in it `f`.
folder_unpacks :
    unpacked_entries (λ path. sevens) (name_below (codes "d")) one_folder.entries
    ≡ unpacked_dir (codes "d/") 420 ∷ unpacked_file (codes "f") 420 sevens ∷ []
unfolding unpacked_entries name_below base
folder_unpacks = refl
