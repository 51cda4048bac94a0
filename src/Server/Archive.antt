-- ===== src/Server/Archive.antt =====
-- The downloads of internal/server/api.go: handleDownload, handleDownloadFile, handleDownloadFolder,
-- streamTarGz and streamZip. What is written to an archive is the sequence of calls of its writer.
pub mod Contents
pub mod Reader
pub mod Unpacked
use ib.Prelude.{
  ℕ, suc, ◌+◌, Str, Bytes, codes, List, [], ◌∷◌, ◌++◌, Bool, true, false, ◌||◌, ◌&&◌, not, Option,
  none, some, Result, ok, err, filter, str_eq, is_empty, has_prefix, has_suffix, trim_prefix,
  trim_suffix, base, map, if◌then◌else◌,
}
use ib.Backup.Manifest.{FileType, file, dir, symlink, other, Entry, Manifest, find_entry}
use ib.Backup.Codec.{Codec}
use ib.Backup.Chunker.{chunk_size}
use ib.Storage.Object.{S3}
use ib.Storage.Tables.{Env, Store}
use ib.Storage.Block.{get_block}
use ib.Storage.ManifestStore.{get_manifest}
use ib.Ipfs.Blockstore.{decompress_or_raw}
use ib.Server.Api.{Formats, Server, Metrics, read_manifest}

-- The calls of a tar.Writer. The header of a file states the size of the manifest.
pub data TarCall : Type 0 where
  tar_dir : Str → ℕ → TarCall
  tar_symlink : Str → ℕ → Str → TarCall
  tar_file : Str → ℕ → ℕ → TarCall
  tar_write : Bytes → TarCall

-- The calls of a zip.Writer, and of the writer of an entry.
pub data ZipCall : Type 0 where
  zip_create : Str → ZipCall
  zip_create_header : Str → ZipCall
  zip_write : Bytes → ZipCall

pub data Format : Type 0 where
  tar_gz zip : Format

-- What a download sends: an error, or an archive with its name, or one file with its size, and
-- whether the loop over its blocks came to its end.
pub data Download : Type 0 where
  refused : ℕ → Str → Download
  tar_stream : Str → List TarCall → Download
  zip_stream : Str → List ZipCall → Download
  file_stream : Str → ℕ → Bool → List Bytes → Download

-- The client's side of a response: the rounds of a loop, from the first, before which the context
-- is done; and the names for which zip's CreateHeader fails.
pub record Peer : Type 0 where
  pub is_done : ℕ → Bool
  pub header_fails : Str → Bool

-- The path in the archive, below the folder to strip.
unfoldable pub entry_path : Str → Str → Str
unfolding str_eq trim_prefix base
entry_path path strip_prefix =
    if is_empty strip_prefix
    then path
    else if str_eq path strip_prefix
    then base path
    else trim_prefix path (strip_prefix ++ codes "/")

module _ (S : S3) (C : Codec) (e : Env) where
  -- The data of a file, block by block. A block that cannot be read is skipped.
  unfoldable pub block_writes : List Str → Store S → List Bytes
  unfolding decompress_or_raw get_block
  block_writes [] s = []
  block_writes (cid ∷ cids) s =
      let rest = block_writes cids s in
      elim (get_block S e cid s) [
        | err m ↦ rest
        | ok content ↦ decompress_or_raw C content chunk_size ∷ rest
      ]

  unfoldable pub tar_entry : FileType → Entry → Str → Store S → List TarCall
  unfolding block_writes
  tar_entry file x path s = tar_file path x.mode x.size ∷ map tar_write (block_writes x.blocks s)
  tar_entry dir x path s = tar_dir (path ++ codes "/") x.mode ∷ []
  tar_entry symlink x path s = tar_symlink path x.mode x.link_target ∷ []
  tar_entry (other t) x path s = []

  unfoldable pub stream_tar_gz : Peer → ℕ → List Entry → Str → Store S → List TarCall
  unfolding tar_entry entry_path
  stream_tar_gz p i [] strip_prefix s = []
  stream_tar_gz p i (x ∷ xs) strip_prefix s =
      let rest = stream_tar_gz p (i + 1) xs strip_prefix s in
      if p.is_done i then [] else tar_entry x.type x (entry_path x.path strip_prefix) s ++ rest

  zip_entry : Peer → FileType → Entry → Str → Store S → List ZipCall
  unfolding block_writes
  zip_entry p file x path s =
      if p.header_fails path
      then zip_create_header path ∷ []
      else zip_create_header path ∷ map zip_write (block_writes x.blocks s)
  zip_entry p dir x path s = zip_create (path ++ codes "/") ∷ []
  zip_entry p symlink x path s =
      zip_create (path ++ codes ".symlink") ∷ zip_write x.link_target ∷ []
  zip_entry p (other t) x path s = []

  unfoldable pub stream_zip : Peer → ℕ → List Entry → Str → Store S → List ZipCall
  unfolding zip_entry entry_path
  stream_zip p i [] strip_prefix s = []
  stream_zip p i (x ∷ xs) strip_prefix s =
      let rest = stream_zip p (i + 1) xs strip_prefix s in
      if p.is_done i then [] else zip_entry p x.type x (entry_path x.path strip_prefix) s ++ rest

  -- The end of handleDownload and of handleDownloadFolder.
  unfoldable pub stream : Peer → Format → Str → List Entry → Str → Store S → Download
  unfolding stream_tar_gz stream_zip
  stream p zip name xs strip_prefix s =
      zip_stream (name ++ codes ".zip") (stream_zip p 0 xs strip_prefix s)
  stream p tar_gz name xs strip_prefix s =
      tar_stream (name ++ codes ".tar.gz") (stream_tar_gz p 0 xs strip_prefix s)

-- The name without its extension, with the format.
unfoldable pub parse_format : Str → Format × Str
unfolding has_suffix trim_suffix
parse_format name =
    if has_suffix name (codes ".zip")
    then (zip, trim_suffix name (codes ".zip"))
    else (tar_gz, trim_suffix name (codes ".tar.gz"))

module _ (S : S3) (C : Codec) (F : Formats) (e : Env) where
  -- The manifest of a download, or the answer.
  unfoldable pub load_manifest : Str → Store S → (Manifest → Download) → Download
  unfolding get_manifest read_manifest
  load_manifest id s use_it = elim (get_manifest S e id s) [
    | err m ↦ refused 404 (codes "manifest not found")
    | ok content ↦ elim (read_manifest C F content) [
      | none ↦ refused 500 (codes "failed to parse manifest")
      | some m ↦ use_it m
    ]
  ]

  unfoldable pub handle_download : Peer → Str → Store S → Download
  unfolding parse_format load_manifest stream
  handle_download p name s =
      let (format, id) = parse_format name in
      load_manifest id s (λ m. stream S C e p format id m.entries [] s)

  -- The loop of handleDownloadFile, which looks at the context before each block.
  file_loop : Peer → ℕ → List Str → Store S → List Bytes
  unfolding block_writes
  file_loop p i [] s = []
  file_loop p i (cid ∷ cids) s =
      let rest = file_loop p (i + 1) cids s in
      if p.is_done i then [] else block_writes S C e (cid ∷ []) s ++ rest

  is_whole : Peer → ℕ → List Str → Bool
  is_whole p i [] = true
  is_whole p i (cid ∷ cids) = not (p.is_done i) && is_whole p (i + 1) cids

  file_download : Peer → Str → Store S → FileType → Entry → Download
  unfolding base file_loop is_whole
  file_download p path s file x =
      file_stream (base path) x.size (is_whole p 0 x.blocks) (file_loop p 0 x.blocks s)
  file_download p path s _ x = refused 400 (codes "path is not a file")

  file_of_manifest : Peer → Str → Str → Store S → Download
  unfolding load_manifest find_entry file_download
  file_of_manifest p id path s = load_manifest id s (λ m. elim (find_entry m path) [
    | none ↦ refused 404 (codes "file not found in backup")
    | some x ↦ file_download p path s x.type x
  ])

  -- A loop that was cut short returns before the counter.
  count_download : Download → Metrics → Metrics
  count_download (file_stream name size true writes) m = record m {
    bandwidth_download = m.bandwidth_download + size;
  }
  count_download _ m = m

  unfoldable pub handle_download_file : Peer → Str → Str → Server S → Server S × Download
  unfolding trim_prefix file_of_manifest count_download
  handle_download_file p id param s =
      let d = file_of_manifest p id (trim_prefix param (codes "/")) s.storage in
      (record s { metrics = count_download d s.metrics }, d)

  unfoldable pub folder_entries : Str → List Entry → List Entry
  unfolding str_eq has_prefix
  folder_entries folder =
      filter λ x. str_eq x.path folder || has_prefix x.path (folder ++ codes "/")

  unfoldable pub handle_download_folder : Peer → Str → Str → Store S → Download
  unfolding trim_prefix parse_format load_manifest folder_entries stream base
  handle_download_folder p id param s =
      let (format, folder) = parse_format (trim_prefix param (codes "/")) in
      load_manifest id s (λ m.
        let xs = folder_entries folder m.entries in
        if is_empty xs
        then refused 404 (codes "folder not found in backup")
        else stream S C e p format (base folder) xs folder s)
