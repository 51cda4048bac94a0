-- ===== src/Server/Archive/Unpacked.antt =====
-- What a tar archive that a download sends unpacks to.
use ib.Prelude.{
  ℕ, ◌+◌, ◌≡◌, refl, ◌∙◌, ap, Str, Bytes, codes, List, [], ◌∷◌, ◌++◌, append-nil, false, some, ok,
  All, concat, length, map, is_empty, trim_prefix, base, arith,
}
use ib.Backup.Manifest.{FileType, file, dir, symlink, other, Entry, Manifest}
use ib.Backup.Codec as Codec
use ib.Backup.Codec.{Codec}
use ib.Backup.Chunker.{ChunkResult, chunk_data}
use ib.Storage.Object.{S3}
use ib.Storage.Tables.{Env, Store}
use ib.Storage.Block.{get_block}
use ib.Storage.ManifestStore.{get_manifest}
use ib.Server.Api.{Formats, read_manifest}
use ib.Server.Archive.{
  TarCall, tar_write, tar_gz, tar_stream, Peer, entry_path, block_writes, tar_entry, stream_tar_gz,
  stream, parse_format, load_manifest, handle_download, folder_entries, handle_download_folder,
}
use ib.Server.Archive.Contents.{IsTold, block_writes-chunk_data}
use ib.Server.Archive.Reader.{
  Unpacked, leading_writes, unpack, unpacked_entry, unpacked_entries, name_below,
  leading_writes-append, unpack-append, unpacked_entries-filter,
}

-- If an entry is a file, it has the length of its contents as its size, and the blocks that
-- ChunkData made of them; all of these can be read, and are stored shorter or are refused by LZ4.
abbrev pub IsKept : (S : S3) → Codec → Env → (Str → Bytes) → Store S → Entry → Type 0
IsKept S C e contents s x =
    x.type ≡ file
    → (rs : List ChunkResult) × (chunk_data C (contents x.path) ≡ ok rs)
      × (x.size ≡ length (contents x.path))
      × (x.blocks ≡ map (λ r. r.cid) rs)
      × All (IsTold C) rs
      × All (λ r. get_block S e r.cid s ≡ ok r.content) rs

module _ (S : S3) (C : Codec) (L : Codec.IsLawful C) (e : Env) (contents : Str → Bytes) where
  leading_writes-tar_entry :
      (t : FileType) (x : Entry) (path : Str) (s : Store S) (cs : List TarCall)
      → leading_writes cs ≡ []
      → leading_writes (tar_entry S C e t x path s ++ cs) ≡ []
  unfolding leading_writes tar_entry
  leading_writes-tar_entry file x path s cs h = refl
  leading_writes-tar_entry dir x path s cs h = refl
  leading_writes-tar_entry symlink x path s cs h = refl
  leading_writes-tar_entry (other t) x path s cs h = h

  unpack-tar_entry :
      (t : FileType) (x : Entry) (path : Str) (s : Store S) (cs : List TarCall) (us : List Unpacked)
      → x.type ≡ t
      → IsKept S C e contents s x
      → leading_writes cs ≡ []
      → unpack cs ≡ some us
      → unpack (tar_entry S C e t x path s ++ cs) ≡ some (unpacked_entry contents t x path ++ us)
  unfolding leading_writes unpack tar_entry unpacked_entry
  unpack-tar_entry dir x path s cs us is kept h u = ground (arith, h, u)
  unpack-tar_entry symlink x path s cs us is kept h u = ground (arith, h, u)
  unpack-tar_entry (other t) x path s cs us is kept h u = u
  unpack-tar_entry file x path s cs us is kept h u =
      let (rs, made, sized, blocks, told, there) = kept is in
      let writes : List Bytes = block_writes S C e x.blocks s in
      let data_of : leading_writes (map tar_write writes ++ cs) ≡ contents x.path =
        leading_writes-append writes cs
        ∙ ap (λ r. concat writes ++ r) h
        ∙ append-nil (concat writes)
        ∙ ap (λ b. concat (block_writes S C e b s)) blocks
        ∙ block_writes-chunk_data S C L e (contents x.path) rs s made told there in
      ground (arith, data_of, sized, ap length data_of, unpack-append writes cs, u)

  module _ (p : Peer) (stays : (i : ℕ) → p.is_done i ≡ false) where
    leading_writes-stream_tar_gz :
        (i : ℕ) (xs : List Entry) (folder : Str) (s : Store S)
        → leading_writes (stream_tar_gz S C e p i xs folder s) ≡ []
    unfolding leading_writes stream_tar_gz
    leading_writes-stream_tar_gz i [] folder s = refl
    leading_writes-stream_tar_gz i (x ∷ xs) folder s = ground (
      arith,
      stays i,
      leading_writes-tar_entry x.type x (entry_path x.path folder) s
          (stream_tar_gz S C e p (i + 1) xs folder s)
          (leading_writes-stream_tar_gz (i + 1) xs folder s),
    )

    unpack-stream_tar_gz :
        (i : ℕ) (xs : List Entry) (folder : Str) (s : Store S)
        → All (IsKept S C e contents s) xs
        → unpack (stream_tar_gz S C e p i xs folder s)
          ≡ some (unpacked_entries contents (λ path. some (entry_path path folder)) xs)
    unfolding unpack stream_tar_gz unpacked_entries
    unpack-stream_tar_gz i [] folder s h = refl
    unpack-stream_tar_gz i (x ∷ xs) folder s (h, hs) = ground (
      arith,
      stays i,
      unpack-tar_entry x.type x (entry_path x.path folder) s
          (stream_tar_gz S C e p (i + 1) xs folder s)
          (unpacked_entries contents (λ path. some (entry_path path folder)) xs) refl h
          (leading_writes-stream_tar_gz (i + 1) xs folder s)
          (unpack-stream_tar_gz (i + 1) xs folder s hs),
    )

module _ (S : S3) (C : Codec) (L : Codec.IsLawful C) (F : Formats) (e : Env)
    (contents : Str → Bytes) (p : Peer) where
  -- Take a manifest that can be read, and say what each of its files contains. If every file has the
  -- length of its contents as its size and the blocks that ChunkData made of them, GetBlock reads all
  -- of these, LZ4 refuses each of them that was not stored shorter, and the client stays, the tar
  -- archive of the backup unpacks, each header with data of its size, to the directories, links and
  -- files of the manifest in order, each file with exactly its contents; with a lawful codec.
  pub handle_download-unpack :
      (name id : Str) (s : Store S) (raw : Bytes) (m : Manifest)
      → ((i : ℕ) → p.is_done i ≡ false)
      → parse_format name ≡ (tar_gz, id)
      → get_manifest S e id s ≡ ok raw
      → read_manifest C F raw ≡ some m
      → All (IsKept S C e contents s) m.entries
      → (calls : List TarCall) × (handle_download S C F e p name s
          ≡ tar_stream (id ++ codes ".tar.gz") calls)
        × (unpack calls ≡ some (unpacked_entries contents (λ path. some path) m.entries))
  unfolding handle_download load_manifest stream
  handle_download-unpack name id s raw m stays is_tar stored parsed kept = (
    stream_tar_gz S C e p 0 m.entries [] s,
    ground (arith, is_tar, stored, parsed),
    unpack-stream_tar_gz S C L e contents p stays 0 m.entries [] s kept,
  )

  -- Take a manifest that can be read, say what each of its files contains, and take a folder, other
  -- than the empty one, that the manifest has entries at or below. If every file there has the
  -- length of its contents as its size and the blocks that ChunkData made of them, GetBlock reads all
  -- of these, LZ4 refuses each of them that was not stored shorter, and the client stays, the tar
  -- archive of the folder unpacks, each header with data of its size, to exactly the directories,
  -- links and files that have a name below the folder, in order, under that name, each file with
  -- exactly its contents; with a lawful codec.
  pub handle_download_folder-unpack :
      (id name folder : Str) (s : Store S) (raw : Bytes) (m : Manifest)
      → ((i : ℕ) → p.is_done i ≡ false)
      → parse_format name ≡ (tar_gz, folder)
      → get_manifest S e id s ≡ ok raw
      → read_manifest C F raw ≡ some m
      → is_empty folder ≡ false
      → is_empty (folder_entries S C F e folder m.entries) ≡ false
      → All (IsKept S C e contents s) (folder_entries S C F e folder m.entries)
      → (calls : List TarCall) × (handle_download_folder S C F e p id (b'/' ∷ name) s
          ≡ tar_stream (base folder ++ codes ".tar.gz") calls)
        × (unpack calls ≡ some (unpacked_entries contents (name_below folder) m.entries))
  unfolding handle_download_folder load_manifest stream trim_prefix folder_entries
  handle_download_folder-unpack id name folder s raw m stays is_tar stored parsed full some_below
        kept =
      (
        stream_tar_gz S C e p 0 (folder_entries S C F e folder m.entries) folder s,
        ground (arith, is_tar, stored, parsed, some_below),
        unpack-stream_tar_gz S C L e contents p stays 0 (folder_entries S C F e folder m.entries)
              folder s kept
            ∙ ap some (unpacked_entries-filter contents folder m.entries full),
      )
