-- ===== src/Session/Restored.antt =====
-- A file that one client pushes and another restores.
use ib.Prelude.{
  ℕ, ◌≡◌, ◌↔◌, sym, ◌∙◌, ap, Str, Bytes, List, [], ◌∷◌, ◌++◌, none, some, ok, concat, map, All,
  All-map, Bool, join_path,
}
use ib.Backup.Codec as Codec
use ib.Backup.Codec.{Codec}
use ib.Backup.Manifest.{file, Entry, Manifest}
use ib.Backup.Chunker.{ChunkResult, chunk_data}
use ib.Backup.Restore as Restore
use ib.Backup.Restore.{Call, restore}
use ib.Backup.Restore.Disk.{Disk, after_calls}
use ib.Backup.Restore.Direct.{made_links, IsDirect}
use ib.Backup.Restore.Contents.{IsAway}
use ib.Backup.Restore.Original.{Serves, IsRaw, contents, restore-chunk_data}
use ib.Storage.Object as Object
use ib.Storage.Object.{S3}
use ib.Storage.Tables.{Env, IsHealthy}
use ib.Storage.Block.Success.{TakesAll}
use ib.Storage.Spec.{Shelf}
use ib.Storage.Spec.Refines.{Represents}
use ib.Server.Routes.{Host, Running}
use ib.Session.{Line, push_blocks, pull_block}
use ib.Session.Requests.{IsRouted, IsAdmitted}
use ib.Session.Blocks.{CanPush}
use ib.Session.Pushed.{IsConsistent, push_blocks-Holds, pull_block_lem}

module _ (S : S3) (host : Host) (l : Line) (now : ℕ) (e : Env) (s : Running S) where
  -- A restore that gets its blocks from the server.
  abbrev pub from_server : Restore.World → Restore.World
  from_server w = record w { fetch = pull_block S host l now e s }

  serves :
      (rs : List ChunkResult) (w : Restore.World)
      → All (λ r. pull_block S host l now e s r.cid ≡ ok r.content) rs
      → Serves (from_server w) rs
  serves [] w h = tt
  serves (r ∷ rs) w (h, hs) = (h, serves rs w hs)

module _ (S : S3) (L : Object.IsLawful S) (takes : TakesAll S) (host : Host) (cascades : Bool)
    (now : ℕ) (e : Env) (H : IsHealthy e) where
  pulls :
      (l : Line) (s : Running S) (shelf : Shelf) (rs : List ChunkResult)
      → Represents S cascades s.server.storage shelf
      → All (λ r. IsRouted host r.cid) rs
      → All (λ r. shelf.blocks r.cid ≡ some r.content) rs
      → All (λ r. pull_block S host l now e s r.cid ≡ ok r.content) rs
  pulls l s shelf [] R routed held = tt
  pulls l s shelf (r ∷ rs) R (routed, routes) (h, hs) = (
    pull_block_lem S L takes host l cascades now e H s shelf r.cid r.content R routed h,
    pulls l s shelf rs R routes hs,
  )

  -- Take the chunks of a file's contents, of which those with the same CID are stored as the same
  -- bytes, and a client with the server's token and an address that is not blocked, which asks the
  -- server for each block and uploads it if it is not there; gin finds the routes of these requests,
  -- S3 and the database do not fail, and a CID that the server has already names the same bytes.
  -- Then every block is pushed. Take a restore by any client, from the server as it is then, of a
  -- manifest with a file of these blocks that no later entry restores again. If it succeeds and
  -- reaches no file, and no link before its end, over a link, it leaves the blocks as they were
  -- stored in that file, which are the contents exactly if no chunk was compressed.
  pub push_blocks-restore :
      (c : Codec) (C : Codec.IsLawful c) (content : Bytes) (rs : List ChunkResult) (l l' : Line)
      (s : Running S) (shelf : Shelf) (through : Call → Disk → Disk) (w : Restore.World)
      (m : Manifest) (out : Str) (xs ys : List Entry) (x : Entry) (d : Disk)
      → chunk_data c content ≡ ok rs
      → IsConsistent rs
      → Represents S cascades s.server.storage shelf
      → IsAdmitted S host l now s
      → All (CanPush host shelf) rs
      → m.entries ≡ xs ++ (x ∷ ys)
      → x.type ≡ file
      → x.blocks ≡ map (λ r. r.cid) rs
      → All (IsAway (join_path out x.path) w out) ys
      → All (IsDirect out (d.links ++ made_links out m.entries)) m.entries
      → (restore (from_server S host l' now e (push_blocks S host l now e rs s).0 w) m out).1 ≡ none
      → let server = (push_blocks S host l now e rs s).0 in
        let left =
          (after_calls through
            (join_path out x.path)
            (restore (from_server S host l' now e server w) m out).0
            d).content in
        ((push_blocks S host l now e rs s).1 ≡ ok x.blocks)
        × (left ≡ some (concat (contents rs)))
        × ((left ≡ some content) ↔ All IsRaw rs)
  push_blocks-restore c C content rs l l' s shelf through w m out xs ys x d cut free R A can is t
        blocks away direct restored =
      let (holds, done) =
        push_blocks-Holds S L takes host l cascades now e H rs s shelf R A free can in
      let s' = (push_blocks S host l now e rs s).0 in
      let served =
        serves S host l' now e s' rs w
          (pulls l' s' holds.shelf rs holds.represents (All-map (λ r h. h.0) rs can) holds.held) in
      let (left, original) =
        restore-chunk_data c C through content rs (from_server S host l' now e s' w) m out xs ys x d
          cut served restored is t blocks away direct in
      (done ∙ ap ok (sym blocks), left, original)
