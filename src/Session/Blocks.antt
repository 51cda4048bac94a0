-- ===== src/Session/Blocks.antt =====
-- The blocks that a client pushes are those that any client pulls.
use ib.Prelude.{
  ℕ, ◌≡◌, ◌⊎◌, inl, inr, refl, sym, subst, ◌∙◌, ap, Str, Bytes, Bool, true, false, none, some,
  Result, ok, is_empty, decimal, str_eq, str_eq_iff, str_eq_refl, arith, Bool-cases,
}
use ib.Backup.Chunker.{ChunkResult}
use ib.Storage.Object.{S3, IsLawful}
use ib.Storage.Tables.{Env, IsHealthy, Store, has_row}
use ib.Storage.Block.{save_block}
use ib.Storage.Block.Success.{TakesAll, save_block_succeeds}
use ib.Storage.Spec.{Shelf, put_block, act}
use ib.Storage.Spec.Refines.{is_some, Represents}
use ib.Storage.Spec.Steps.{put_block_step}
use ib.Server.Api.{Server, handle_block_exists, handle_upload_block, block_state, block_created}
use ib.Server.Routes.{Host, Running}
use ib.Session.{Line, push_block}
use ib.Session.Requests.{IsRouted, IsAdmitted, serve_exists, serve_upload}

-- The block is not empty and has a CID, its CID is new or names the same bytes, and its requests
-- find their routes.
abbrev pub CanPush : Host → Shelf → ChunkResult → Type 0
CanPush host shelf r =
    IsRouted host r.cid
    × (is_empty r.cid ≡ false)
    × (is_empty r.content ≡ false)
    × ((shelf.blocks r.cid ≡ none) ⊎ (shelf.blocks r.cid ≡ some r.content))

own_lem :
    (cascades : Bool) (shelf : Shelf) (r : ChunkResult) (n : ℕ)
    → (act cascades (put_block r.cid r.content n) shelf).blocks r.cid ≡ some r.content
unfolding act
own_lem cascades shelf r n = ground (arith, str_eq_refl r.cid)

other_lem :
    (cascades : Bool) (shelf : Shelf) (r : ChunkResult) (n : ℕ) (c : Str)
    → str_eq c r.cid ≡ false
    → (act cascades (put_block r.cid r.content n) shelf).blocks c ≡ shelf.blocks c
unfolding act
other_lem cascades shelf r n c h = ground (arith, h)

-- One block is held besides those of before.
pub record Step (S : S3) (cascades : Bool) (s s' : Running S) (shelf : Shelf) (r : ChunkResult)
    : Type 0 where
  pub next : Shelf
  pub represents : Represents S cascades s'.server.storage next
  pub own : next.blocks r.cid ≡ some r.content
  pub other : (c : Str) → str_eq c r.cid ≡ false → next.blocks c ≡ shelf.blocks c
  pub limiter : s'.limiter ≡ s.limiter

module _ (S : S3) (L : IsLawful S) (takes : TakesAll S) (host : Host) (l : Line) (cascades : Bool)
    (now : ℕ) (e : Env) (H : IsHealthy e) where
  exists_lem :
      (s : Running S) (shelf : Shelf) (cid : Str)
      → Represents S cascades s.server.storage shelf
      → handle_block_exists S e cid s.server ≡ block_state (is_some (shelf.blocks cid))
  unfolding handle_block_exists
  exists_lem s shelf cid R = ground (arith, H.no_error ib.Storage.Tables.count_block, R.present cid)

  upload_lem :
      (cid size : Str) (content : Bytes) (s : Server S)
      → is_empty cid ≡ false
      → ((handle_upload_block S host.formats e cid size (some content) s).1 ≡ block_created cid)
        × ((handle_upload_block S host.formats e cid size (some content) s).0.storage
            ≡ (save_block S e cid content (host.formats.parse_int size) s.storage).0)
  unfolding handle_upload_block
  upload_lem cid size content s named =
      let done =
        save_block_succeeds S e H takes cid content (host.formats.parse_int size) s.storage in
      (ground (arith, done, named), ground (arith, done, named))

  -- The server has the block, and it is not sent.
  push_block_skips :
      (s : Running S) (shelf : Shelf) (r : ChunkResult) (d : Bytes)
      → Represents S cascades s.server.storage shelf
      → IsAdmitted S host l now s
      → IsRouted host r.cid
      → shelf.blocks r.cid ≡ some d
      → push_block S host l now e r s ≡ (s, ok false)
  unfolding push_block
  push_block_skips s shelf r d R A routed same =
      ground (arith, same, serve_exists S host l now s A e r.cid routed, exists_lem s shelf r.cid R)

  push_block_sends :
      (s : Running S) (shelf : Shelf) (r : ChunkResult)
      → Represents S cascades s.server.storage shelf
      → IsAdmitted S host l now s
      → IsRouted host r.cid
      → is_empty r.cid ≡ false
      → shelf.blocks r.cid ≡ none
      → push_block S host l now e r s ≡ (
        record s {
          server =
              (handle_upload_block S host.formats e r.cid
                (decimal r.original_size)
                (some r.content)
                s.server).0;
        },
        ok true,
      )
  unfolding push_block
  push_block_sends s shelf r R A routed named new = ground (
    arith,
    new,
    serve_exists S host l now s A e r.cid routed,
    exists_lem s shelf r.cid R,
    serve_upload S host l now s A e r.cid r.content r.original_size routed,
    upload_lem r.cid (decimal r.original_size) r.content s.server named,
  )

  pub push_block-Step :
      (s : Running S) (shelf : Shelf) (r : ChunkResult)
      → Represents S cascades s.server.storage shelf
      → IsAdmitted S host l now s
      → CanPush host shelf r
      → Step S cascades s (push_block S host l now e r s).0 shelf r
        × ((b : Bool) × ((push_block S host l now e r s).1 ≡ ok b))
  push_block-Step s shelf r R A (routed, named, full, inr same) =
      let q = push_block_skips s shelf r r.content R A routed same in
      (
        subst (λ (z : Running S × Result Bool). Step S cascades s z.0 shelf r) (sym q)
            (record {
              next = shelf;
              represents = R;
              own = same;
              other = λ c h. refl;
              limiter = refl;
            }),
        (false, ap (λ (z : Running S × Result Bool). z.1) q),
      )
  push_block-Step s shelf r R A (routed, named, full, inl new) =
      let q = push_block_sends s shelf r R A routed named new in
      let size : Str = decimal r.original_size in
      let n : ℕ = host.formats.parse_int size in
      let stored = (upload_lem r.cid size r.content s.server named).1 in
      (
        subst (λ (z : Running S × Result Bool). Step S cascades s z.0 shelf r) (sym q)
            (record {
              next = act cascades (put_block r.cid r.content n) shelf;
              represents =
                  subst
                    (λ t.
                      Represents S cascades t (act cascades (put_block r.cid r.content n) shelf))
                    (sym stored)
                    (put_block_step S L cascades s.server.storage shelf R e H r.cid r.content n full
                      (inl new)
                      (save_block_succeeds S e H takes r.cid r.content n s.server.storage));
              own = own_lem cascades shelf r n;
              other = other_lem cascades shelf r n;
              limiter = refl;
            }),
        (true, ap (λ (z : Running S × Result Bool). z.1) q),
      )

  -- What can be pushed can be pushed after another block too.
  pub after-CanPush :
      (s s' : Running S) (shelf : Shelf) (r t : ChunkResult) (step : Step S cascades s s' shelf r)
      → (t.cid ≡ r.cid → t.content ≡ r.content)
      → CanPush host shelf t
      → CanPush host step.next t
  after-CanPush s s' shelf r t step same (routed, named, full, before) =
      elim (Bool-cases (str_eq t.cid r.cid)) [
        | inl q ↦
            let e : t.cid ≡ r.cid = (str_eq_iff t.cid r.cid).0 q in
            (routed, named, full, inr (ap step.next.blocks e ∙ step.own ∙ ap some (sym (same e))))
        | inr q ↦ (
          routed,
          named,
          full,
          subst (λ z. (z ≡ none) ⊎ (z ≡ some t.content)) (sym (step.other t.cid q)) before,
        )
      ]

  pub kept :
      (s s' : Running S) (shelf : Shelf) (r : ChunkResult) (step : Step S cascades s s' shelf r)
      → (shelf.blocks r.cid ≡ none) ⊎ (shelf.blocks r.cid ≡ some r.content)
      → (c : Str) (d : Bytes) → shelf.blocks c ≡ some d
      → step.next.blocks c ≡ some d
  kept s s' shelf r step before c d there = elim (Bool-cases (str_eq c r.cid)) [
    | inr q ↦ step.other c q ∙ there
    | inl q ↦
        let e : c ≡ r.cid = (str_eq_iff c r.cid).0 q in
        elim before [
          | inl new ↦ absurd (ground (arith, sym there ∙ ap shelf.blocks e ∙ new))
          | inr same ↦ ap step.next.blocks e ∙ step.own ∙ sym same ∙ ap shelf.blocks (sym e) ∙ there
        ]
  ]
