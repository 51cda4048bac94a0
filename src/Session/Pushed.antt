-- ===== src/Session/Pushed.antt =====
-- The blocks of a whole file, pushed one after the other and pulled again.
use ib.Prelude.{
  ℕ, ◌≡◌, refl, subst, ◌∙◌, ap, Str, Bytes, List, [], ◌∷◌, Bool, some, ok, map, All, arith,
}
use ib.Backup.Chunker.{ChunkResult}
use ib.Storage.Object.{S3, IsLawful}
use ib.Storage.Tables.{Env, IsHealthy}
use ib.Storage.Block.Success.{TakesAll}
use ib.Storage.Spec.{Shelf}
use ib.Storage.Spec.Refines.{Represents}
use ib.Server.Api.{handle_get_block}
use ib.Server.Routes.{Host, Running}
use ib.Session.{Line, push_block, push_blocks, pull_block}
use ib.Session.Requests.{IsRouted, IsAdmitted, serve_download}
use ib.Session.Blocks.{CanPush, Step, push_block-Step, after-CanPush, kept}

-- One CID names one content.
abbrev pub IsConsistent : List ChunkResult → Type 0
IsConsistent [] = Unit
IsConsistent (r ∷ rs) = All (λ t. t.cid ≡ r.cid → t.content ≡ r.content) rs × IsConsistent rs

module _ (S : S3) (L : IsLawful S) (takes : TakesAll S) (host : Host) (l : Line) (cascades : Bool)
    (now : ℕ) (e : Env) (H : IsHealthy e) where
  -- A state that holds some blocks besides those of before.
  pub record Holds (s : Running S) (before : Shelf) (rs : List ChunkResult) : Type 0 where
    pub shelf : Shelf
    pub represents : Represents S cascades s.server.storage shelf
    pub held : All (λ r. shelf.blocks r.cid ≡ some r.content) rs
    pub older : (c : Str) (d : Bytes) → before.blocks c ≡ some d → shelf.blocks c ≡ some d

  still-IsAdmitted :
      (s s' : Running S)
      → s'.limiter ≡ s.limiter
      → IsAdmitted S host l now s
      → IsAdmitted S host l now s'
  still-IsAdmitted s s' same A = record {
    token = A.token;
    full = A.full;
    free =
        ap
          (λ rl. ib.Server.RateLimit.is_blocked now (ib.Server.RateLimit.parse_ip host.net l.ip) rl)
          same
        ∙ A.free;
  }

  rest-CanPush :
      (s s' : Running S) (shelf : Shelf) (r : ChunkResult) (step : Step S cascades s s' shelf r)
      (rs : List ChunkResult)
      → All (λ t. t.cid ≡ r.cid → t.content ≡ r.content) rs
      → All (CanPush host shelf) rs
      → All (CanPush host step.next) rs
  rest-CanPush s s' shelf r step [] same can = tt
  rest-CanPush s s' shelf r step (t ∷ rs) (same, sames) (can, cans) = (
    after-CanPush S L takes host l cascades now e H s s' shelf r t step same can,
    rest-CanPush s s' shelf r step rs sames cans,
  )

  -- All blocks are pushed, and all are held.
  pub push_blocks-Holds :
      (rs : List ChunkResult) (s : Running S) (shelf : Shelf)
      → Represents S cascades s.server.storage shelf
      → IsAdmitted S host l now s
      → IsConsistent rs
      → All (CanPush host shelf) rs
      → Holds (push_blocks S host l now e rs s).0 shelf rs
        × ((push_blocks S host l now e rs s).1 ≡ ok (map (λ r. r.cid) rs))
  unfolding push_blocks
  push_blocks-Holds [] s shelf R A same can =
      (record { shelf = shelf; represents = R; held = tt; older = λ c d h. h }, refl)
  push_blocks-Holds (r ∷ rs) s shelf R A (same, sames) (can, cans) =
      let s1 : Running S = (push_block S host l now e r s).0 in
      let (step, (b, done)) = push_block-Step S L takes host l cascades now e H s shelf r R A can in
      let (holds, all) =
        push_blocks-Holds rs s1 step.next step.represents (still-IsAdmitted s s1 step.limiter A)
          sames (rest-CanPush s s1 shelf r step rs same cans) in
      (
        subst (λ z. Holds z shelf (r ∷ rs)) {x = (push_blocks S host l now e rs s1).0}
            {y = (push_blocks S host l now e (r ∷ rs) s).0} (ground (arith, done, all))
            (record {
              shelf = holds.shelf;
              represents = holds.represents;
              held = (holds.older r.cid r.content step.own, holds.held);
              older = λ c d h.
                  holds.older c d
                    (kept S L takes host l cascades now e H s s1 shelf r step can.3 c d h);
            }),
        ground (arith, done, all),
      )

  -- A block that is held is pulled, by a client with or without a token.
  pub pull_block_lem :
      (s : Running S) (shelf : Shelf) (cid : Str) (content : Bytes)
      → Represents S cascades s.server.storage shelf
      → IsRouted host cid
      → shelf.blocks cid ≡ some content
      → pull_block S host l now e s cid ≡ ok content
  unfolding pull_block handle_get_block
  pull_block_lem s shelf cid content R routed held =
      ground (arith, serve_download S host l now s e cid routed, R.reads e H cid content held)
