-- ===== src/Backup/Restore/Disk.antt =====
-- What calls of the operating system do to one file, on a disk with links.
use ib.Prelude.{
  ◌≡◌, refl, ◌∙◌, ap, Str, Bytes, codes, List, [], ◌∷◌, ◌++◌, Bool, true, false, not, ◌||◌, ◌&&◌,
  Option, none, some, All, any, arith, str_eq, str_eq_iff, has_prefix, if◌then◌else◌, Bool-cases,
  inl, inr,
}
use ib.Backup.Restore.{Call, mkdir_all, write_file, open_file, append, make_symlink, chmod, chtimes}

-- The paths that lead elsewhere, such as symbolic links, and the contents of the file at one path.
pub record Disk : Type 0 where
  pub links : List Str
  pub content : Option Bytes

abbrev pub below : Str → Str → Bool
below q l = has_prefix q (l ++ codes "/")

abbrev pub at_or_below : Str → Str → Bool
at_or_below q l = str_eq q l || below q l

abbrev pub appended : Bytes → Option Bytes → Option Bytes
appended b none = none
appended b (some old) = some (old ++ b)

-- What a call leaves in the file at a path, if neither goes over a link.
unfoldable pub direct_call : Str → Call → Option Bytes → Option Bytes
unfolding str_eq
direct_call p (mkdir_all q mode) old = old
direct_call p (write_file q b mode) old = if str_eq p q then some b else old
direct_call p (open_file q mode) old = if str_eq p q then some [] else old
direct_call p (append q b) old = if str_eq p q then appended b old else old
direct_call p (make_symlink target q) old = old
direct_call p (chmod q mode) old = old
direct_call p (chtimes q time) old = old

unfoldable pub direct_calls : Str → List Call → Option Bytes → Option Bytes
unfolding direct_call
direct_calls p [] old = old
direct_calls p (c ∷ cs) old = direct_calls p cs (direct_call p c old)

-- A call follows the links on the way to its file, also one at its end; os.Symlink follows those on
-- the way to the new link. What a call does to the disk if it follows a link, or if the path whose
-- file is looked at leads over one, is a parameter.
module _ (through : Call → Disk → Disk) (p : Str) where
  write_call : Call → Str → Disk → Disk
  unfolding direct_call has_prefix str_eq
  write_call c q d =
      if any (at_or_below q) d.links || any (at_or_below p) d.links
      then through c d
      else record d { content = direct_call p c d.content }

  unfoldable pub after_call : Call → Disk → Disk
  unfolding write_call
  after_call (mkdir_all q mode) d = d
  after_call (write_file q b mode) d = write_call (write_file q b mode) q d
  after_call (open_file q mode) d = write_call (open_file q mode) q d
  after_call (append q b) d = write_call (append q b) q d
  after_call (make_symlink target q) d =
      if any (below q) d.links || at_or_below p q
      then through (make_symlink target q) d
      else record d { links = q ∷ d.links }
  after_call (chmod q mode) d = d
  after_call (chtimes q time) d = d

  unfoldable pub after_calls : List Call → Disk → Disk
  unfolding after_call
  after_calls [] d = d
  after_calls (c ∷ cs) d = after_calls cs (after_call c d)

-- A call follows none of the links, and makes only such links.
abbrev pub is_clear : List Str → Call → Bool
is_clear links (write_file q b mode) = not (any (at_or_below q) links)
is_clear links (open_file q mode) = not (any (at_or_below q) links)
is_clear links (append q b) = not (any (at_or_below q) links)
is_clear links (make_symlink target q) = not (any (below q) links) && any (str_eq q) links
is_clear links _ = true

abbrev pub IsWithin : List Str → List Str → Type 0
IsWithin ls links = (f : Str → Bool) → any f ls ≡ true → any f links ≡ true

any-mem :
    (f : Str → Bool) (q : Str) (links : List Str)
    → any (str_eq q) links ≡ true
    → f q ≡ true
    → any f links ≡ true
any-mem f q [] h k = h
any-mem f q (l ∷ links) h k = elim (Bool-cases (str_eq q l)) [
  | inl t ↦ ground (arith, k, ap f ((str_eq_iff q l).0 t))
  | inr t ↦ ground (arith, any-mem f q links (ground (arith, h, t)) k)
]

abbrev added : Call → List Str → List Str
added (make_symlink target q) ls = q ∷ ls
added _ ls = ls

none_within :
    (f : Str → Bool) (ls links : List Str)
    → IsWithin ls links
    → not (any f links) ≡ true
    → any f ls ≡ false
none_within f ls links sub h = elim (Bool-cases (any f ls)) [
  | inl t ↦ absurd (ground (arith, h, sub f t))
  | inr t ↦ t
]

module _ (through : Call → Disk → Disk) (p : Str) (links : List Str) where
  after_call_clear :
      (c : Call) (d : Disk)
      → not (any (at_or_below p) links) ≡ true
      → is_clear links c ≡ true
      → IsWithin d.links links
      → after_call through p c d
        ≡ record { links = added c d.links; content = direct_call p c d.content }
  unfolding after_call direct_call
  after_call_clear (mkdir_all q mode) d free h sub = refl
  after_call_clear (write_file q b mode) d free h sub = ground (
    arith,
    none_within (at_or_below q) d.links links sub h,
    none_within (at_or_below p) d.links links sub free,
  )
  after_call_clear (open_file q mode) d free h sub = ground (
    arith,
    none_within (at_or_below q) d.links links sub h,
    none_within (at_or_below p) d.links links sub free,
  )
  after_call_clear (append q b) d free h sub = ground (
    arith,
    none_within (at_or_below q) d.links links sub h,
    none_within (at_or_below p) d.links links sub free,
  )
  after_call_clear (make_symlink target q) d free h sub = ground (
    arith,
    none_within (below q) d.links links sub (ground (arith, h)),
    free,
    h,
    any-mem (at_or_below p) q links,
  )
  after_call_clear (chmod q mode) d free h sub = refl
  after_call_clear (chtimes q time) d free h sub = refl

  added-IsWithin :
      (c : Call) (ls : List Str)
      → is_clear links c ≡ true
      → IsWithin ls links
      → IsWithin (added c ls) links
  added-IsWithin (make_symlink target q) ls h sub = λ f k. elim (Bool-cases (f q)) [
    | inl t ↦ any-mem f q links (ground (arith, h)) t
    | inr t ↦ sub f (ground (arith, k, t))
  ]
  added-IsWithin (mkdir_all q mode) ls h sub = sub
  added-IsWithin (write_file q b mode) ls h sub = sub
  added-IsWithin (open_file q mode) ls h sub = sub
  added-IsWithin (append q b) ls h sub = sub
  added-IsWithin (chmod q mode) ls h sub = sub
  added-IsWithin (chtimes q time) ls h sub = sub

  -- Where no call follows a link, the file is left as on a disk without links.
  pub after_calls_clear :
      (cs : List Call) (d : Disk)
      → not (any (at_or_below p) links) ≡ true
      → All (λ c. is_clear links c ≡ true) cs
      → IsWithin d.links links
      → (after_calls through p cs d).content ≡ direct_calls p cs d.content
  unfolding after_calls direct_calls
  after_calls_clear [] d free h sub = refl
  after_calls_clear (c ∷ cs) d free (h, hs) sub =
      ap (λ x. (after_calls through p cs x).content) (after_call_clear c d free h sub)
      ∙ after_calls_clear cs
          (record { links = added c d.links; content = direct_call p c d.content }) free hs
          (added-IsWithin c d.links h sub)
