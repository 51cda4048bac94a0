-- ===== src/Server/Archive/Reader.antt =====
-- What a reader of the tar archive of internal/server/api.go finds, and the names in the archive of a
-- folder.
use ib.Prelude.{
  ℕ, ◌≡◌, refl, sym, ◌∙◌, ap, Str, Bytes, codes, List, [], ◌∷◌, ◌++◌, append_assoc, false, some,
  concat, map, filter, drop, length, is_empty, has_prefix, trim_prefix, str_eq, str_eq_iff, base,
  arith, Option, none, Bool, ◌||◌, if◌then◌else◌, ◌==◌,
}
use ib.Backup.Manifest.{FileType, file, dir, symlink, other, Entry}
use ib.Server.Archive.{TarCall, tar_dir, tar_symlink, tar_file, tar_write, entry_path}

-- An entry as a reader of the archive finds it.
pub data Unpacked : Type 0 where
  unpacked_dir : Str → ℕ → Unpacked
  unpacked_link : Str → ℕ → Str → Unpacked
  unpacked_file : Str → ℕ → Bytes → Unpacked

-- What is written before the next header.
unfoldable pub leading_writes : List TarCall → Bytes
leading_writes [] = []
leading_writes (tar_write b ∷ cs) = b ++ leading_writes cs
leading_writes (tar_dir path mode ∷ cs) = []
leading_writes (tar_symlink path mode target ∷ cs) = []
leading_writes (tar_file path mode size ∷ cs) = []

-- An entry whose data have the size of its header, before the others.
abbrev pub with_entry : ℕ → Bytes → Unpacked → Option (List Unpacked) → Option (List Unpacked)
with_entry size written u rest =
    if length written == size then elim rest [ none ↦ none | some us ↦ some (u ∷ us) ] else none

-- There is no archive to read if the data of an entry are shorter or longer than its header says:
-- archive/tar returns an error then, which the server drops.
unfoldable pub unpack : List TarCall → Option (List Unpacked)
unfolding leading_writes
unpack [] = some []
unpack (tar_write b ∷ cs) = unpack cs
unpack (tar_dir path mode ∷ cs) =
    with_entry 0 (leading_writes cs) (unpacked_dir path mode) (unpack cs)
unpack (tar_symlink path mode target ∷ cs) =
    with_entry 0 (leading_writes cs) (unpacked_link path mode target) (unpack cs)
unpack (tar_file path mode size ∷ cs) =
    let written = leading_writes cs in
    with_entry size written (unpacked_file path mode written) (unpack cs)

-- The entries of a manifest below a folder, with what is in the files.
unfoldable pub unpacked_entry : (Str → Bytes) → FileType → Entry → Str → List Unpacked
unpacked_entry contents file x path = unpacked_file path x.mode (contents x.path) ∷ []
unpacked_entry contents dir x path = unpacked_dir (path ++ codes "/") x.mode ∷ []
unpacked_entry contents symlink x path = unpacked_link path x.mode x.link_target ∷ []
unpacked_entry contents (other t) x path = []

unfoldable pub unpacked_entries : (Str → Bytes) → (Str → Option Str) → List Entry → List Unpacked
unfolding unpacked_entry
unpacked_entries contents name [] = []
unpacked_entries contents name (x ∷ xs) =
    let rest = unpacked_entries contents name xs in
    elim (name x.path) [ none ↦ rest | some p ↦ unpacked_entry contents x.type x p ++ rest ]

-- What follows a prefix.
rest_after : Str → Str → Option Str
rest_after [] path = some path
rest_after (c ∷ prefix) [] = none
rest_after (c ∷ prefix) (d ∷ path) =
    let rest = rest_after prefix path in if c == d then rest else none

is_whole_path : Option Str → Bool
is_whole_path none = false
is_whole_path (some rest) = is_empty rest

past_slash : Option Str → Option Str
past_slash none = none
past_slash (some []) = none
past_slash (some (c ∷ rest)) = if c == b'/' then some rest else none

-- The name of a path in the archive of a folder: the folder goes by its last component, and what is
-- below it by what follows the folder and a slash. Other paths have no name.
unfoldable pub name_below : Str → Str → Option Str
unfolding rest_after is_whole_path past_slash base
name_below folder path =
    let rest = rest_after folder path in
    if is_whole_path rest then some (base folder) else past_slash rest

pub leading_writes-append :
    (bs : List Bytes) (cs : List TarCall)
    → leading_writes (map tar_write bs ++ cs) ≡ concat bs ++ leading_writes cs
unfolding leading_writes
leading_writes-append [] cs = refl
leading_writes-append (b ∷ bs) cs =
    ap (λ r. b ++ r) (leading_writes-append bs cs)
    ∙ sym (append_assoc b (concat bs) (leading_writes cs))

pub unpack-append :
    (bs : List Bytes) (cs : List TarCall) → unpack (map tar_write bs ++ cs) ≡ unpack cs
unfolding unpack
unpack-append [] cs = refl
unpack-append (b ∷ bs) cs = unpack-append bs cs

str_eq-rest_after :
    (folder path : Str) → str_eq path folder ≡ is_whole_path (rest_after folder path)
unfolding str_eq rest_after is_whole_path
str_eq-rest_after [] [] = refl
str_eq-rest_after [] (d ∷ path) = refl
str_eq-rest_after (c ∷ folder) [] = refl
str_eq-rest_after (c ∷ folder) (d ∷ path) = ground (arith, str_eq-rest_after folder path)

drop-past_slash :
    (folder path : Str)
    → (if has_prefix path (folder ++ codes "/")
        then some (drop (length (folder ++ codes "/")) path)
        else none)
      ≡ past_slash (rest_after folder path)
unfolding has_prefix rest_after past_slash
drop-past_slash [] [] = refl
drop-past_slash [] (d ∷ path) = ground arith
drop-past_slash (c ∷ folder) [] = refl
drop-past_slash (c ∷ folder) (d ∷ path) = ground (arith, drop-past_slash folder path)

name_below_lem :
    (folder path : Str)
    → is_empty folder ≡ false
    → name_below folder path ≡ (
        if str_eq path folder || has_prefix path (folder ++ codes "/")
        then some (entry_path path folder)
        else none)
unfolding name_below entry_path trim_prefix
name_below_lem folder path h =
    ground
      (arith, h, str_eq_iff path folder, str_eq-rest_after folder path, drop-past_slash folder path)

pub unpacked_entries-filter :
    (contents : Str → Bytes) (folder : Str) (xs : List Entry)
    → is_empty folder ≡ false
    → unpacked_entries contents
        (λ path. some (entry_path path folder))
        (filter (λ x. str_eq x.path folder || has_prefix x.path (folder ++ codes "/")) xs)
      ≡ unpacked_entries contents (name_below folder) xs
unfolding unpacked_entries
unpacked_entries-filter contents folder [] h = refl
unpacked_entries-filter contents folder (x ∷ xs) h =
    ground (arith, name_below_lem folder x.path h, unpacked_entries-filter contents folder xs h)
