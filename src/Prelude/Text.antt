-- ===== src/Prelude/Text.antt =====
-- A Go string as the list of its bytes, and what the program uses of `strings` and
-- `path/filepath`. Where those functions walk characters and not bytes (TrimSpace, ToLower), the
-- model is exact on ASCII text.
use Prim.Native.Nat.{ℕ, zero, suc, ◌+◌, ◌-◌, ◌/◌, ◌%◌}
use Prim.Native.Char.{code}
use Prim.Native.String.{String}
use mathlib.Core.Path.{◌≡◌, refl}
use mathlib.Core.Logic.{◌↔◌}
use mathlib.Core.Bool.{Bool, true, false, ◌&&◌, ◌||◌, not}
use mathlib.Core.List.{List, [], ◌∷◌, ◌++◌, map, reverse}
use native.Mathlib.Omega.{arith}
use ib.Prelude.Tests.{ltb, leb, ◌==◌, if◌then◌else◌}
use ib.Prelude.Lists.{length, take, drop}

abbrev pub Str : Type 0
Str = List ℕ

abbrev pub Bytes : Type 0
Bytes = List ℕ

-- The bytes of an ASCII literal.
abbrev pub codes : String → Str
codes String.[] = []
codes (String.◌∷◌ c s) = code c ∷ codes s

unfoldable pub str_eq : Str → Str → Bool
str_eq [] [] = true
str_eq [] (y ∷ t) = false
str_eq (x ∷ s) [] = false
str_eq (x ∷ s) (y ∷ t) = x == y && str_eq s t

pub str_eq_iff : (s t : Str) → (str_eq s t ≡ true) ↔ (s ≡ t)
unfolding str_eq
str_eq_iff [] [] = (λ _. refl, λ _. refl)
str_eq_iff [] (y ∷ t) = ground arith
str_eq_iff (x ∷ s) [] = ground arith
str_eq_iff (x ∷ s) (y ∷ t) = ground (arith, str_eq_iff s t)

pub str_eq_refl : (s : Str) → str_eq s s ≡ true
str_eq_refl s = (str_eq_iff s s).1 refl

pub str_eq_sym : (s t : Str) → str_eq s t ≡ str_eq t s
str_eq_sym s t = ground (arith, str_eq_iff s t, str_eq_iff t s)

-- `s == ""`
abbrev pub is_empty {ℓ} : {A : Type ℓ} → List A → Bool
is_empty [] = true
is_empty (x ∷ xs) = false

-- strings.HasPrefix(s, p)
unfoldable pub has_prefix : Str → Str → Bool
has_prefix s [] = true
has_prefix [] (c ∷ p) = false
has_prefix (x ∷ s) (c ∷ p) = x == c && has_prefix s p

-- strings.HasSuffix(s, p)
unfoldable pub has_suffix : Str → Str → Bool
unfolding str_eq
has_suffix [] p = str_eq [] p
has_suffix (x ∷ s) p = str_eq (x ∷ s) p || has_suffix s p

-- strings.Contains(s, p)
unfoldable pub contains : Str → Str → Bool
unfolding has_prefix
contains [] p = has_prefix [] p
contains (x ∷ s) p = has_prefix (x ∷ s) p || contains s p

-- strings.TrimPrefix(s, p)
unfoldable pub trim_prefix : Str → Str → Str
unfolding has_prefix
trim_prefix s p = if has_prefix s p then drop (length p) s else s

-- strings.TrimSuffix(s, p)
unfoldable pub trim_suffix : Str → Str → Str
unfolding has_suffix
trim_suffix s p = if has_suffix s p then take (length s - length p) s else s

abbrev pub on_head : ℕ → List Str → List Str
on_head c [] = (c ∷ []) ∷ []
on_head c (s ∷ parts) = (c ∷ s) ∷ parts

-- strings.Split(s, sep) at a separator of one character
unfoldable pub split : ℕ → Str → List Str
split sep [] = [] ∷ []
split sep (c ∷ s) = let rest = split sep s in if c == sep then [] ∷ rest else on_head c rest

-- strings.Join(parts, sep) at a separator of one character
unfoldable pub join : ℕ → List Str → Str
join sep [] = []
join sep (s ∷ []) = s
join sep (s ∷ t ∷ parts) = s ++ (sep ∷ join sep (t ∷ parts))

-- unicode.IsSpace, on ASCII
unfoldable pub is_space : ℕ → Bool
is_space c = (leb 9 c && leb c 13) || c == 32

abbrev trim_left : (ℕ → Bool) → Str → Str
trim_left p [] = []
trim_left p (c ∷ s) = let rest = trim_left p s in if p c then rest else c ∷ s

abbrev trim_right : (ℕ → Bool) → Str → Str
trim_right p [] = []
trim_right p (c ∷ s) = let rest = trim_right p s in if is_empty rest && p c then [] else c ∷ rest

-- strings.TrimSpace
unfoldable pub trim_space : Str → Str
unfolding is_space
trim_space s = trim_left is_space (trim_right is_space s)

-- strings.ToLower, on ASCII
unfoldable pub to_lower : Str → Str
to_lower = map λ c. if leb b'A' c && leb c b'Z' then c + 32 else c

-- fmt's %d of a natural number. Each round drops a digit, so the number is fuel enough.
abbrev digits : ℕ → ℕ → Str → Str
digits zero n acc = acc
digits (suc fuel) n acc =
    let more = digits fuel (n / 10) ((b'0' + n % 10) ∷ acc) in
    if ltb n 10 then (b'0' + n % 10) ∷ acc else more

unfoldable pub decimal : ℕ → Str
decimal n = digits (suc n) n []

abbrev pub hex_digit : ℕ → ℕ
hex_digit n = if ltb n 10 then b'0' + n else b'W' + n

-- hex.EncodeToString
unfoldable pub hex : Bytes → Str
hex [] = []
hex (b ∷ bs) = hex_digit (b / 16 % 16) ∷ hex_digit (b % 16) ∷ hex bs

-- The part behind the last slash.
abbrev after_slash : Str → Str → Str
after_slash acc [] = acc
after_slash acc (c ∷ s) = after_slash (if c == b'/' then [] else acc ++ (c ∷ [])) s

-- filepath.Base
unfoldable pub base : Str → Str
base path =
    if is_empty path
    then b'.' ∷ []
    else let name = after_slash [] (trim_right (λ c. c == b'/') path) in
      if is_empty name then b'/' ∷ [] else name

-- The stack of filepath.Clean, innermost component first.
clean_part : Bool → Str → List Str → List Str
clean_part rooted part [] =
    if is_empty part || str_eq part (codes ".")
    then []
    else if str_eq part (codes "..") && rooted
    then []
    else part ∷ []
clean_part rooted part (top ∷ stack) =
    if is_empty part || str_eq part (codes ".")
    then top ∷ stack
    else if str_eq part (codes "..") && not (str_eq top (codes ".."))
    then stack
    else part ∷ top ∷ stack

clean_parts : Bool → List Str → List Str → List Str
clean_parts rooted [] stack = stack
clean_parts rooted (p ∷ ps) stack = clean_parts rooted ps (clean_part rooted p stack)

-- filepath.Clean and path.Clean, on a Unix system
unfoldable pub clean : Str → Str
unfolding split join clean_part clean_parts has_prefix str_eq
clean path =
    let rooted = has_prefix path (codes "/") in
    let body = join b'/' (reverse (clean_parts rooted (split b'/' path) [])) in
    if rooted then b'/' ∷ body else if is_empty body then codes "." else body

-- filepath.Join of two elements
unfoldable pub join_path : Str → Str → Str
unfolding clean
join_path a b = if is_empty a then if is_empty b then [] else clean b else clean (a ++ (b'/' ∷ b))

join_parent : join_path (codes "out") (codes "../a//b/./c/") ≡ codes "a/b/c"
unfolding join_path
join_parent = refl

decimal_503 : decimal 503 ≡ codes "503"
unfolding decimal
decimal_503 = refl
