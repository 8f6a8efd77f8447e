-- ===== src/Capture/Text.antt =====
-- The operations on texts of crates/remoteway-capture/src/desktop_detect.rs. A text is a list of bytes;
-- letters and spaces are those of ASCII, as in all names that it is compared with.
use Prim.Native.Char.{code}
use Prim.Native.String.{String}
use remote_way.Prelude.{
  ℕ, ◌+◌, Bool, true, false, ◌&&◌, ◌||◌, List, [], ◌∷◌, map, Option, none, some, leb, ◌==◌,
  if◌then◌else◌,
}

abbrev pub Str : Type 0
Str = List ℕ

abbrev pub codes : String → Str
codes String.[] = []
codes (String.◌∷◌ c s) = code c ∷ codes s

abbrev pub str_eq : Str → Str → Bool
str_eq [] [] = true
str_eq [] (d ∷ t) = false
str_eq (c ∷ s) [] = false
str_eq (c ∷ s) (d ∷ t) = (c == d) && str_eq s t

abbrev pub lower : ℕ → ℕ
lower c = if leb 65 c && leb c 90 then c + 32 else c

abbrev pub to_lowercase : Str → Str
to_lowercase = map lower

abbrev pub is_space : ℕ → Bool
is_space c = (leb 9 c && leb c 13) || (c == 32)

abbrev pub trim_start : Str → Str
trim_start [] = []
trim_start (c ∷ s) = let rest = trim_start s in if is_space c then rest else c ∷ s

-- A space stays if something that is no space follows.
abbrev pub keep_end : ℕ → Str → Str
keep_end c [] = if is_space c then [] else c ∷ []
keep_end c (d ∷ s) = c ∷ d ∷ s

abbrev pub trim_end : Str → Str
trim_end [] = []
trim_end (c ∷ s) = keep_end c (trim_end s)

abbrev pub trim : Str → Str
trim s = trim_end (trim_start s)

abbrev pub push_front : ℕ → List Str → List Str
push_front c [] = (c ∷ []) ∷ []
push_front c (part ∷ parts) = (c ∷ part) ∷ parts

-- `split` on one byte: the parts between the separators, at least one.
abbrev pub split : ℕ → Str → List Str
split sep [] = [] ∷ []
split sep (c ∷ s) = let parts = split sep s in if c == sep then [] ∷ parts else push_front c parts

abbrev pub strip_prefix : Str → Str → Option Str
strip_prefix [] s = some s
strip_prefix (p ∷ ps) [] = none
strip_prefix (p ∷ ps) (c ∷ s) = let rest = strip_prefix ps s in if p == c then rest else none

abbrev pub is_prefix : Option Str → Bool
is_prefix none = false
is_prefix (some _) = true

abbrev pub starts_with : Str → Str → Bool
starts_with prefix s = is_prefix (strip_prefix prefix s)

abbrev pub contains : Str → Str → Bool
contains part [] = starts_with part []
contains part (c ∷ s) = starts_with part (c ∷ s) || contains part s

abbrev pub ends_with : Str → Str → Bool
ends_with suffix [] = str_eq suffix []
ends_with suffix (c ∷ s) = str_eq suffix (c ∷ s) || ends_with suffix s

abbrev pub is_digit : ℕ → Bool
is_digit c = leb 48 c && leb c 57

abbrev pub all_digits : Str → Bool
all_digits [] = true
all_digits (c ∷ s) = is_digit c && all_digits s
