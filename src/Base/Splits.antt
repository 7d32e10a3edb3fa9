-- ===== src/Base/Splits.antt =====
-- Go's strings package on texts: prefixes, suffixes and splitting.
use Prim.Native.Nat.{ℕ, ◌+◌}
use Prim.Native.Char.{code}
use Prim.Native.String as Text
use Prim.Native.String.{String, len, slice}
use mathlib.Core.Bool.{Bool}
use mathlib.Core.List.{List, [], ◌∷◌}
use package.text.Mathlib.Text.{◌==◌ as str_eq, starts_with}
use repodocs_go.Base.Tests.{if◌then◌else◌, ◌==◌, ltb}
use repodocs_go.Base.Codes.{codes, holds, ends_with}

-- strings.Contains and strings.HasSuffix
abbrev pub has_text : String → String → Bool
has_text s t = holds (codes s) (codes t)

abbrev pub has_suffix : String → String → Bool
has_suffix s t = ends_with (codes s) (codes t)

-- The bytes of a character in UTF-8, and Go's len of a string.
abbrev code_bytes : ℕ → ℕ
code_bytes c = if ltb c 128 then 1 else if ltb c 2048 then 2 else if ltb c 65536 then 3 else 4

abbrev pub byte_length : String → ℕ
byte_length Text.[] = 0
byte_length (Text.◌∷◌ c s) = code_bytes (code c) + byte_length s

-- strings.TrimPrefix
abbrev pub trim_prefix : String → String → String
trim_prefix s t = if starts_with s t then slice s (len t) (len s) else s

-- strings.TrimSuffix
abbrev pub trim_suffix : String → String → String
trim_suffix Text.[] t = ""
trim_suffix (Text.◌∷◌ c s) t =
    let rest = trim_suffix s t in if str_eq (Text.◌∷◌ c s) t then "" else Text.◌∷◌ c rest

abbrev pub on_first : (String → String) → List String → List String
on_first f [] = []
on_first f (s ∷ ss) = f s ∷ ss

-- strings.Split, on one character
abbrev pub split : ℕ → String → List String
split d Text.[] = "" ∷ []
split d (Text.◌∷◌ c s) =
    let rest = split d s in if code c == d then "" ∷ rest else on_first (Text.◌∷◌ c) rest

-- strings.ReplaceAll, of one character
abbrev pub replace_code : ℕ → String → String → String
replace_code d t Text.[] = ""
replace_code d t (Text.◌∷◌ c s) =
    let rest = replace_code d t s in if code c == d then Text.◌++◌ t rest else Text.◌∷◌ c rest
