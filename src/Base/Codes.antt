-- ===== src/Base/Codes.antt =====
-- Texts as lists of code points, with the tests of Go's strings package on lower-cased ASCII text.
use Prim.Native.Nat.{ℕ, ◌+◌}
use Prim.Native.Char.{code}
use Prim.Native.String as Text
use Prim.Native.String.{String}
use mathlib.Core.Bool.{Bool, true, false, ◌&&◌, ◌||◌}
use mathlib.Core.List.{List, [], ◌∷◌}
use package.text.Mathlib.Text.{◌==◌ as str_eq}
use repodocs_go.Base.Tests.{leb, ◌==◌, if◌then◌else◌}

-- strings.ToLower, of one ASCII letter
unfoldable pub lower_code : ℕ → ℕ
lower_code c = if leb 65 c && leb c 90 then c + 32 else c

abbrev pub codes : String → List ℕ
codes Text.[] = []
codes (Text.◌∷◌ c s) = code c ∷ codes s

abbrev pub lower_codes : List ℕ → List ℕ
unfolding lower_code
lower_codes [] = []
lower_codes (c ∷ cs) = lower_code c ∷ lower_codes cs

abbrev pub same_codes : List ℕ → List ℕ → Bool
same_codes [] [] = true
same_codes (c ∷ cs) (d ∷ ds) = c == d && same_codes cs ds
same_codes _ _ = false

abbrev pub ends_with : List ℕ → List ℕ → Bool
ends_with [] t = same_codes [] t
ends_with (c ∷ cs) t = same_codes (c ∷ cs) t || ends_with cs t

-- strings.HasSuffix(strings.ToLower(s), t), for an ASCII suffix
unfoldable pub lower_ends_with : String → String → Bool
unfolding lower_code
lower_ends_with s t = ends_with (lower_codes (codes s)) (codes t)

abbrev pub begins_with : List ℕ → List ℕ → Bool
begins_with cs [] = true
begins_with [] (d ∷ ds) = false
begins_with (c ∷ cs) (d ∷ ds) = c == d && begins_with cs ds

abbrev pub holds : List ℕ → List ℕ → Bool
holds [] t = begins_with [] t
holds (c ∷ cs) t = begins_with (c ∷ cs) t || holds cs t

-- strings.Contains(strings.ToLower(s), t), for an ASCII text
unfoldable pub lower_contains : String → String → Bool
unfolding lower_code
lower_contains s t = holds (lower_codes (codes s)) (codes t)

-- What comes before a character, or all.
abbrev pub before : ℕ → List ℕ → List ℕ
before d [] = []
before d (c ∷ cs) = let rest = before d cs in if c == d then [] else c ∷ rest

-- unicode.IsSpace
unfoldable pub is_space : ℕ → Bool
is_space c =
    c == 32
    || leb 9 c && leb c 13
    || c == 133
    || c == 160
    || c == 5760
    || leb 8192 c && leb c 8202
    || c == 8232
    || c == 8233
    || c == 8239
    || c == 8287
    || c == 12288

abbrev trim_left : String → String
unfolding is_space
trim_left Text.[] = ""
trim_left (Text.◌∷◌ c s) =
    let rest = trim_left s in if is_space (code c) then rest else Text.◌∷◌ c s

abbrev trim_right : String → String
unfolding is_space
trim_right Text.[] = ""
trim_right (Text.◌∷◌ c s) =
    let rest = trim_right s in if is_space (code c) && str_eq rest "" then "" else Text.◌∷◌ c rest

-- strings.TrimSpace; the carriage return before the end of a line is one of the spaces.
unfoldable pub trim_space : String → String
unfolding is_space
trim_space s = trim_left (trim_right s)

-- strings.HasPrefix(strings.ToLower(s), t), for an ASCII prefix
unfoldable pub lower_starts_with : String → String → Bool
unfolding lower_code
lower_starts_with s t = begins_with (lower_codes (codes s)) (codes t)
