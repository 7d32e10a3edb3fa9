-- ===== src/Converter/Rst/Lines.antt =====
-- internal/converter/rst.go: blank lines, indentation and adornments.
use repodocs_go.Base.{
  Bool, true, false, not, ◌&&◌, ◌||◌, ◌==◌, leb, List, [], ◌∷◌, ◌++◌, ℕ, zero, suc, length, codes,
  is_space, if◌then◌else◌,
}

abbrev pub Line : Type 0
Line = List ℕ

-- A space or a tab.
abbrev pub is_tab_or_space : ℕ → Bool
is_tab_or_space c = c == 32 || c == 9

-- strings.TrimSpace(l) == ""
unfoldable pub is_blank : Line → Bool
unfolding is_space
is_blank [] = true
is_blank (c ∷ cs) = is_space c && is_blank cs

-- strings.TrimRight(l, " \t"), and TrimLeft
abbrev pub trim_right_blanks : Line → Line
trim_right_blanks [] = []
trim_right_blanks (c ∷ cs) =
    let rest = trim_right_blanks cs in
    if is_tab_or_space c && length rest == 0 then [] else c ∷ rest

abbrev pub trim_left_blanks : Line → Line
trim_left_blanks [] = []
trim_left_blanks (c ∷ cs) =
    let rest = trim_left_blanks cs in if is_tab_or_space c then rest else c ∷ cs

-- strings.TrimSpace
unfoldable pub trim_start : Line → Line
unfolding is_space
trim_start [] = []
trim_start (c ∷ cs) = let rest = trim_start cs in if is_space c then rest else c ∷ cs

unfoldable pub trim_end : Line → Line
unfolding is_space
trim_end [] = []
trim_end (c ∷ cs) =
    let rest = trim_end cs in if is_space c && length rest == 0 then [] else c ∷ rest

unfoldable pub trim_line : Line → Line
unfolding trim_start trim_end
trim_line l = trim_start (trim_end l)

unfoldable pub skip_blanks : List Line → List Line
unfolding is_blank
skip_blanks [] = []
skip_blanks (l ∷ ls) = let rest = skip_blanks ls in if is_blank l then rest else l ∷ ls

abbrev pub indent_of : Line → ℕ
indent_of [] = 0
indent_of (c ∷ cs) = let more = indent_of cs in if is_tab_or_space c then suc more else 0

abbrev pub head_code : Line → ℕ
head_code [] = 0
head_code (c ∷ cs) = c

-- `headerRuneSet`
abbrev header_codes : List ℕ
header_codes = codes "=-~^\"*+#`:.'_"

abbrev is_one_of : ℕ → List ℕ → Bool
is_one_of c [] = false
is_one_of c (d ∷ ds) = c == d || is_one_of c ds

abbrev all_same : ℕ → Line → Bool
all_same ch [] = true
all_same ch (c ∷ cs) = c == ch && all_same ch cs

unfoldable pub is_adornment_line : Line → Bool
is_adornment_line s =
    leb 3 (length s) && is_one_of (head_code s) header_codes && all_same (head_code s) s

abbrev pub repeat_code : ℕ → ℕ → List ℕ
repeat_code zero c = []
repeat_code (suc n) c = c ∷ repeat_code n c

-- `l[n:]`
abbrev pub drop_codes : ℕ → Line → Line
drop_codes zero l = l
drop_codes (suc n) [] = []
drop_codes (suc n) (c ∷ cs) = drop_codes n cs

-- A line of a body whose first line is indented by `first`.
abbrev pub dedented : ℕ → Line → Line
dedented first l = if leb first (length l) then drop_codes first l else trim_left_blanks l

-- The lines of a body, up to the first that is not blank and not indented below `base`, and the lines left.
unfoldable pub capture_body_below : ℕ → ℕ → List Line → List Line × List Line
unfolding is_blank
capture_body_below base first [] = ([], [])
capture_body_below base first (l ∷ ls) =
    let (body, rest) = capture_body_below base first ls in
    if is_blank l
    then ([] ∷ body, rest)
    else if leb (indent_of l) base
    then ([], l ∷ ls)
    else (dedented first l ∷ body, rest)

abbrev pub without_last_blanks : List Line → List Line
without_last_blanks [] = []
without_last_blanks (l ∷ ls) =
    let rest = without_last_blanks ls in if length l == 0 && length rest == 0 then [] else l ∷ rest

-- `captureIndentedBody`, of the lines from the first that is not blank.
unfoldable pub body_from : ℕ → List Line → List Line × List Line
unfolding capture_body_below
body_from base [] = ([], [])
body_from base (l ∷ ls) =
    if leb (indent_of l) base
    then ([], l ∷ ls)
    else let (body, rest) = capture_body_below base (indent_of l) (l ∷ ls) in
      (without_last_blanks body, rest)

unfoldable pub capture_indented_body : ℕ → List Line → List Line × List Line
unfolding body_from skip_blanks
capture_indented_body base ls = body_from base (skip_blanks ls)

-- What stands before the first colon, where there is one.
abbrev option_name : Line → List ℕ → Bool
option_name [] name = false
option_name (c ∷ cs) name =
    let later = option_name cs (c ∷ name) in
    if c == 58 then not (length name == 0) else not (is_tab_or_space c) && later

-- `:option: value`: a name between two colons that has no blank in it.
unfoldable pub is_option : Line → Bool
is_option [] = false
is_option (c ∷ cs) = c == 58 && option_name cs []

-- `captureOptions`
unfoldable pub capture_options : List Line → List Line × List Line
unfolding is_blank is_option
capture_options [] = ([], [])
capture_options (l ∷ ls) =
    let (options, rest) = capture_options ls in
    let t = trim_left_blanks l in
    if is_blank l || not (is_option t) then ([], l ∷ ls) else (t ∷ options, rest)

-- Each line with its end.
abbrev pub write_lines : List Line → List ℕ
write_lines [] = []
write_lines (l ∷ ls) = l ++ 10 ∷ write_lines ls
