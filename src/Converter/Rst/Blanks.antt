-- ===== src/Converter/Rst/Blanks.antt =====
-- internal/converter/rst.go: the ends of lines of the input, and the blank lines of the output.
use repodocs_go.Base.{
  ltb, [], ◌==◌, ◌&&◌, if◌then◌else◌, ◌∷◌, ◌++◌, false, true, Bool, ℕ, suc, List,
}
use repodocs_go.Converter.Rst.Lines.{Line, is_blank, head_code}
use repodocs_go.Converter.Rst.Directive.{split_lines}

-- strings.ReplaceAll(text, "\r\n", "\n")
abbrev without_returns : List ℕ → List ℕ
without_returns [] = []
without_returns (c ∷ cs) =
    let rest = without_returns cs in if c == 13 && head_code cs == 10 then rest else c ∷ rest

-- strings.ReplaceAll(text, "\r", "\n")
abbrev with_newlines : List ℕ → List ℕ
with_newlines [] = []
with_newlines (c ∷ cs) = let rest = with_newlines cs in if c == 13 then 10 ∷ rest else c ∷ rest

-- The lines of `newRSTConverter`.
unfoldable pub lines_of : List ℕ → List Line
lines_of input = split_lines (with_newlines (without_returns input))

-- What stands between a line and the last one that was written.
unfoldable pub separator : ℕ → Bool → List ℕ
separator blanks started =
    if started && ltb 0 blanks then 10 ∷ 10 ∷ [] else if started then 10 ∷ [] else []

-- The loop of `collapseBlankLines`, with its `blanks` and `started`.
unfoldable pub collapse_from : ℕ → Bool → List Line → List ℕ
unfolding is_blank separator
collapse_from blanks started [] = if started then 10 ∷ [] else []
collapse_from blanks started (p ∷ ps) = elim (is_blank p) [
  | true ↦ collapse_from (suc blanks) started ps
  | false ↦ separator blanks started ++ p ++ collapse_from 0 true ps
]

unfoldable pub collapse_blank_lines : List ℕ → List ℕ
unfolding collapse_from
collapse_blank_lines input = collapse_from 0 false (split_lines input)
