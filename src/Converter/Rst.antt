-- ===== src/Converter/Rst.antt =====
-- internal/converter/rst.go: the converter of reStructuredText, as a machine on the lines that are left. Texts
-- are the codes of ASCII characters, and the regular expressions of regexp are parameters, which give the
-- submatches that are read.
pub mod Lines
pub mod Directive
pub mod Turns
pub mod Blanks
pub mod Collapse
mod Tests
use repodocs_go.Base.{
  Bool, true, false, not, ◌&&◌, ◌||◌, ◌==◌, leb, ltb, ◌-◌, ◌+◌, String, List, [], ◌∷◌, ◌++◌, Option,
  none, some, ℕ, zero, suc, length, codes, ends_with, if◌then◌else◌,
}
use repodocs_go.Converter.Rst.Lines.{
  Line, is_blank, trim_right_blanks, trim_line, skip_blanks, indent_of, is_adornment_line,
  repeat_code, drop_codes, head_code, capture_body_below, without_last_blanks, write_lines,
}
use repodocs_go.Converter.Rst.Blanks.{lines_of, collapse_blank_lines}
use repodocs_go.Converter.Rst.Directive.{Regexps, process_inline, directive_of, write_directive}

-- `rstConverter`: the lines from `i` on, the output, the level of each adornment, and `nextLevel`.
pub record Rst : Type 0 where
  pub rest : List Line
  pub out : List ℕ
  pub headings : List (ℕ × ℕ)
  pub next_level : ℕ

abbrev pub level_in : ℕ → List (ℕ × ℕ) → Option ℕ
level_in ch [] = none
level_in ch ((c, level) ∷ headings) =
    let later = level_in ch headings in if c == ch then some level else later

-- `headingLevel`: the level, and the converter that knows it.
unfoldable pub heading_level : ℕ → Rst → ℕ × Rst
heading_level ch c = elim (level_in ch c.headings) [
  | some level ↦ (level, c)
  | none ↦
      let level = c.next_level + 1 in
      (level, record c { headings = (ch, level) ∷ c.headings; next_level = level })
]

abbrev pub at_most_six : ℕ → ℕ
at_most_six level = if ltb 6 level then 6 else level

-- The text below `line`, where it is the upper adornment of a heading.
abbrev sandwiched : Line → List Line → Option (Line × List Line)
sandwiched trimmed [] = none
sandwiched trimmed (l ∷ []) = none
sandwiched trimmed (l ∷ u ∷ rest) =
    let text = trim_right_blanks l in
    let under = trim_right_blanks u in
    if is_adornment_line trimmed
      && not (length text == 0)
      && is_adornment_line under
      && head_code trimmed == head_code under
    then some (text, rest)
    else none

-- The lines below the underline of `line`, and its character.
abbrev underlined : Line → List Line → Option (ℕ × List Line)
underlined trimmed [] = none
underlined trimmed (l ∷ rest) =
    let next = trim_right_blanks l in
    if is_adornment_line next && leb (length trimmed - 1) (length next)
    then some (head_code next, rest)
    else none

-- strings.TrimSuffix(trimmed, "::")
abbrev without_colons : Line → Line
without_colons [] = []
without_colons (c ∷ []) = c ∷ []
without_colons (c ∷ d ∷ []) = if c == 58 && d == 58 then [] else c ∷ d ∷ []
without_colons (c ∷ d ∷ e ∷ line) = c ∷ without_colons (d ∷ e ∷ line)

abbrev pub or_else : Option Rst → Rst → Rst
or_else (some c) d = c
or_else none d = d

-- What is returned once no line is left.
unfoldable pub collapsed : Option Rst → Option (List ℕ)
unfolding collapse_blank_lines
collapsed none = none
collapsed (some c) = some (collapse_blank_lines c.out)

module _ (re : Regexps) where
  unfoldable pub write_heading : ℕ → Line → Rst → Rst
  unfolding process_inline
  write_heading level text c = record c {
    out =
        c.out
        ++ repeat_code (at_most_six level) 35
        ++ codes " "
        ++ process_inline re text
        ++ codes "\n\n";
  }

  -- A heading with this adornment, and the lines that are left after it.
  unfoldable pub with_heading : ℕ → Line → List Line → Rst → Rst
  unfolding heading_level write_heading trim_line skip_blanks
  with_heading ch text rest c =
      let (level, c') = heading_level ch c in
      record (write_heading level (trim_line text) c') { rest = skip_blanks rest }

  -- `tryHeading`, with the first line of those that are left; none where it returns false.
  unfoldable pub try_heading : Line → List Line → Rst → Option Rst
  unfolding with_heading is_adornment_line
  try_heading line rest c =
      let trimmed = trim_right_blanks line in
      elim (sandwiched trimmed rest) [
        | some (text, rest') ↦ some (with_heading (head_code trimmed) text rest' c)
        | none ↦
            if length trimmed == 0
            then some (record c { rest = rest; out = c.out ++ codes "\n" })
            else elim (underlined trimmed rest) [
              | some (ch, rest') ↦ some (with_heading ch trimmed rest' c)
              | none ↦ none
            ]
      ]

  -- `tryDirective`
  unfoldable pub try_directive : Line → List Line → Rst → Option Rst
  unfolding write_directive directive_of
  try_directive line rest c = elim (directive_of re line) [
    | none ↦ none
    | some d ↦
        let (text, rest') = write_directive re d rest in
        some (record c { rest = rest'; out = c.out ++ text })
  ]

  abbrev head_text : Line → List ℕ
  head_text line =
      let text = trim_right_blanks line in
      if length text == 0 then [] else process_inline re text ++ codes ":\n\n"

  -- The code block after a line that ends in `::`, of the lines from the first that is not blank.
  abbrev literal_block : Line → List Line → Option (List ℕ × List Line)
  literal_block line [] = none
  literal_block line (l ∷ rest) =
      if leb (indent_of l) (indent_of line)
      then none
      else let (body, rest') = capture_body_below (indent_of line) (indent_of l) (l ∷ rest) in
        some (codes "```\n" ++ write_lines (without_last_blanks body) ++ codes "```\n\n", rest')

  unfoldable pub try_literal_block : Line → List Line → Rst → Option Rst
  unfolding skip_blanks capture_body_below process_inline
  try_literal_block line rest c =
      let trimmed = trim_right_blanks line in
      if not (ends_with trimmed (codes "::"))
      then none
      else elim (literal_block line (skip_blanks rest)) [
        | none ↦ none
        | some (block, rest') ↦
            some (record c {
              rest = rest';
              out = c.out ++ head_text (without_colons trimmed) ++ block;
            })
      ]

  -- What a line of a list becomes.
  unfoldable pub list_item : Line → Option (List ℕ)
  unfolding process_inline
  list_item line = elim (re.bullet line) [
    | some (indent, text) ↦ some (indent ++ codes "- " ++ process_inline re text ++ codes "\n")
    | none ↦ elim (re.enumerated line) [
      | some (indent, marker, text) ↦
          let number = if length marker == 1 && head_code marker == 35 then codes "1" else marker in
          some (indent ++ number ++ codes ". " ++ process_inline re text ++ codes "\n")
      | none ↦ none
    ]
  ]

  unfoldable pub try_list : Line → List Line → Rst → Option Rst
  unfolding list_item
  try_list line rest c = elim (list_item line) [
    | some text ↦ some (record c { rest = rest; out = c.out ++ text })
    | none ↦ none
  ]

  unfoldable pub emit_paragraph_line : Line → List Line → Rst → Rst
  unfolding process_inline is_blank
  emit_paragraph_line line rest c =
      if is_blank line
      then record c { rest = rest; out = c.out ++ codes "\n" }
      else if re.field_list line && length c.out == 0
      then record c { rest = rest }
      else record c { rest = rest; out = c.out ++ process_inline re line ++ codes "\n" }

  -- One turn of the loop of `convert`, on the first of the lines.
  unfoldable pub turn : Line → List Line → Rst → Rst
  unfolding try_heading try_directive try_literal_block try_list emit_paragraph_line
  turn line rest c = or_else (try_heading line rest c) (
      or_else (try_directive line rest c) (
        or_else (try_literal_block line rest c)
          (or_else (try_list line rest c) (emit_paragraph_line line rest c))))

  -- The loop, with so many turns at most; none where they are too few.
  unfoldable pub convert_from : ℕ → List Line → Rst → Option Rst
  unfolding turn
  convert_from fuel [] c = some c
  convert_from zero (l ∷ rest) c = none
  convert_from (suc fuel) (l ∷ rest) c = let c' = turn l rest c in convert_from fuel c'.rest c'

  -- `ConvertRST`: the text that is returned, with as many turns as there are lines.
  unfoldable pub convert_rst : List ℕ → Option (List ℕ)
  unfolding lines_of convert_from collapsed
  convert_rst input =
      let lines = lines_of input in
      collapsed (
        convert_from (length lines) lines
          (record { rest = lines; out = []; headings = []; next_level = 0 }))
