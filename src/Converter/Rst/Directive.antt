-- ===== src/Converter/Rst/Directive.antt =====
-- internal/converter/rst.go: the directives, the links' targets and the comments.
use repodocs_go.Base.{
  Bool, ◌==◌, List, [], ◌∷◌, ◌++◌, Option, none, some, ℕ, length, codes, same_codes, begins_with,
  lower_codes, lower_code, String, if◌then◌else◌,
}
use repodocs_go.Converter.Rst.Lines.{
  Line, trim_line, capture_options, capture_indented_body, write_lines, drop_codes,
}

pub record Regexps : Type 0 where
  -- the replacement of all matches of each of the four expressions of processInline
  pub inline_literal : List ℕ → List ℕ
  pub hyperlink : List ℕ → List ℕ
  pub role : List ℕ → List ℕ
  pub simple_ref : List ℕ → List ℕ
  -- the submatches: the indentation first, and for a list the text last
  pub code_block : Line → Option (Line × Line)
  pub admonition : Line → Option (Line × Line × Line)
  pub image : Line → Option (Line × Line)
  pub dropped : Line → Option Line
  pub link_target : Line → Option Line
  pub comment : Line → Option Line
  pub bullet : Line → Option (Line × Line)
  pub enumerated : Line → Option (Line × Line × Line)
  pub field_list : Line → Bool
  -- filepath.Base without the extension of filepath.Ext
  pub base_name : Line → Line

unfoldable pub process_inline : Regexps → List ℕ → List ℕ
process_inline re s = re.simple_ref (re.role (re.hyperlink (re.inline_literal s)))

-- `admonitionTitle`, with the title of those that are not there.
abbrev titles : List (String × String)
titles =
    ("note", "NOTE")
    ∷ ("warning", "WARNING")
    ∷ ("tip", "TIP")
    ∷ ("important", "IMPORTANT")
    ∷ ("caution", "CAUTION")
    ∷ ("hint", "TIP")
    ∷ ("attention", "IMPORTANT")
    ∷ ("danger", "WARNING")
    ∷ ("error", "WARNING")
    ∷ ("admonition", "NOTE")
    ∷ ("seealso", "NOTE")
    ∷ []

abbrev title_in : List (String × String) → Line → List ℕ
title_in [] kind = codes "NOTE"
title_in ((k, title) ∷ rest) kind =
    let later = title_in rest kind in if same_codes (codes k) kind then codes title else later

-- A directive with its indentation.
pub data Directive : Type 0 where
  code_block : ℕ → Line → Directive
  admonition : ℕ → Line → Line → Directive
  image : ℕ → Line → Directive
  dropped : ℕ → Directive

abbrev or_dropped : Option Line → Option Directive → Option Directive
or_dropped (some indent) d = some (dropped (length indent))
or_dropped none d = d

-- Which of the expressions matches first, in the order of `tryDirective`.
unfoldable pub directive_of : Regexps → Line → Option Directive
directive_of re line = elim (re.code_block line) [
  | some (indent, lang) ↦ some (code_block (length indent) lang)
  | none ↦ elim (re.admonition line) [
    | some (indent, kind, first) ↦ some (admonition (length indent) kind first)
    | none ↦ elim (re.image line) [
      | some (indent, path) ↦ some (image (length indent) path)
      | none ↦
          or_dropped (re.dropped line)
            (or_dropped (re.link_target line) (or_dropped (re.comment line) none))
    ]
  ]
]

-- strings.Join(lines, "\n")
abbrev pub join_body : List Line → List ℕ
join_body [] = []
join_body (l ∷ []) = l
join_body (l ∷ m ∷ ls) = l ++ 10 ∷ join_body (m ∷ ls)

abbrev pub on_head : ℕ → List Line → List Line
on_head c [] = []
on_head c (p ∷ ps) = (c ∷ p) ∷ ps

-- strings.Split(s, "\n")
abbrev pub split_lines : List ℕ → List Line
split_lines [] = [] ∷ []
split_lines (c ∷ cs) = let rest = split_lines cs in if c == 10 then [] ∷ rest else on_head c rest

module _ (re : Regexps) where
  -- The lines of a block of an admonition.
  unfoldable pub quoted : List Line → List ℕ
  unfolding process_inline
  quoted [] = []
  quoted (l ∷ ls) =
      let rest = quoted ls in
      if length l == 0
      then codes ">\n" ++ rest
      else codes "> " ++ process_inline re l ++ codes "\n" ++ rest

  unfoldable pub blocks_of : Line → List ℕ → List ℕ
  unfolding quoted
  blocks_of first body =
      if length first == 0
      then quoted (split_lines body)
      else quoted (split_lines first) ++ codes ">\n" ++ quoted (split_lines body)

  -- The text of the last `:alt:` option, or that of before.
  unfoldable pub alt_text : List Line → Line → Line
  unfolding trim_line
  alt_text [] alt = alt
  alt_text (o ∷ options) alt =
      alt_text options (if begins_with o (codes ":alt:") then trim_line (drop_codes 5 o) else alt)

  -- What is written for a directive, of its body.
  write_body : Directive → List Line → List Line → List ℕ
  unfolding trim_line blocks_of alt_text lower_code
  write_body (code_block indent lang) options body =
      codes "```" ++ lang ++ codes "\n" ++ write_lines body ++ codes "```\n\n"
  write_body (admonition indent kind first) options body =
      codes "> [!"
      ++ title_in titles (lower_codes kind)
      ++ codes "]\n"
      ++ blocks_of (trim_line first) (join_body body)
      ++ codes "\n"
  write_body (image indent path) options body =
      codes "![" ++ alt_text options (re.base_name path) ++ codes "](" ++ path ++ codes ")\n\n"
  write_body (dropped indent) options body = []

  abbrev pub indent_in : Directive → ℕ
  indent_in (code_block indent lang) = indent
  indent_in (admonition indent kind first) = indent
  indent_in (image indent path) = indent
  indent_in (dropped indent) = indent

  -- What is written, and the lines left of those after the directive's own.
  unfoldable pub write_directive : Directive → List Line → List ℕ × List Line
  unfolding write_body capture_options capture_indented_body
  write_directive d rest =
      let (options, after) = capture_options rest in
      let (body, left) = capture_indented_body (indent_in d) after in
      (write_body d options body, left)
