-- ===== src/Converter/Rst/Tests.antt =====
-- internal/converter/rst.go: runs of the theorems on a small document.
use repodocs_go.Base.{refl, List, ◌≡◌, ℕ, codes, none, some, false}
use repodocs_go.Converter.Rst.{convert_rst}
use repodocs_go.Converter.Rst.Directive.{Regexps, split_lines}
use repodocs_go.Converter.Rst.Blanks.{collapse_blank_lines}
use repodocs_go.Converter.Rst.Collapse.{Spaced, full_lines, collapse_blank_lines-lines}
use repodocs_go.Converter.Rst.Turns.{convert_rst-Spaced}

-- No expression matches.
abbrev plain : Regexps
plain = record {
  inline_literal = λ s. s;
  hyperlink = λ s. s;
  role = λ s. s;
  simple_ref = λ s. s;
  code_block = λ l. none;
  admonition = λ l. none;
  image = λ l. none;
  dropped = λ l. none;
  link_target = λ l. none;
  comment = λ l. none;
  bullet = λ l. none;
  enumerated = λ l. none;
  field_list = λ l. false;
  base_name = λ l. l;
}

abbrev document : List ℕ
document = codes "Title\n=====\n\n\nRun::\n\n   go\n"

abbrev written : List ℕ
written = codes "# Title\n\nRun:\n\n```\ngo\n```\n"

document-converted : convert_rst plain document ≡ some written
unfolding convert_rst
document-converted = refl

convert_rst-Spaced_example :
    (out : List ℕ) × (convert_rst plain document ≡ some out) × Spaced (split_lines out)
convert_rst-Spaced_example = convert_rst-Spaced plain document

collapse_blank_lines-lines_example :
    (full_lines (split_lines (collapse_blank_lines document)) ≡ full_lines (split_lines document))
    × Spaced (split_lines (collapse_blank_lines document))
collapse_blank_lines-lines_example = collapse_blank_lines-lines document
