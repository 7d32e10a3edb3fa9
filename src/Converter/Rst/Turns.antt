-- ===== src/Converter/Rst/Turns.antt =====
-- internal/converter/rst.go: the loop of `convert` ends.
use repodocs_go.Base.{
  ◌==◌, Bool, ◌≡◌, refl, ap, ◌≤◌, arith, List, [], ◌∷◌, Option, none, some, ℕ, zero, suc, length,
  Bool-cases, Option-cases, inl, inr, true, false, not, ◌||◌, leb, ends_with, codes, if◌then◌else◌,
}
use repodocs_go.Converter.Rst.Lines.{
  head_code, trim_right_blanks, without_last_blanks, Line, is_blank, skip_blanks, indent_of,
  capture_options, capture_body_below, body_from, capture_indented_body, is_option,
  trim_left_blanks,
}
use repodocs_go.Converter.Rst.Directive.{
  Regexps, Directive, split_lines, directive_of, write_directive, indent_in,
}
use repodocs_go.Converter.Rst.Blanks.{lines_of, collapse_blank_lines}
use repodocs_go.Converter.Rst.Collapse.{Spaced, collapse_blank_lines-lines}
use repodocs_go.Converter.Rst.{
  collapsed, convert_rst, Rst, with_heading, sandwiched, underlined, try_heading, try_directive,
  literal_block, try_literal_block, try_list, list_item, emit_paragraph_line, or_else, turn,
  convert_from,
}

length-skip_blanks : (ls : List Line) → length (skip_blanks ls) ≤ length ls
unfolding skip_blanks
length-skip_blanks [] = omega arith
length-skip_blanks (l ∷ ls) = elim (Bool-cases (is_blank l)) [
  | inl blank ↦ rw blank (omega (arith, length-skip_blanks ls))
  | inr full ↦ rw full (omega arith)
]

length-capture_options : (ls : List Line) → length (capture_options ls).1 ≤ length ls
unfolding capture_options
length-capture_options [] = omega arith
length-capture_options (l ∷ ls) =
    elim (Bool-cases (is_blank l || not (is_option (trim_left_blanks l)))) [
      | inl ends ↦ rw ends (omega arith)
      | inr option ↦ rw option (omega (arith, length-capture_options ls))
    ]

length-capture_body :
    (base first : ℕ) (ls : List Line) → length (capture_body_below base first ls).1 ≤ length ls
unfolding capture_body_below
length-capture_body base first [] = omega arith
length-capture_body base first (l ∷ ls) =
    let more = length-capture_body base first ls in
    elim (Bool-cases (is_blank l)) [
      | inl blank ↦ rw blank (omega (arith, more))
      | inr full ↦ elim (Bool-cases (leb (indent_of l) base)) [
        | inl out ↦ rw (full, out) (omega arith)
        | inr in_ ↦ rw (full, in_) (omega (arith, more))
      ]
    ]

if-le :
    (b : Bool) (x y : List Line × List Line) (n : ℕ)
    → length x.1 ≤ n
    → length y.1 ≤ n
    → length (if b then x else y).1 ≤ n
if-le true x y n h k = h
if-le false x y n h k = k

length-body_from : (base : ℕ) (ls : List Line) → length (body_from base ls).1 ≤ length ls
unfolding body_from
length-body_from base [] = omega arith
length-body_from base (l ∷ ls) =
    let (body, rest) = capture_body_below base (indent_of l) (l ∷ ls) in
    if-le (leb (indent_of l) base) ([], l ∷ ls) (without_last_blanks body, rest) (length (l ∷ ls))
      (omega arith) (length-capture_body base (indent_of l) (l ∷ ls))

length-capture_indented_body :
    (base : ℕ) (ls : List Line) → length (capture_indented_body base ls).1 ≤ length ls
unfolding capture_indented_body
length-capture_indented_body base ls =
    omega (arith, length-body_from base (skip_blanks ls), length-skip_blanks ls)

abbrev length_of : {A : Type 0} → Option (A × List Line) → ℕ
length_of none = 0
length_of (some (a, ls)) = length ls

if-some :
    {A : Type 0} (b : Bool) {p q : A}
    → ◌≡◌ {A = Option A} (if◌then◌else◌ {A = Option A} b none (some p)) (some q)
    → ◌≡◌ {A = Option A} (some p) (some q)
if-some true h = absurd cc
if-some false h = h

-- The lines that are left where a test succeeds.
length-if :
    {A : Type 0} (b : Bool) (x : A) (ls : List Line) {y : A} {rest : List Line}
    → ◌≡◌ {A = Option (A × List Line)}
        (if◌then◌else◌ {A = Option (A × List Line)} b (some (x, ls)) none)
        (some (y, rest))
    → length rest ≤ length ls
length-if true x ls h = omega (arith, ap length_of h)
length-if false x ls h = absurd cc

module _ (re : Regexps) where
  length-write_directive :
      (d : Directive) (ls : List Line) → length (write_directive re d ls).1 ≤ length ls
  unfolding write_directive
  length-write_directive d ls = omega (
    arith,
    length-capture_indented_body (indent_in re d) (capture_options ls).1,
    length-capture_options ls,
  )

  -- What is left, where a function returned true.
  abbrev Leaves : ℕ → Option Rst → Type 0
  Leaves n none = Unit
  Leaves n (some c) = length c.rest ≤ n

  heading-Leaves :
      (ch : ℕ) (text : Line) (ls : List Line) (c : Rst) (n : ℕ)
      → length ls ≤ n
      → length (with_heading re ch text ls c).rest ≤ n
  unfolding with_heading
  heading-Leaves ch text ls c n h = omega (arith, h, length-skip_blanks ls)

  Leaves-later : (n m : ℕ) (o : Option Rst) → n ≤ m → Leaves n o → Leaves m o
  Leaves-later n m none le h = tt
  Leaves-later n m (some c) le h = omega (arith, le, h)

  length-sandwiched :
      (t : Line) (ls : List Line) (text : Line) (rest : List Line)
      → sandwiched t ls ≡ some (text, rest)
      → length rest ≤ length ls
  length-sandwiched t [] text rest h = absurd cc
  length-sandwiched t (l ∷ []) text rest h = absurd cc
  length-sandwiched t (l ∷ u ∷ ls) text rest h = omega (arith, length-if _ _ ls h)

  length-underlined :
      (t : Line) (ls : List Line) (ch : ℕ) (rest : List Line)
      → underlined t ls ≡ some (ch, rest)
      → length rest ≤ length ls
  length-underlined t [] ch rest h = absurd cc
  length-underlined t (l ∷ ls) ch rest h = omega (arith, length-if _ _ ls h)

  try_heading-Leaves :
      (l : Line) (ls : List Line) (c : Rst) → Leaves (length ls) (try_heading re l ls c)
  unfolding try_heading
  try_heading-Leaves l ls c =
      let t = trim_right_blanks l in
      elim (Option-cases (sandwiched t ls)) [
        | inr ((text, rest), e) ↦
            rw (try_heading, e)
              (heading-Leaves (head_code t) text rest c (length ls)
                (length-sandwiched t ls text rest e))
        | inl alone ↦ elim (Bool-cases (length t == 0)) [
          | inl blank ↦ rw (try_heading, alone, blank) (omega arith)
          | inr full ↦ elim (Option-cases (underlined t ls)) [
            | inl none_ ↦ rw (try_heading, alone, full, none_) tt
            | inr ((ch, rest), e) ↦
                rw (try_heading, alone, full, e)
                  (heading-Leaves ch t rest c (length ls) (length-underlined t ls ch rest e))
          ]
        ]
      ]

  try_directive-Leaves :
      (l : Line) (ls : List Line) (c : Rst) → Leaves (length ls) (try_directive re l ls c)
  unfolding try_directive
  try_directive-Leaves l ls c = elim (Option-cases (directive_of re l)) [
    | inl none_ ↦ rw (try_directive, none_) tt
    | inr (d, e) ↦ rw (try_directive, e) (length-write_directive d ls)
  ]

  length-literal_block :
      (l : Line) (ls : List Line) (block : List ℕ) (rest : List Line)
      → literal_block re l ls ≡ some (block, rest)
      → length rest ≤ length ls
  length-literal_block l [] block rest h = absurd cc
  length-literal_block l (m ∷ ls) block rest h =
      omega (
        arith,
        ap length_of (if-some _ h),
        length-capture_body (indent_of l) (indent_of m) (m ∷ ls),
      )

  try_literal_block-Leaves :
      (l : Line) (ls : List Line) (c : Rst) → Leaves (length ls) (try_literal_block re l ls c)
  unfolding try_literal_block
  try_literal_block-Leaves l ls c =
      elim (Bool-cases (not (ends_with (trim_right_blanks l) (codes "::")))) [
        | inl other ↦ rw (try_literal_block, other) tt
        | inr colons ↦ elim (Option-cases (literal_block re l (skip_blanks ls))) [
          | inl none_ ↦ rw (try_literal_block, colons, none_) tt
          | inr ((block, rest), e) ↦
              rw (try_literal_block, colons, e)
                (omega (
                  arith,
                  length-literal_block l (skip_blanks ls) block rest e,
                  length-skip_blanks ls,
                ))
        ]
      ]

  try_list-Leaves : (l : Line) (ls : List Line) (c : Rst) → Leaves (length ls) (try_list re l ls c)
  unfolding try_list
  try_list-Leaves l ls c = elim (Option-cases (list_item re l)) [
    | inl none_ ↦ rw (try_list, none_) tt
    | inr (text, e) ↦ rw (try_list, e) (omega arith)
  ]

  or_else-Leaves :
      (n : ℕ) (o : Option Rst) (d : Rst)
      → Leaves n o
      → length d.rest ≤ n
      → length (or_else o d).rest ≤ n
  or_else-Leaves n none d h k = k
  or_else-Leaves n (some c) d h k = h

  paragraph-rest :
      (l : Line) (ls : List Line) (c : Rst)
      → length (emit_paragraph_line re l ls c).rest ≤ length ls
  unfolding emit_paragraph_line
  paragraph-rest l ls c = ground arith

  -- Each turn consumes its first line at least.
  length-turn : (l : Line) (ls : List Line) (c : Rst) → length (turn re l ls c).rest ≤ length ls
  unfolding turn
  length-turn l ls c =
      or_else-Leaves (length ls) (try_heading re l ls c)
        (or_else (try_directive re l ls c) (
          or_else (try_literal_block re l ls c)
            (or_else (try_list re l ls c) (emit_paragraph_line re l ls c))))
        (try_heading-Leaves l ls c)
        (or_else-Leaves (length ls) (try_directive re l ls c)
          (or_else (try_literal_block re l ls c)
            (or_else (try_list re l ls c) (emit_paragraph_line re l ls c)))
          (try_directive-Leaves l ls c)
          (or_else-Leaves (length ls) (try_literal_block re l ls c)
            (or_else (try_list re l ls c) (emit_paragraph_line re l ls c))
            (try_literal_block-Leaves l ls c)
            (or_else-Leaves (length ls) (try_list re l ls c) (emit_paragraph_line re l ls c)
              (try_list-Leaves l ls c) (paragraph-rest l ls c))))

  -- Whatever the regular expressions match, the loop of `convert` ends: as many turns are enough as there are lines.
  pub convert_from-returns :
      (fuel : ℕ) (ls : List Line) (c : Rst)
      → length ls ≤ fuel
      → (c' : Rst) × (convert_from re fuel ls c ≡ some c')
  unfolding convert_from
  convert_from-returns zero [] c h = (c, refl)
  convert_from-returns (suc fuel) [] c h = (c, refl)
  convert_from-returns zero (l ∷ ls) c h = absurd (omega (arith, h))
  convert_from-returns (suc fuel) (l ∷ ls) c h =
      convert_from-returns fuel (turn re l ls c).rest (turn re l ls c)
        (omega (arith, h, length-turn l ls c))

  -- Whatever the regular expressions match, ConvertRST returns a text, and no two lines of it in a row are blank.
  pub convert_rst-Spaced :
      (input : List ℕ)
      → (out : List ℕ) × (convert_rst re input ≡ some out) × Spaced (split_lines out)
  unfolding convert_rst collapsed
  convert_rst-Spaced input =
      let lines = lines_of input in
      let c : Rst = record { rest = lines; out = []; headings = []; next_level = 0 } in
      let (c', e) = convert_from-returns (length lines) lines c (omega arith) in
      (collapse_blank_lines c'.out, ap collapsed e, (collapse_blank_lines-lines c'.out).1)
