-- ===== src/Converter/Rst/Collapse.antt =====
-- internal/converter/rst.go: what collapseBlankLines keeps, and what it leaves between.
use repodocs_go.Base.{
  if◌then◌else◌, Bool, true, false, not, ◌&&◌, ◌==◌, ◌≡◌, refl, ap, ◌∙◌, sym, subst, arith, ℕ, zero,
  suc, List, [], ◌∷◌, ◌++◌, Bool-cases, inl, inr,
}
use repodocs_go.Converter.Rst.Lines.{Line, is_blank}
use repodocs_go.Converter.Rst.Directive.{split_lines, on_head}
use repodocs_go.Converter.Rst.Blanks.{separator, collapse_from, collapse_blank_lines}

-- The lines that are not blank.
abbrev pub full_lines : List Line → List Line
full_lines [] = []
full_lines (l ∷ ls) = let rest = full_lines ls in if is_blank l then rest else l ∷ rest

-- No code of the line is that of a newline.
abbrev one_line : Line → Bool
one_line [] = true
one_line (c ∷ cs) = not (c == 10) && one_line cs

abbrev OneLines : List Line → Type 0
OneLines [] = Unit
OneLines (l ∷ ls) = (one_line l ≡ true) × OneLines ls

-- No two lines in a row are blank.
abbrev pub Spaced : List Line → Type 0
Spaced [] = Unit
Spaced (l ∷ []) = Unit
Spaced (l ∷ m ∷ ls) = (is_blank l && is_blank m ≡ false) × Spaced (m ∷ ls)

on_head-OneLines :
    (c : ℕ) (ls : List Line) → c == 10 ≡ false → OneLines ls → OneLines (on_head c ls)
on_head-OneLines c [] other h = tt
on_head-OneLines c (l ∷ ls) other (h, hs) = (rw (other, h) refl, hs)

split_lines-OneLines : (cs : List ℕ) → OneLines (split_lines cs)
split_lines-OneLines [] = (refl, tt)
split_lines-OneLines (c ∷ cs) = elim (Bool-cases (c == 10)) [
  | inl ends ↦ rw ends (refl, split_lines-OneLines cs)
  | inr other ↦ rw other (on_head-OneLines c (split_lines cs) other (split_lines-OneLines cs))
]

-- A line that another follows is the first of the lines.
split_lines-line :
    (p : Line) (cs : List ℕ) → one_line p ≡ true → split_lines (p ++ 10 ∷ cs) ≡ p ∷ split_lines cs
split_lines-line [] cs h = refl
split_lines-line (c ∷ p) cs h =
    let other : c == 10 ≡ false = ground arith in
    let later : one_line p ≡ true = ground arith in rw (other, split_lines-line p cs later) refl

blank_nil : is_blank [] ≡ true
unfolding is_blank
blank_nil = refl

-- What is written after the line `p`, for the lines `ps` that follow it.
abbrev Kept : Line → List ℕ → List Line → Type 0
Kept p text ps =
    (tail : List Line) × (split_lines (p ++ text) ≡ p ∷ tail)
    × (full_lines tail ≡ full_lines ps)
    × Spaced (p ∷ tail)

Kept-none : (p : Line) → one_line p ≡ true → is_blank p ≡ false → Kept p (10 ∷ []) []
Kept-none p one full = ([] ∷ [], split_lines-line p [] one, rw blank_nil refl, (rw full refl, tt))

separator_blank : (n : ℕ) → separator (suc n) true ≡ 10 ∷ 10 ∷ []
unfolding separator
separator_blank n = ground arith

collapse-full :
    (q : Line) (ps : List Line) (blanks : ℕ) (started : Bool)
    → is_blank q ≡ false
    → collapse_from blanks started (q ∷ ps)
      ≡ separator blanks started ++ q ++ collapse_from 0 true ps
unfolding collapse_from
collapse-full q ps blanks started full = rw (collapse_from, full) refl

Kept-next :
    (blanks : ℕ) (p q : Line) (text : List ℕ) (ps : List Line)
    → one_line p ≡ true
    → is_blank p ≡ false
    → is_blank q ≡ false
    → Kept q text ps
    → Kept p (separator blanks true ++ q ++ text) (q ∷ ps)
unfolding separator
Kept-next zero p q text ps one full full_q (tail, splits, kept, spaced) = (
  q ∷ tail,
  split_lines-line p (q ++ text) one ∙ ap (λ ls. p ∷ ls) splits,
  rw (full_q, kept) refl,
  (rw full refl, spaced),
)
Kept-next (suc n) p q text ps one full full_q (tail, splits, kept, spaced) =
    rw (separator_blank n) (
      [] ∷ q ∷ tail,
      split_lines-line p (10 ∷ q ++ text) one ∙ ap (λ ls. p ∷ [] ∷ ls) splits,
      rw (blank_nil, full_q, kept) refl,
      (rw full refl, (rw (blank_nil, full_q) refl, spaced)),
    )

collapse_from-Kept :
    (p : Line) (ps : List Line) (blanks : ℕ)
    → one_line p ≡ true
    → is_blank p ≡ false
    → OneLines ps
    → Kept p (collapse_from blanks true ps) ps
unfolding collapse_from
collapse_from-Kept p [] blanks one full h = Kept-none p one full
collapse_from-Kept p (q ∷ ps) blanks one full (one_q, h) = elim (Bool-cases (is_blank q)) [
  | inl blank ↦ rw (collapse_from, blank) (collapse_from-Kept p ps (suc blanks) one full h)
  | inr full_q ↦
      subst (λ text. Kept p text (q ∷ ps)) (sym (collapse-full q ps blanks true full_q))
        (Kept-next blanks p q (collapse_from 0 true ps) ps one full full_q
          (collapse_from-Kept q ps 0 one_q full_q h))
]

-- What is written of the lines, where none was written before them.
Collapsed : List ℕ → List Line → Type 0
Collapsed text ps = (full_lines (split_lines text) ≡ full_lines ps) × Spaced (split_lines text)

Collapsed-first :
    (p : Line) (text : List ℕ) (ps : List Line)
    → is_blank p ≡ false
    → Kept p text ps
    → Collapsed (p ++ text) (p ∷ ps)
unfolding Collapsed
Collapsed-first p text ps full (tail, splits, kept, spaced) =
    (ap full_lines splits ∙ rw (full, kept) refl, subst Spaced (sym splits) spaced)

Collapsed-nil : Collapsed [] []
unfolding Collapsed is_blank
Collapsed-nil = (refl, tt)

collapse_from-Collapsed :
    (ps : List Line) (blanks : ℕ) → OneLines ps → Collapsed (collapse_from blanks false ps) ps
unfolding collapse_from separator Collapsed
collapse_from-Collapsed [] blanks h = Collapsed-nil
collapse_from-Collapsed (q ∷ ps) blanks (one, h) = elim (Bool-cases (is_blank q)) [
  | inl blank ↦ rw (collapse_from, blank) (collapse_from-Collapsed ps (suc blanks) h)
  | inr full ↦
      subst (λ text. Collapsed text (q ∷ ps)) (sym (collapse-full q ps blanks false full))
        (Collapsed-first q (collapse_from 0 true ps) ps full (collapse_from-Kept q ps 0 one full h))
]

-- collapseBlankLines keeps every line that is not blank, unchanged and in order, and no two lines of its output
-- in a row are blank.
pub collapse_blank_lines-lines :
    (input : List ℕ)
    → (full_lines (split_lines (collapse_blank_lines input)) ≡ full_lines (split_lines input))
      × Spaced (split_lines (collapse_blank_lines input))
unfolding collapse_blank_lines Collapsed
collapse_blank_lines-lines input =
    collapse_from-Collapsed (split_lines input) 0 (split_lines-OneLines input)
