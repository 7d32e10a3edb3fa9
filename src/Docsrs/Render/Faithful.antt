-- ===== src/Docsrs/Render/Faithful.antt =====
-- internal/strategies/docsrs_renderer.go: what `RenderType` makes of rustdoc's encoding of some of the types
-- of Rust.
use package.text.Mathlib.TextEquality.{eq_iff}
use package.text.Mathlib.TextLemmas.{append-eq-nil_iff, cons≢nil}
use repodocs_go.Base.{
  inl, inr, Bool-cases, false, zero, map, ap, suc, refl, sym, ◌∙◌, arith, ◌≤◌, ◌≡◌, none, [], ◌∷◌,
  some, if◌then◌else◌, String, Option, List, ℕ,
}
use repodocs_go.Docsrs.Json.{depth_items, elements, as_text, text_of, depth, Value}
use repodocs_go.Docsrs.Render.{
  is_empty, angled, type_args, impl_of, angle_bracketed, type_arg, bound_paths, lifetime_of,
  bound_path, render_within, render_type, ◌⊕◌, join,
}
use repodocs_go.Docsrs.Render.Syntax.{
  bounds_json, RustType, RustTypes, primitive, generic, resolved_path, borrowed_ref, slice,
  fixed_array, tuple, raw_pointer, impl_trait, none_left, also, tick, lifetime_syntax, grouped,
  syntax, syntaxes, lifetime_json, json, args_json, tuple_json, NotSum, IsPlain, ArePlain,
}

bounds : (paths : List String) → bound_paths (elements (bounds_json paths)) ≡ paths
unfolding bound_path
bounds [] = refl
bounds (path ∷ paths) = cc (bounds paths)

grouped-alone : (t : RustType) (s : String) → NotSum t → grouped t s ≡ s
grouped-alone (primitive x) s h = refl
grouped-alone (generic x) s h = refl
grouped-alone (resolved_path path ts) s h = refl
grouped-alone (borrowed_ref l m t) s h = refl
grouped-alone (slice t) s h = refl
grouped-alone (fixed_array t k) s h = refl
grouped-alone (tuple ts) s h = refl
grouped-alone (raw_pointer m t) s h = refl
grouped-alone (impl_trait path []) s h = refl
grouped-alone (impl_trait path (p ∷ paths)) s h = absurd h

tick-not_empty : (name : String) → is_empty (tick name) ≡ false
tick-not_empty name = elim (Bool-cases (is_empty (tick name))) [
  | inr differ ↦ differ
  | inl same ↦
      let empty = ((eq_iff (tick name) "").0 same) in
      absurd (cons≢nil (append-eq-nil_iff.0 empty).0)
]

module _ (fmt : Value → String) where
  lifetime-agree :
      (l : Option String) → lifetime_of (text_of (as_text (lifetime_json l))) ≡ lifetime_syntax l
  lifetime-agree none = refl
  lifetime-agree (some name) = rw (tick-not_empty name) refl

  mutual
    unfolding json syntax render_within depth type_arg angle_bracketed

    within-syntax :
        (n : ℕ) (t : RustType)
        → IsPlain t
        → depth (json t) ≤ n
        → render_within fmt n (json t) ≡ syntax t
    within-syntax zero (primitive s) o h = absurd (omega (arith, h))
    within-syntax zero (generic s) o h = absurd (omega (arith, h))
    within-syntax zero (resolved_path path ts) o h = absurd (omega (arith, h))
    within-syntax zero (borrowed_ref l m t) o h = absurd (omega (arith, h))
    within-syntax zero (slice t) o h = absurd (omega (arith, h))
    within-syntax zero (fixed_array t k) o h = absurd (omega (arith, h))
    within-syntax zero (tuple ts) o h = absurd (omega (arith, h))
    within-syntax zero (raw_pointer m t) o h = absurd (omega (arith, h))
    within-syntax zero (impl_trait path paths) o h = absurd (omega (arith, h))
    within-syntax (suc n) (primitive s) o h = rw o refl
    within-syntax (suc n) (generic s) o h = refl
    within-syntax (suc n) (resolved_path path ts) o h =
        ap (λ ss. path ⊕ angled ss) (args-syntax n ts o (omega (arith, h)))
    within-syntax (suc n) (borrowed_ref l m t) o h =
        cc (
          lifetime-agree l,
          grouped-alone t (syntax t) o.0,
          within-syntax n t o.1 (omega (arith, h)),
        )
    within-syntax (suc n) (slice t) o h =
        ap (λ s. "[" ⊕ s ⊕ "]") (within-syntax n t o (omega (arith, h)))
    within-syntax (suc n) (fixed_array t k) o h =
        ap (λ s. "[" ⊕ s ⊕ "; " ⊕ k ⊕ "]") (within-syntax n t o (omega (arith, h)))
    within-syntax (suc n) (tuple none_left) o h = refl
    within-syntax (suc n) (tuple (also t none_left)) o h = absurd o.0
    within-syntax (suc n) (tuple (also t (also u us))) o h =
        ap (λ ss. "(" ⊕ join ", " ss ⊕ ")")
          (tuple-syntax n (also t (also u us)) o.1 (omega (arith, h)))
    within-syntax (suc n) (raw_pointer m t) o h =
        ap (λ s. (if m then "*mut" else "*const") ⊕ " " ⊕ s)
          (within-syntax n t o.1 (omega (arith, h)) ∙ sym (grouped-alone t (syntax t) o.0))
    within-syntax (suc n) (impl_trait path paths) o h = ap (impl_of) (bounds (path ∷ paths))

    args-syntax :
        (n : ℕ) (ts : RustTypes)
        → ArePlain ts
        → depth_items (args_json ts) ≤ n
        → map (render_within fmt n) (type_args (elements (args_json ts))) ≡ syntaxes ts
    args-syntax n none_left o h = refl
    args-syntax n (also t ts) o h =
        cc (within-syntax n t o.0 (omega (arith, h)), args-syntax n ts o.1 (omega (arith, h)))

    tuple-syntax :
        (n : ℕ) (ts : RustTypes)
        → ArePlain ts
        → depth_items (tuple_json ts) ≤ n
        → map (render_within fmt n) (elements (tuple_json ts)) ≡ syntaxes ts
    tuple-syntax n none_left o h = refl
    tuple-syntax n (also t ts) o h =
        cc (within-syntax n t o.0 (omega (arith, h)), tuple-syntax n ts o.1 (omega (arith, h)))

  one_tuple :
      (n : ℕ) (t : RustType)
      → IsPlain t
      → depth (json (tuple (also t none_left))) ≤ n
      → render_within fmt n (json (tuple (also t none_left))) ≡ "(" ⊕ syntax t ⊕ ")"
  unfolding json depth render_within
  one_tuple zero t o h = absurd (omega (arith, h))
  one_tuple (suc n) t o h = ap (λ s. "(" ⊕ s ⊕ ")") (within-syntax n t o (omega (arith, h)))

  -- A type made of primitives, type parameters, paths with types as their arguments, references, slices,
  -- arrays, tuples, raw pointers and `impl` of traits without arguments, encoded the way rustdoc does, is
  -- rendered in Rust's own syntax, whatever fmt prints, if it has nowhere inside a tuple of just one type, a
  -- reference or raw pointer to an `impl` of several traits, or the primitive that rustdoc calls `never`. A
  -- tuple of such a type alone loses its comma: it is rendered as the type in parentheses.
  pub render_type-syntax :
      (t : RustType)
      → IsPlain t
      → (render_type fmt (json t) ≡ syntax t)
        × (render_type fmt (json (tuple (also t none_left))) ≡ "(" ⊕ syntax t ⊕ ")")
  unfolding render_type
  render_type-syntax t o = (
    within-syntax (depth (json t)) t o (omega arith),
    one_tuple (depth (json (tuple (also t none_left)))) t o (omega arith),
  )
