-- ===== src/Docsrs/Render.antt =====
-- internal/strategies/docsrs_renderer.go: types. `fmt` stands for fmt.Sprintf("%v", …), of a value that
-- is not a string.
pub mod Enough
pub mod Syntax
pub mod Faithful
mod Tests
use package.text.Mathlib.Text.{◌==◌ as str_eq}
use Prim.Native.String as Text
use repodocs_go.Base.{
  add_found, ◌>>=◌, ℕ, zero, suc, Bool, true, false, String, List, [], ◌∷◌, Option, none, some, map,
  if◌then◌else◌,
}
use repodocs_go.Docsrs.Json.{
  get_elements, Value, null, str, object, Fields, get, or_null, as_object, as_array, as_text,
  elements, get_object, get_array, get_text, get_true, depth,
}

infixr 65 ◌⊕◌
abbrev pub ◌⊕◌ : String → String → String
s ⊕ t = Text.◌++◌ s t

-- strings.Join
abbrev pub join : String → List String → String
join sep [] = ""
join sep (s ∷ []) = s
join sep (s ∷ t ∷ ss) = s ⊕ sep ⊕ join sep (t ∷ ss)

abbrev pub is_empty : String → Bool
is_empty s = str_eq s ""

-- The key whose branch of `RenderTypeMap` is taken, with what it reads there.
pub data Shape : Type 0 where
  primitive : Value → Shape
  generic : Value → Shape
  resolved_path : Fields → Shape
  borrowed_ref : Fields → Shape
  slice : Value → Shape
  fixed_array : Fields → Shape
  tuple : List Value → Shape
  raw_pointer : Fields → Shape
  impl_trait : List Value → Shape
  qualified_path : Fields → Shape
  other : Shape

-- The type of a generic argument, where it is one: lifetimes and constants are skipped.
unfoldable pub type_arg : Value → Option Value
type_arg arg = as_object arg >>= get "type"

abbrev pub type_args : List Value → List Value
type_args [] = []
type_args (arg ∷ args) = add_found (type_arg arg) (type_args args)

-- `resolved["args"]["angle_bracketed"]["args"]`, through the assertions of the nested tests.
unfoldable pub angle_bracketed : Fields → Option Fields
angle_bracketed resolved = get_object "args" resolved >>= get_object "angle_bracketed"

abbrev pub args_of : Option Fields → List Value
args_of none = []
args_of (some angle) = get_array "args" angle

abbrev pub angle_args : Fields → List Value
angle_args resolved = args_of (angle_bracketed resolved)

-- The path of a bound of an `impl Trait`, through the assertions of the loop.
unfoldable pub bound_path : Value → Option String
bound_path bound = as_object bound >>= get_object "trait_bound" >>= get_object "trait" >>= λ trait.
    as_text (or_null (get "path" trait))

abbrev pub bound_paths : List Value → List String
bound_paths [] = []
bound_paths (b ∷ bs) = add_found (bound_path b) (bound_paths bs)

-- The branch of a test that succeeded, or what the tests after it say.
abbrev pub branch : {A : Type 0} → (A → Shape) → Option A → Shape → Shape
branch c none rest = rest
branch c (some a) rest = c a

unfoldable pub shape : Fields → Shape
shape m = branch primitive (get "primitive" m) (
    branch generic (get "generic" m) (
      branch resolved_path (get_object "resolved_path" m) (
        branch borrowed_ref (get_object "borrowed_ref" m) (
          branch slice (get "slice" m) (
            branch fixed_array (get_object "array" m) (
              branch tuple (get_elements "tuple" m) (
                branch raw_pointer (get_object "raw_pointer" m) (
                  branch impl_trait (get_elements "impl_trait" m)
                    (branch qualified_path (get_object "qualified_path" m) other)))))))))

abbrev pub angled : List String → String
angled [] = ""
angled (s ∷ ss) = "<" ⊕ join ", " (s ∷ ss) ⊕ ">"

abbrev pub impl_of : List String → String
impl_of [] = "impl ..."
impl_of (s ∷ ss) = "impl " ⊕ join " + " (s ∷ ss)

-- A lifetime is written with a space after it, an empty one not at all.
abbrev pub lifetime_of : String → String
lifetime_of l = if is_empty l then "" else l ⊕ " "

module _ (fmt : Value → String) where
  -- `fmt.Sprintf("%v", v)`: of a string it is the string itself.
  abbrev pub sprint : Value → String
  sprint (str s) = s
  sprint v = fmt v

  -- The bodies of the branches, with the calls of `RenderType` as a function.
  unfoldable pub render_shape : (Value → String) → Shape → String
  unfolding type_arg angle_bracketed bound_path
  render_shape render (primitive v) = sprint v
  render_shape render (generic v) = sprint v
  render_shape render (resolved_path m) =
      sprint (or_null (get "path" m)) ⊕ angled (map render (type_args (angle_args m)))
  render_shape render (borrowed_ref m) =
      "&"
      ⊕ lifetime_of (get_text "lifetime" m)
      ⊕ (if get_true "is_mutable" m then "mut " else "")
      ⊕ render (or_null (get "type" m))
  render_shape render (slice v) = "[" ⊕ render v ⊕ "]"
  render_shape render (fixed_array m) =
      "[" ⊕ render (or_null (get "type" m)) ⊕ "; " ⊕ sprint (or_null (get "len" m)) ⊕ "]"
  render_shape render (tuple []) = "()"
  render_shape render (tuple (v ∷ vs)) = "(" ⊕ join ", " (map render (v ∷ vs)) ⊕ ")"
  render_shape render (raw_pointer m) =
      (if get_true "is_mutable" m then "*mut" else "*const") ⊕ " " ⊕ render (or_null (get "type" m))
  render_shape render (impl_trait vs) = impl_of (bound_paths vs)
  render_shape render (qualified_path m) = get_text "name" m
  render_shape render other = "..."

  -- `RenderType`, and in its object case `RenderTypeMap`, with fuel for the nesting.
  unfoldable pub render_within : ℕ → Value → String
  unfolding shape render_shape
  render_within n null = "()"
  render_within n (str s) = s
  render_within zero (object m) = ""
  render_within (suc n) (object m) = render_shape (render_within n) (shape m)
  render_within n v = fmt v

  unfoldable pub render_type : Value → String
  unfolding render_within depth
  render_type v = render_within (depth v) v
