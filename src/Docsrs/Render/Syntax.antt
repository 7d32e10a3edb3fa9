-- ===== src/Docsrs/Render/Syntax.antt =====
-- Some of the types of Rust, in Rust's own syntax and in the JSON that rustdoc writes, which
-- internal/strategies/docsrs_renderer.go reads.
use repodocs_go.Base.{false, ◌≡◌, none, [], ◌∷◌, some, if◌then◌else◌, Bool, String, Option, List}
use repodocs_go.Docsrs.Json.{
  nil, cons, bool, array, end, cons, str, null, field, Items, object, Value,
}
use repodocs_go.Docsrs.Render.{str_eq, ◌⊕◌, join}

-- Some of the types of Rust: primitives, type parameters, paths with types as their generic arguments,
-- references, slices, arrays, tuples, raw pointers, and `impl` of traits that are paths without arguments.
-- Not among them: `dyn` types, function pointers, inferred types, qualified paths, paths with lifetimes,
-- constants or constraints among their arguments or with arguments in parentheses, and bounds of an `impl`
-- that have arguments or a modifier or are lifetimes.
mutual
  pub data RustType : Type 0 where
    primitive : String → RustType
    generic : String → RustType
    -- a path with its generic arguments, types only
    resolved_path : String → RustTypes → RustType
    -- `'name`, where there is a lifetime; whether it is `mut`
    borrowed_ref : Option String → Bool → RustType → RustType
    slice : RustType → RustType
    fixed_array : RustType → String → RustType
    tuple : RustTypes → RustType
    raw_pointer : Bool → RustType → RustType
    impl_trait : String → List String → RustType

  pub data RustTypes : Type 0 where
    none_left : RustTypes
    also : RustType → RustTypes → RustTypes

-- Rust's syntax: a tuple of one type has a comma after it, an `impl` of several traits is in parentheses
-- below a reference or a raw pointer, and the primitive that rustdoc calls `never` is `!`.
abbrev pub tick : String → String
tick name = "'" ⊕ name

abbrev pub angles : List String → String
angles [] = ""
angles (s ∷ ss) = "<" ⊕ join ", " (s ∷ ss) ⊕ ">"

abbrev pub parens : List String → String
parens [] = "()"
parens (s ∷ []) = "(" ⊕ s ⊕ ",)"
parens (s ∷ t ∷ ss) = "(" ⊕ join ", " (s ∷ t ∷ ss) ⊕ ")"

abbrev pub lifetime_syntax : Option String → String
lifetime_syntax none = ""
lifetime_syntax (some name) = tick name ⊕ " "

abbrev pub grouped : RustType → String → String
grouped (impl_trait path (p ∷ paths)) s = "(" ⊕ s ⊕ ")"
grouped _ s = s

unfoldable mutual
  pub syntax : RustType → String
  syntax (primitive s) = if str_eq s "never" then "!" else s
  syntax (generic s) = s
  syntax (resolved_path path ts) = path ⊕ angles (syntaxes ts)
  syntax (borrowed_ref lifetime mut_ t) =
      "&" ⊕ lifetime_syntax lifetime ⊕ (if mut_ then "mut " else "") ⊕ grouped t (syntax t)
  syntax (slice t) = "[" ⊕ syntax t ⊕ "]"
  syntax (fixed_array t n) = "[" ⊕ syntax t ⊕ "; " ⊕ n ⊕ "]"
  syntax (tuple ts) = parens (syntaxes ts)
  syntax (raw_pointer mut_ t) = (if mut_ then "*mut" else "*const") ⊕ " " ⊕ grouped t (syntax t)
  syntax (impl_trait path paths) = "impl " ⊕ join " + " (path ∷ paths)

  pub syntaxes : RustTypes → List String
  syntaxes none_left = []
  syntaxes (also t ts) = syntax t ∷ syntaxes ts

-- rustdoc's JSON for them.
abbrev pub lifetime_json : Option String → Value
lifetime_json none = null
lifetime_json (some name) = str (tick name)

abbrev pub bound_json : String → Value
bound_json path = object (
    field "trait_bound"
      (object
        (field "trait" (object (field "path" (str path) end)) (field "modifier" (str "none") end)))
      end)

abbrev pub bounds_json : List String → Items
bounds_json [] = nil
bounds_json (path ∷ paths) = cons (bound_json path) (bounds_json paths)

unfoldable mutual
  pub json : RustType → Value
  json (primitive s) = object (field "primitive" (str s) end)
  json (generic s) = object (field "generic" (str s) end)
  json (resolved_path path ts) = object (
      field "resolved_path"
        (object (
          field "path" (str path) (
            field "args"
              (object (
                field "angle_bracketed"
                  (object
                    (field "args" (array (args_json ts)) (field "constraints" (array nil) end)))
                  end))
              end)))
        end)
  json (borrowed_ref lifetime mut_ t) = object (
      field "borrowed_ref"
        (object (
          field "lifetime" (lifetime_json lifetime)
            (field "is_mutable" (bool mut_) (field "type" (json t) end))))
        end)
  json (slice t) = object (field "slice" (json t) end)
  json (fixed_array t n) =
      object (field "array" (object (field "type" (json t) (field "len" (str n) end))) end)
  json (tuple ts) = object (field "tuple" (array (tuple_json ts)) end)
  json (raw_pointer mut_ t) = object (
      field "raw_pointer" (object (field "is_mutable" (bool mut_) (field "type" (json t) end))) end)
  json (impl_trait path paths) =
      object (field "impl_trait" (array (bounds_json (path ∷ paths))) end)

  pub args_json : RustTypes → Items
  args_json none_left = nil
  args_json (also t ts) = cons (object (field "type" (json t) end)) (args_json ts)

  pub tuple_json : RustTypes → Items
  tuple_json none_left = nil
  tuple_json (also t ts) = cons (json t) (tuple_json ts)

-- No `impl` of several traits.
abbrev pub NotSum : RustType → Type 0
NotSum (impl_trait path (p ∷ paths)) = ⊥
NotSum _ = Unit

abbrev pub NotOne : RustTypes → Type 0
NotOne (also t none_left) = ⊥
NotOne _ = Unit

-- Anywhere inside: no tuple of just one type, no reference or raw pointer to an `impl` of several traits, and
-- not the primitive `never`.
abbrev mutual
  pub IsPlain : RustType → Type 0
  IsPlain (primitive s) = str_eq s "never" ≡ false
  IsPlain (generic s) = Unit
  IsPlain (resolved_path path ts) = ArePlain ts
  IsPlain (borrowed_ref lifetime mut_ t) = NotSum t × IsPlain t
  IsPlain (slice t) = IsPlain t
  IsPlain (fixed_array t n) = IsPlain t
  IsPlain (tuple ts) = NotOne ts × ArePlain ts
  IsPlain (raw_pointer mut_ t) = NotSum t × IsPlain t
  IsPlain (impl_trait path paths) = Unit

  pub ArePlain : RustTypes → Type 0
  ArePlain none_left = Unit
  ArePlain (also t ts) = IsPlain t × ArePlain ts
