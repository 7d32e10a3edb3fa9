-- ===== src/Docsrs/Page.antt =====
-- internal/strategies/docsrs_renderer.go: the page of an item, from its signature and its contents.
mod Tests
use repodocs_go.Base.{◌&&◌, ◌>>=◌, none, [], ◌∷◌, some, if◌then◌else◌, String, List, Option}
use repodocs_go.Docsrs.Json.{get, or_null, as_text, null, as_object, Value}
use repodocs_go.Docsrs.Types.{
  get_constant, RustdocConstant, get_type_alias, RustdocTypeAlias, get_enum, RustdocGenerics,
  RustdocFunction, get_struct, RustdocTrait, RustdocImpl, is_public, get_trait, get_impl,
  get_function, RustdocDeprecation, RustdocAdt, RustdocItem,
}
use repodocs_go.Docsrs.Render.{is_empty, ◌⊕◌, render_type}
use repodocs_go.Docsrs.Item.{
  word_if, pub_of, name_of, render_generics, is_found, RustdocRenderer, get_item_by_id,
  get_item_type, render_function_signature,
}
use repodocs_go.Docsrs.Contents.{render_module_contents}
use package.text.Mathlib.Text.{◌==◌ as str_eq}

abbrev pub fenced : String → String
fenced sig = "```rust\n" ⊕ sig ⊕ "\n```\n\n"

abbrev pub docs_text : Option String → String
docs_text none = ""
docs_text (some docs) = docs ⊕ "\n\n"

-- `renderStructSignature`, `renderEnumSignature` and, with words before it, `renderTraitSignature`.
abbrev pub adt_signature : String → RustdocItem → Option RustdocGenerics → String
unfolding is_public render_generics
adt_signature keyword item generics =
    pub_of item ⊕ keyword ⊕ name_of item ⊕ render_generics generics

module _ (r : RustdocRenderer) where
  -- A type after `sep`, where there is one.
  abbrev pub type_after : String → Value → String
  unfolding render_type
  type_after sep null = ""
  type_after sep t = sep ⊕ render_type r.fmt t

  -- `renderSignature`, with what each getter gives, in the order in which it asks.
  signature_of :
      RustdocItem
      → Option RustdocFunction
      → Option RustdocTrait
      → Option RustdocAdt
      → Option RustdocAdt
      → Option RustdocTypeAlias
      → Option RustdocConstant
      → String
  unfolding render_function_signature is_public render_generics render_type
  signature_of item (some fn) trait st en alias const = render_function_signature r item
  signature_of item none (some t) st en alias const =
      pub_of item
      ⊕ word_if t.is_unsafe "unsafe "
      ⊕ word_if t.is_auto "auto "
      ⊕ "trait "
      ⊕ name_of item
      ⊕ render_generics t.generics
  signature_of item none none (some st) en alias const = adt_signature "struct " item st.generics
  signature_of item none none none (some en) alias const = adt_signature "enum " item en.generics
  signature_of item none none none none (some a) const =
      adt_signature "type " item a.generics ⊕ type_after " = " a.aliased
  signature_of item none none none none none (some c) =
      pub_of item ⊕ "const " ⊕ name_of item ⊕ type_after ": " c.const_type
  signature_of item none none none none none none = ""

  unfoldable pub render_signature : RustdocItem → String
  unfolding signature_of get_function get_trait get_struct get_enum get_type_alias get_constant
  render_signature item =
      signature_of item (get_function item) (get_trait item) (get_struct item) (get_enum item)
        (get_type_alias item) (get_constant item)

  -- The loop of `renderTraitContents`: functions with a name.
  abbrev method_text : Option RustdocItem → String
  unfolding render_function_signature get_function
  method_text none = ""
  method_text (some child) =
      if is_found (get_function child) && is_found child.name
      then "### `"
        ⊕ name_of child
        ⊕ "`\n\n"
        ⊕ fenced (render_function_signature r child)
        ⊕ docs_text child.docs
      else ""

  abbrev methods_text : List Value → String
  unfolding get_item_by_id
  methods_text [] = ""
  methods_text (id ∷ ids) = method_text (get_item_by_id r id) ⊕ methods_text ids

  trait_contents : Option RustdocTrait → String
  unfolding get_item_by_id render_function_signature get_function
  trait_contents none = ""
  trait_contents (some t) = elim t.items [
    | [] ↦ ""
    | id ∷ ids ↦ "## Required Methods\n\n" ⊕ methods_text (id ∷ ids)
  ]

  -- The loops of `renderImplContents`.
  abbrev impl_method_text : Option RustdocItem → String
  unfolding render_function_signature get_function
  impl_method_text none = ""
  impl_method_text (some method) =
      if is_found method.name
      then "#### `"
        ⊕ name_of method
        ⊕ "`\n\n"
        ⊕ (if is_found (get_function method)
            then fenced (render_function_signature r method)
            else "")
        ⊕ docs_text method.docs
      else ""

  abbrev impl_methods_text : List Value → String
  unfolding get_item_by_id
  impl_methods_text [] = ""
  impl_methods_text (id ∷ ids) = impl_method_text (get_item_by_id r id) ⊕ impl_methods_text ids

  abbrev impl_heading : Value → String
  impl_heading null = "### impl\n\n"
  impl_heading trait = elim (as_object trait >>= λ m. as_text (or_null (get "path" m))) [
    | none ↦ ""
    | some path ↦ "### impl " ⊕ path ⊕ "\n\n"
  ]

  abbrev impl_text : Option RustdocImpl → String
  unfolding get_item_by_id render_function_signature get_function
  impl_text none = ""
  impl_text (some impl) = impl_heading impl.trait ⊕ impl_methods_text impl.items

  abbrev impls_text : List Value → String
  unfolding get_item_by_id get_impl
  impls_text [] = ""
  impls_text (id ∷ ids) = impl_text (get_item_by_id r id >>= get_impl) ⊕ impls_text ids

  abbrev impls_of : Option RustdocAdt → Option RustdocAdt → List Value
  impls_of (some st) en = st.impls
  impls_of none (some en) = en.impls
  impls_of none none = []

  impl_contents : List Value → String
  unfolding get_item_by_id get_impl render_function_signature get_function
  impl_contents [] = ""
  impl_contents (id ∷ ids) = "## Implementations\n\n" ⊕ impls_text (id ∷ ids)

  abbrev since_text : String → String
  since_text since = if is_empty since then "" else " since " ⊕ since

  abbrev note_text : String → String
  note_text note = if is_empty note then "" else ": " ⊕ note

  abbrev deprecation_text : Option RustdocDeprecation → String
  deprecation_text none = ""
  deprecation_text (some d) = "> **Deprecated**" ⊕ since_text d.since ⊕ note_text d.note ⊕ "\n\n"

  abbrev own_docs : RustdocItem → Option String → String
  own_docs item none = ""
  own_docs item (some docs) =
      if is_empty docs then "" else r.resolve_cross_refs docs item.links ⊕ "\n\n"

  unfoldable pub render_item : RustdocItem → String
  unfolding render_signature get_item_type render_module_contents trait_contents impl_contents
      get_trait get_struct get_enum
  render_item item =
      let sig = render_signature item in
      (if is_empty (name_of item)
        then ""
        else "# " ⊕ get_item_type item ⊕ " `" ⊕ name_of item ⊕ "`\n\n")
      ⊕ deprecation_text item.deprecation
      ⊕ (if is_empty sig then "" else fenced sig)
      ⊕ own_docs item item.docs
      ⊕ render_module_contents r item
      ⊕ trait_contents (get_trait item)
      ⊕ impl_contents (impls_of (get_struct item) (get_enum item))
