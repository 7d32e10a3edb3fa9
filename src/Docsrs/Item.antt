-- ===== src/Docsrs/Item.antt =====
-- internal/strategies/docsrs_renderer.go: items. `fmt` is as in the rendering of types; `format_id`
-- stands for fmt.Sprintf("%.0f", …) of a number that is an id, and `resolve_cross_refs` for the method
-- of that name, which rewrites the links of a text in the order of a Go map, a random one.
use repodocs_go.Base.{
  ◌&&◌, true, not, [], ◌∷◌, some, none, if◌then◌else◌, false, ℕ, String, Bool, List, Option,
}
use repodocs_go.Docsrs.Json.{null, as_array, array_of, text_of, str, Value}
use repodocs_go.Docsrs.Types.{
  inner_object, get_constant, get_type_alias, get_trait, get_enum, get_struct, RustdocFunction,
  is_public, get_module, get_function, RustdocModule, RustdocHeader, RustdocGenericParam,
  RustdocFunctionSig, RustdocItem, RustdocGenerics,
}
use repodocs_go.Docsrs.Render.{is_empty, sprint, angled, ◌⊕◌, render_type}
use package.text.Mathlib.Text.{◌==◌ as str_eq}

pub record RustdocRenderer : Type 0 where
  pub index : List (String × RustdocItem)
  pub fmt : Value → String
  pub format_id : ℕ → String
  pub resolve_cross_refs : String → List (String × Value) → String

abbrev pub find_item : String → List (String × RustdocItem) → Option RustdocItem
find_item id [] = none
find_item id ((k, item) ∷ items) = if str_eq k id then some item else find_item id items

unfoldable pub get_item_by_id : RustdocRenderer → Value → Option RustdocItem
get_item_by_id r (str id) = find_item id r.index
get_item_by_id r (Value.number id) = find_item (r.format_id id) r.index
get_item_by_id r _ = none

abbrev pub is_found {ℓ} : {A : Type ℓ} → Option A → Bool
is_found none = false
is_found (some a) = true

abbrev module_type : Option RustdocModule → String → String
module_type (some m) rest = if m.is_crate then "Crate" else "Module"
module_type none rest = rest

unfoldable pub get_item_type : RustdocItem → String
unfolding get_module get_struct get_enum get_trait get_function get_type_alias get_constant
get_item_type item = module_type (get_module item) (
    if is_found (get_struct item)
    then "Struct"
    else if is_found (get_enum item)
    then "Enum"
    else if is_found (get_trait item)
    then "Trait"
    else if is_found (get_function item)
    then "Function"
    else if is_found (get_type_alias item)
    then "Type Alias"
    else if is_found (get_constant item)
    then "Constant"
    else if is_found (inner_object "macro" item)
    then "Macro"
    else if is_found (inner_object "use" item)
    then "Re-export"
    else if is_found (inner_object "variant" item)
    then "Variant"
    else "Item")

abbrev pub name_of : RustdocItem → String
name_of item = text_of item.name

abbrev pub pub_of : RustdocItem → String
unfolding is_public
pub_of item = if is_public item then "pub " else ""

abbrev pub word_if : Bool → String → String
word_if b w = if b then w else ""

-- The loop of `renderGenerics`.
abbrev pub generic_names : List RustdocGenericParam → List String
generic_names [] = []
generic_names (p ∷ ps) =
    if not (is_empty p.name) && not (str_eq p.name "Self")
    then p.name ∷ generic_names ps
    else generic_names ps

unfoldable pub render_generics : Option RustdocGenerics → String
render_generics none = ""
render_generics (some g) = angled (generic_names g.params)

-- One input of a function: `[name, type]`, and nothing else is written.
abbrev pub input_with : RustdocRenderer → List Value → Option (Value × Value)
input_with r (name ∷ t ∷ _) = some (name, t)
input_with r _ = none

module _ (r : RustdocRenderer) where
  abbrev pub typed : Value → String
  unfolding render_type
  typed t = render_type r.fmt t

  abbrev pub input_text : Option (Value × Value) → String
  unfolding render_type
  input_text none = ""
  input_text (some (name, t)) =
      if str_eq (sprint r.fmt name) "self"
      then render_type r.fmt t
      else sprint r.fmt name ⊕ ": " ⊕ render_type r.fmt t

  -- The loop over the inputs: the comma is written before the input is looked at.
  abbrev pub inputs_from : Bool → List Value → String
  inputs_from later [] = ""
  inputs_from later (v ∷ vs) =
      word_if later ", " ⊕ input_text (input_with r (array_of (as_array v))) ⊕ inputs_from true vs

  abbrev pub output_text : Value → String
  unfolding render_type
  output_text null = ""
  output_text t =
      let rendered = render_type r.fmt t in
      if not (is_empty rendered) && not (str_eq rendered "()") then " -> " ⊕ rendered else ""

  abbrev header_text : Option RustdocHeader → String
  header_text none = ""
  header_text (some h) =
      word_if h.is_const "const " ⊕ word_if h.is_async "async " ⊕ word_if h.is_unsafe "unsafe "

  abbrev pub sig_inputs : Option RustdocFunctionSig → String
  unfolding render_type
  sig_inputs none = ""
  sig_inputs (some sig) = inputs_from false sig.inputs

  abbrev pub sig_output : Option RustdocFunctionSig → String
  unfolding render_type
  sig_output none = ""
  sig_output (some sig) = output_text sig.output

  function_with : RustdocItem → Option RustdocFunction → String
  unfolding render_type render_generics is_public
  function_with item none = ""
  function_with item (some fn) =
      pub_of item
      ⊕ header_text fn.header
      ⊕ "fn "
      ⊕ name_of item
      ⊕ render_generics fn.generics
      ⊕ "("
      ⊕ sig_inputs fn.sig
      ⊕ ")"
      ⊕ sig_output fn.sig

  unfoldable pub render_function_signature : RustdocItem → String
  unfolding function_with get_function
  render_function_signature item = function_with item (get_function item)
