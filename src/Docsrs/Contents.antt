-- ===== src/Docsrs/Contents.antt =====
-- internal/strategies/docsrs_renderer.go: `renderModuleContents`.
pub mod Grouped
use repodocs_go.Base.{◌++◌, none, if◌then◌else◌, [], ◌∷◌, some, String, List, Option}
use repodocs_go.Docsrs.Json.{Value}
use repodocs_go.Docsrs.Types.{get_module, RustdocModule, RustdocItem}
use repodocs_go.Docsrs.Render.{◌⊕◌}
use repodocs_go.Docsrs.Item.{is_found, name_of, RustdocRenderer, get_item_by_id, get_item_type}
use package.text.Mathlib.Text.{◌==◌ as str_eq}

-- The map from the type of an item to the items of that type.
abbrev pub Groups : Type 0
Groups = List (String × List RustdocItem)

-- `groups[itemType]`
unfoldable pub group : String → Groups → List RustdocItem
group ty [] = []
group ty ((t, items) ∷ gs) = if str_eq t ty then items else group ty gs

-- `groups[itemType] = append(groups[itemType], child)`
unfoldable pub add_to_group : String → RustdocItem → Groups → Groups
add_to_group ty child [] = (ty, child ∷ []) ∷ []
add_to_group ty child ((t, items) ∷ gs) =
    if str_eq t ty then (t, items ++ (child ∷ [])) ∷ gs else (t, items) ∷ add_to_group ty child gs

abbrev pub named : Option RustdocItem → Option RustdocItem
named none = none
named (some child) = if is_found child.name then some child else none

abbrev add_child : Option RustdocItem → Groups → Groups
unfolding get_item_type add_to_group
add_child none gs = gs
add_child (some child) gs = add_to_group (get_item_type child) child gs

module _ (r : RustdocRenderer) where
  -- The loop over the ids of the children.
  unfoldable pub group_children : List Value → Groups → Groups
  unfolding get_item_by_id get_item_type add_to_group
  group_children [] gs = gs
  group_children (id ∷ ids) gs = group_children ids (add_child (named (get_item_by_id r id)) gs)

abbrev pub order : List String
order =
    "Module" ∷ "Struct" ∷ "Enum" ∷ "Trait" ∷ "Function" ∷ "Type Alias" ∷ "Constant" ∷ "Macro" ∷ []

abbrev pub bullets : List RustdocItem → String
bullets [] = ""
bullets (child ∷ children) = "- `" ⊕ name_of child ⊕ "`\n" ⊕ bullets children

abbrev pub group_text : String → List RustdocItem → String
group_text ty [] = ""
group_text ty (child ∷ children) = "### " ⊕ ty ⊕ "s\n\n" ⊕ bullets (child ∷ children) ⊕ "\n"

-- The loop over the order.
abbrev pub groups_text : List String → Groups → String
groups_text [] gs = ""
groups_text (ty ∷ tys) gs = group_text ty (group ty gs) ⊕ groups_text tys gs

contents_of : RustdocRenderer → List Value → String
unfolding group_children group
contents_of r [] = ""
contents_of r (id ∷ ids) = "## Contents\n\n" ⊕ groups_text order (group_children r (id ∷ ids) [])

abbrev module_items : Option RustdocModule → List Value
module_items none = []
module_items (some m) = m.items

unfoldable pub render_module_contents : RustdocRenderer → RustdocItem → String
unfolding contents_of get_module
render_module_contents r item = contents_of r (module_items (get_module item))
