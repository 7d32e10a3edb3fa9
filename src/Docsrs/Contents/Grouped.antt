-- ===== src/Docsrs/Contents/Grouped.antt =====
-- internal/strategies/docsrs_renderer.go: which children a module's page lists, and where.
use repodocs_go.Docsrs.Render.{◌⊕◌}
use mathlib.Core.List.{append-nil}
use repodocs_go.Base.{
  ◌∙◌, Bool-cases, some, inr, inl, ap, Option-cases, refl, arith, sym, if◌then◌else◌, add_found, [],
  ◌≡◌, ◌∷◌, ◌++◌, String, List,
}
use repodocs_go.Docsrs.Json.{Value}
use repodocs_go.Docsrs.Types.{get_module, RustdocModule, RustdocItem}
use repodocs_go.Docsrs.Item.{RustdocRenderer, get_item_by_id, get_item_type}
use repodocs_go.Docsrs.Contents.{
  groups_text, contents_of, order, named, group_text, Groups, group, add_to_group, group_children,
  render_module_contents,
}
use package.text.Mathlib.Text.{◌==◌ as str_eq}
use package.text.Mathlib.TextEquality.{eq_iff}

module _ (r : RustdocRenderer) where
  -- The children that the index knows and that have a name, in their order.
  abbrev pub children : List Value → List RustdocItem
  children [] = []
  children (id ∷ ids) = add_found (named (get_item_by_id r id)) (children ids)

-- Those of one type.
abbrev pub of_type : String → List RustdocItem → List RustdocItem
of_type ty [] = []
of_type ty (child ∷ items) =
    if str_eq (get_item_type child) ty then child ∷ of_type ty items else of_type ty items

-- A heading for each type, in the fixed order, with the children of that type below it.
abbrev pub listed : List String → List RustdocItem → String
listed [] items = ""
listed (ty ∷ tys) items = group_text ty (of_type ty items) ⊕ listed tys items

abbrev pub listing : List Value → List RustdocItem → String
listing [] items = ""
listing (id ∷ ids) items = "## Contents\n\n" ⊕ listed order items

group-add_to_group :
    (ty t : String) (child : RustdocItem) (gs : Groups)
    → group ty (add_to_group t child gs)
      ≡ (if str_eq t ty then group ty gs ++ (child ∷ []) else group ty gs)
unfolding group add_to_group
group-add_to_group ty t child [] = ground arith
group-add_to_group ty t child ((s, items) ∷ gs) =
    ground (arith, eq_iff s t, eq_iff s ty, eq_iff t ty, group-add_to_group ty t child gs)

append-cons :
    (xs : List RustdocItem) (y : RustdocItem) (ys : List RustdocItem)
    → (xs ++ (y ∷ [])) ++ ys ≡ xs ++ (y ∷ ys)
append-cons [] y ys = refl
append-cons (x ∷ xs) y ys = cc (append-cons xs y ys)

module _ (r : RustdocRenderer) where
  group-group_children :
      (ty : String) (ids : List Value) (gs : Groups)
      → group ty (group_children r ids gs) ≡ group ty gs ++ of_type ty (children r ids)
  unfolding group_children
  group-group_children ty [] gs = sym (append-nil (group ty gs))
  group-group_children ty (id ∷ ids) gs = elim (Option-cases (named (get_item_by_id r id))) [
    | inl nothing ↦ rw nothing (group-group_children ty ids gs)
    | inr (child, there) ↦ elim (Bool-cases (str_eq (get_item_type child) ty)) [
      | inl same ↦
          let added = group-add_to_group ty (get_item_type child) child gs in
          rw (there, same)
            (group-group_children ty ids (add_to_group (get_item_type child) child gs)
              ∙ rw (added, same) (append-cons (group ty gs) child (of_type ty (children r ids))))
      | inr other ↦
          let added = group-add_to_group ty (get_item_type child) child gs in
          rw (there, other)
            (group-group_children ty ids (add_to_group (get_item_type child) child gs)
              ∙ rw (added, other) refl)
    ]
  ]

  groups_text-listed :
      (tys : List String) (ids : List Value)
      → groups_text tys (group_children r ids []) ≡ listed tys (children r ids)
  unfolding group
  groups_text-listed [] ids = refl
  groups_text-listed (ty ∷ tys) ids =
      rw (group-group_children ty ids []) (
        ap (λ rest. group_text ty (of_type ty (children r ids)) ⊕ rest)
          (groups_text-listed tys ids))

  contents-listing : (ids : List Value) → contents_of r ids ≡ listing ids (children r ids)
  unfolding contents_of
  contents-listing [] = refl
  contents-listing (id ∷ ids) =
      ap (λ rest. "## Contents\n\n" ⊕ rest) (groups_text-listed order (id ∷ ids))

  -- The contents of a module's page are, for each of the eight types in the fixed order, the named
  -- children of that type in the order of the module, each of them once, under a heading that is left
  -- out where there are none; children of any other type, re-exports among them, are not listed.
  pub render_module_contents-listing :
      (item : RustdocItem) (m : RustdocModule)
      → get_module item ≡ some m
      → render_module_contents r item ≡ listing m.items (children r m.items)
  unfolding render_module_contents
  render_module_contents-listing item m is_module = rw is_module (contents-listing m.items)
