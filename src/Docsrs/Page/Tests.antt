-- ===== src/Docsrs/Page/Tests.antt =====
-- internal/strategies/docsrs_renderer.go: a module with a function, rendered.
use repodocs_go.Docsrs.Page.{render_item}
use repodocs_go.Base.{none, some, refl, [], ◌≡◌, ◌∷◌, false, String}
use repodocs_go.Docsrs.Json.{nil, end, cons, array, str, object, field, Fields}
use repodocs_go.Docsrs.Types.{get_module, RustdocItem, RustdocModule}
use repodocs_go.Docsrs.Item.{RustdocRenderer, get_item_by_id, render_function_signature}
use repodocs_go.Docsrs.Contents.{render_module_contents}
use repodocs_go.Docsrs.Contents.Grouped.{render_module_contents-listing, listing, children}

abbrev bare : String → Fields → RustdocItem
bare name inner = record {
  name = some name;
  visibility = str "public";
  docs = none;
  links = [];
  deprecation = none;
  inner = inner;
}

-- `pub fn read(path: &str) -> bool`
abbrev read : RustdocItem
read = bare "read" (
    field "function"
      (object (
        field "sig"
          (object (
            field "inputs"
              (array (
                cons
                  (array (
                    cons (str "path") (
                      cons
                        (object (
                          field "borrowed_ref"
                            (object (field "type" (object (field "primitive" (str "str") end)) end))
                            end))
                        nil)))
                  nil))
              (field "output" (object (field "primitive" (str "bool") end)) end)))
          end))
      end)

abbrev io : RustdocItem
io =
    bare "io" (
      field "module" (object (field "items" (array (cons (str "1") (cons (str "2") nil))) end)) end)

abbrev io_module : RustdocModule
io_module = record { is_crate = false; items = str "1" ∷ str "2" ∷ [] }

abbrev renderer : RustdocRenderer
renderer = record {
  index = ("1", read) ∷ [];
  fmt = λ v. "?";
  format_id = λ id. "1";
  resolve_cross_refs = λ docs links. docs;
}

read_test : render_function_signature renderer read ≡ "pub fn read(path: &str) -> bool"
unfolding render_function_signature
read_test = refl

io_test : render_item renderer io ≡ "# Module `io`\n\n## Contents\n\n### Functions\n\n- `read`\n\n"
unfolding render_item get_item_by_id
io_test = refl

render_module_contents-listing_example :
    render_module_contents renderer io ≡ listing io_module.items (children renderer io_module.items)
unfolding get_module
render_module_contents-listing_example = render_module_contents-listing renderer io io_module refl
