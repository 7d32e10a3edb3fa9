-- ===== src/Docsrs/Render/Tests.antt =====
-- internal/strategies/docsrs_renderer.go: types rendered, and the theorems at concrete inputs.
use repodocs_go.Base.{true, some, refl, ◌≡◌, String}
use repodocs_go.Docsrs.Json.{Value}
use repodocs_go.Docsrs.Render.{◌⊕◌, render_type}
use repodocs_go.Docsrs.Render.Syntax.{
  resolved_path, borrowed_ref, slice, primitive, none_left, also, RustType, json, syntax, tuple,
}
use repodocs_go.Docsrs.Render.Faithful.{render_type-syntax}

-- `Vec<&'a mut [u8]>`
abbrev buffers : RustType
buffers =
    resolved_path "Vec" (also (borrowed_ref (some "a") true (slice (primitive "u8"))) none_left)

abbrev no_fmt : Value → String
no_fmt v = "?"

buffers_test : render_type no_fmt (json buffers) ≡ "Vec<&'a mut [u8]>"
unfolding render_type json
buffers_test = refl

render_type-syntax_example :
    (render_type no_fmt (json buffers) ≡ syntax buffers)
    × (render_type no_fmt (json (tuple (also buffers none_left))) ≡ "(" ⊕ syntax buffers ⊕ ")")
render_type-syntax_example = render_type-syntax no_fmt buffers ((tt, refl), tt)
