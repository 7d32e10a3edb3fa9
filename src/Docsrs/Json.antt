-- ===== src/Docsrs/Json.antt =====
-- What encoding/json decodes into an `interface{}`, for internal/strategies/docsrs_types.go and the
-- state file of internal/state. A number
-- is a natural one here: the code reads numbers only as ids. A Go map has a key once; in `Fields` the
-- first of equal keys counts.
use Prim.Native.Nat.{max}
use text.Mathlib.Text.{◌==◌ as str_eq}
use repodocs_go.Base.{ℕ, suc, Bool, false, String, List, [], ◌∷◌, Option, none, some, if◌then◌else◌}

mutual
  pub data Value : Type 0 where
    null : Value
    bool : Bool → Value
    number : ℕ → Value
    str : String → Value
    array : Items → Value
    object : Fields → Value

  pub data Items : Type 0 where
    nil : Items
    cons : Value → Items → Items

  pub data Fields : Type 0 where
    end : Fields
    field : String → Value → Fields → Fields

-- `v, ok := m[key]`
abbrev pub get : String → Fields → Option Value
get key end = none
get key (field k v m) = if str_eq k key then some v else get key m

-- `m[key]`, which is nil for a missing key
abbrev pub or_null : Option Value → Value
or_null none = null
or_null (some v) = v

-- The type assertions.
abbrev pub as_object : Value → Option Fields
as_object (object m) = some m
as_object _ = none

abbrev pub as_array : Value → Option Items
as_array (array vs) = some vs
as_array _ = none

abbrev pub as_text : Value → Option String
as_text (str s) = some s
as_text _ = none

-- `if v, ok := m[key].(bool); ok { x = v }` for an `x` that is false
abbrev pub is_true : Value → Bool
is_true (bool b) = b
is_true _ = false

-- The elements that a field holds, if it holds an array; a nil slice has none.
abbrev pub elements : Items → List Value
elements nil = []
elements (cons v vs) = v ∷ elements vs

abbrev pub some_elements : Option Items → Option (List Value)
some_elements none = none
some_elements (some vs) = some (elements vs)

abbrev pub array_of : Option Items → List Value
array_of none = []
array_of (some vs) = elements vs

abbrev pub text_of : Option String → String
text_of none = ""
text_of (some s) = s

abbrev pub get_object : String → Fields → Option Fields
get_object key m = as_object (or_null (get key m))

abbrev pub get_array : String → Fields → List Value
get_array key m = array_of (as_array (or_null (get key m)))

-- `m[key].([]interface{})`, where it is one
abbrev pub get_elements : String → Fields → Option (List Value)
get_elements key m = some_elements (as_array (or_null (get key m)))

abbrev pub get_text : String → Fields → String
get_text key m = text_of (as_text (or_null (get key m)))

abbrev pub get_true : String → Fields → Bool
get_true key m = is_true (or_null (get key m))

-- How deep objects and arrays nest.
unfoldable mutual
  pub depth : Value → ℕ
  depth null = 0
  depth (bool b) = 0
  depth (number n) = 0
  depth (str s) = 0
  depth (array vs) = suc (depth_items vs)
  depth (object m) = suc (depth_fields m)

  pub depth_items : Items → ℕ
  depth_items nil = 0
  depth_items (cons v vs) = max (depth v) (depth_items vs)

  pub depth_fields : Fields → ℕ
  depth_fields end = 0
  depth_fields (field k v m) = max (depth v) (depth_fields m)
