-- ===== src/Docsrs/Types.antt =====
-- internal/strategies/docsrs_types.go: the typed views of an item's inner object. Fields that no other
-- code reads are left out.
use repodocs_go.Base.{add_found, Bool, false, String, List, [], ◌∷◌, Option, none, some}
use text.Mathlib.Text.{◌==◌ as str_eq}
use repodocs_go.Docsrs.Json.{
  Value, str, Fields, get, or_null, as_object, get_object, get_array, get_text, get_true,
}

pub record RustdocDeprecation : Type 0 where
  pub since : String
  pub note : String

pub record RustdocItem : Type 0 where
  pub name : Option String
  pub visibility : Value
  pub docs : Option String
  -- a nil map and an empty one are not told apart, here and in `inner`
  pub links : List (String × Value)
  pub deprecation : Option RustdocDeprecation
  pub inner : Fields

pub record RustdocModule : Type 0 where
  pub is_crate : Bool
  pub items : List Value

pub record RustdocGenericParam : Type 0 where
  pub name : String

pub record RustdocGenerics : Type 0 where
  pub params : List RustdocGenericParam

pub record RustdocHeader : Type 0 where
  pub is_const : Bool
  pub is_unsafe : Bool
  pub is_async : Bool

pub record RustdocFunctionSig : Type 0 where
  pub inputs : List Value
  pub output : Value

pub record RustdocFunction : Type 0 where
  pub sig : Option RustdocFunctionSig
  pub generics : Option RustdocGenerics
  pub header : Option RustdocHeader

pub record RustdocTrait : Type 0 where
  pub is_auto : Bool
  pub is_unsafe : Bool
  pub items : List Value
  pub generics : Option RustdocGenerics

-- `RustdocStruct` and `RustdocEnum`
pub record RustdocAdt : Type 0 where
  pub generics : Option RustdocGenerics
  pub impls : List Value

pub record RustdocImpl : Type 0 where
  pub trait : Value
  pub items : List Value

pub record RustdocTypeAlias : Type 0 where
  pub aliased : Value
  pub generics : Option RustdocGenerics

pub record RustdocConstant : Type 0 where
  pub const_type : Value

abbrev pub map_option {ℓ κ} : {A : Type ℓ} {B : Type κ} → (A → B) → Option A → Option B
map_option f none = none
map_option f (some a) = some (f a)

-- The loop over `params`: what is no object is skipped.
abbrev pub param_of : Fields → RustdocGenericParam
param_of pm = record { name = get_text "name" pm }

abbrev pub params_of : List Value → List RustdocGenericParam
params_of [] = []
params_of (p ∷ ps) = add_found (map_option param_of (as_object p)) (params_of ps)

unfoldable pub parse_generics : Fields → RustdocGenerics
parse_generics m = record { params = params_of (get_array "params" m) }

unfoldable pub parse_header : Fields → RustdocHeader
parse_header m = record {
  is_const = get_true "is_const" m;
  is_unsafe = get_true "is_unsafe" m;
  is_async = get_true "is_async" m;
}

unfoldable pub parse_function_sig : Fields → RustdocFunctionSig
parse_function_sig m = record { inputs = get_array "inputs" m; output = or_null (get "output" m) }

abbrev pub generics_of : Fields → Option RustdocGenerics
unfolding parse_generics
generics_of m = map_option parse_generics (get_object "generics" m)

unfoldable pub parse_module : Fields → RustdocModule
parse_module m = record { is_crate = get_true "is_crate" m; items = get_array "items" m }

unfoldable pub parse_function : Fields → RustdocFunction
unfolding parse_function_sig parse_generics parse_header
parse_function m = record {
  sig = map_option parse_function_sig (get_object "sig" m);
  generics = generics_of m;
  header = map_option parse_header (get_object "header" m);
}

unfoldable pub parse_trait : Fields → RustdocTrait
unfolding parse_generics
parse_trait m = record {
  is_auto = get_true "is_auto" m;
  is_unsafe = get_true "is_unsafe" m;
  items = get_array "items" m;
  generics = generics_of m;
}

-- `parseStruct` and `parseEnum`, as far as they are read
unfoldable pub parse_adt : Fields → RustdocAdt
unfolding parse_generics
parse_adt m = record { generics = generics_of m; impls = get_array "impls" m }

unfoldable pub parse_impl : Fields → RustdocImpl
parse_impl m = record { trait = or_null (get "trait" m); items = get_array "items" m }

unfoldable pub parse_type_alias : Fields → RustdocTypeAlias
unfolding parse_generics
parse_type_alias m = record { aliased = or_null (get "type" m); generics = generics_of m }

unfoldable pub parse_constant : Fields → RustdocConstant
parse_constant m = record { const_type = or_null (get "type" m) }

-- The getters: a key of `inner` whose value is an object. `GetUse`, `GetMacro` and `GetVariant` are
-- only asked whether they find one.
abbrev pub inner_object : String → RustdocItem → Option Fields
inner_object key item = get_object key item.inner

unfoldable pub get_module : RustdocItem → Option RustdocModule
unfolding parse_module
get_module item = map_option parse_module (inner_object "module" item)

unfoldable pub get_function : RustdocItem → Option RustdocFunction
unfolding parse_function
get_function item = map_option parse_function (inner_object "function" item)

unfoldable pub get_trait : RustdocItem → Option RustdocTrait
unfolding parse_trait
get_trait item = map_option parse_trait (inner_object "trait" item)

unfoldable pub get_struct : RustdocItem → Option RustdocAdt
unfolding parse_adt
get_struct item = map_option parse_adt (inner_object "struct" item)

unfoldable pub get_enum : RustdocItem → Option RustdocAdt
unfolding parse_adt
get_enum item = map_option parse_adt (inner_object "enum" item)

unfoldable pub get_impl : RustdocItem → Option RustdocImpl
unfolding parse_impl
get_impl item = map_option parse_impl (inner_object "impl" item)

unfoldable pub get_type_alias : RustdocItem → Option RustdocTypeAlias
unfolding parse_type_alias
get_type_alias item = map_option parse_type_alias (inner_object "type_alias" item)

unfoldable pub get_constant : RustdocItem → Option RustdocConstant
unfolding parse_constant
get_constant item = map_option parse_constant (inner_object "constant" item)

-- Only the text "public" is; an object is a restricted visibility.
unfoldable pub is_public : RustdocItem → Bool
is_public item = elim item.visibility [ str v ↦ str_eq v "public" | _ ↦ false ]
