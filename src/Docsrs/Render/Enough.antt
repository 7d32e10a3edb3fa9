-- ===== src/Docsrs/Render/Enough.antt =====
-- internal/strategies/docsrs_renderer.go: the fuel of `RenderType` is enough for any value.
use repodocs_go.Docsrs.Json.{
  get_elements, get_true, null, get_text, str, bool, object, array, get_array, as_object, as_array,
  nil, cons,
}
use mathlib.Core.Option.{some-injective}
use repodocs_go.Base.{
  none, subst, Option, zero, suc, if◌then◌else◌, >>=-eq-some, ap, Option-cases, inr, inl,
  Bool-cases, refl, arith, [], ◌∷◌, ◌<◌, some, map, ◌≡◌, ◌≤◌, All, String, List, ℕ,
}
use repodocs_go.Docsrs.Json.{
  end, field, get, cons, or_null, elements, get_object, depth_items, depth_fields, Items, Fields,
  depth, Value,
}
use repodocs_go.Docsrs.Render.{
  branch, join, type_arg, lifetime_of, angle_bracketed, angled, ◌⊕◌, sprint, other, qualified_path,
  impl_trait, str_eq, raw_pointer, tuple, fixed_array, slice, generic, borrowed_ref, primitive,
  angle_args, type_args, resolved_path, Shape, shape, render_shape, render_within, render_type,
}

-- The values that the branch for a shape renders.
parts : Shape → List Value
parts (resolved_path m) = type_args (angle_args m)
parts (borrowed_ref m) = or_null (get "type" m) ∷ []
parts (slice v) = v ∷ []
parts (fixed_array m) = or_null (get "type" m) ∷ []
parts (tuple vs) = vs
parts (raw_pointer m) = or_null (get "type" m) ∷ []
parts (primitive v) = []
parts (generic v) = []
parts (impl_trait vs) = []
parts (qualified_path m) = []
parts other = []

map-agree : (f g : Value → String) (vs : List Value) → All (λ v. f v ≡ g v) vs → map f vs ≡ map g vs
map-agree f g [] h = refl
map-agree f g (v ∷ vs) (h, hs) = cc (h, map-agree f g vs hs)

render_shape-agree :
    (fmt f g : Value → String) (s : Shape)
    → All (λ v. f v ≡ g v) (parts s)
    → render_shape fmt f s ≡ render_shape fmt g s
unfolding render_shape parts
render_shape-agree fmt f g (primitive v) h = refl
render_shape-agree fmt f g (generic v) h = refl
render_shape-agree fmt f g (resolved_path m) h =
    ap (λ ss. sprint fmt (or_null (get "path" m)) ⊕ angled ss) (map-agree f g _ h)
render_shape-agree fmt f g (borrowed_ref m) h =
    ap
      (λ t.
        "&"
        ⊕ lifetime_of (get_text "lifetime" m)
        ⊕ (if get_true "is_mutable" m then "mut " else "")
        ⊕ t)
      h.0
render_shape-agree fmt f g (slice v) h = rw h.0
render_shape-agree fmt f g (fixed_array m) h = rw h.0
render_shape-agree fmt f g (tuple []) h = refl
render_shape-agree fmt f g (tuple (v ∷ vs)) h =
    ap (λ ss. "(" ⊕ join ", " ss ⊕ ")") (map-agree f g (v ∷ vs) h)
render_shape-agree fmt f g (raw_pointer m) h = rw h.0
render_shape-agree fmt f g (impl_trait vs) h = refl
render_shape-agree fmt f g (qualified_path m) h = refl
render_shape-agree fmt f g other h = refl

-- A value no deeper than `d`.
abbrev Within : ℕ → Value → Type 0
Within d v = depth v ≤ d

get-Within : (key : String) (m : Fields) → Within (depth_fields m) (or_null (get key m))
unfolding depth
get-Within key end = omega arith
get-Within key (field k v m) = elim (Bool-cases (str_eq k key)) [
  | inl here ↦ rw here (omega arith)
  | inr there ↦ rw there (omega (arith, get-Within key m))
]

as_object-lt : (v : Value) (x : Fields) → as_object v ≡ some x → depth_fields x < depth v
unfolding depth
as_object-lt (object m) x h = ground arith
as_object-lt null x h = cc
as_object-lt (bool b) x h = cc
as_object-lt (Value.number n) x h = cc
as_object-lt (str s) x h = cc
as_object-lt (array vs) x h = cc

get_object-lt :
    (key : String) (m x : Fields) → get_object key m ≡ some x → depth_fields x < depth_fields m
get_object-lt key m x h = omega (arith, as_object-lt (or_null (get key m)) x h, get-Within key m)

All-Within : (d e : ℕ) (vs : List Value) → d ≤ e → All (Within d) vs → All (Within e) vs
All-Within d e [] l h = tt
All-Within d e (v ∷ vs) l (h, hs) = (omega arith, All-Within d e vs l hs)

elements-Within : (vs : Items) → All (Within (depth_items vs)) (elements vs)
unfolding depth
elements-Within nil = tt
elements-Within (cons v vs) =
    (omega arith, All-Within (depth_items vs) _ (elements vs) (omega arith) (elements-Within vs))

as_array-Within :
    (v : Value) (vs : Items) → as_array v ≡ some vs → All (Within (depth v)) (elements vs)
unfolding depth
as_array-Within (array ws) vs h =
    All-Within (depth_items vs) _ (elements vs) (ground arith) (elements-Within vs)
as_array-Within null vs h = cc
as_array-Within (bool b) vs h = cc
as_array-Within (Value.number n) vs h = cc
as_array-Within (str s) vs h = cc
as_array-Within (object m) vs h = cc

get_elements-Within :
    (key : String) (m : Fields) (vs : List Value)
    → get_elements key m ≡ some vs
    → All (Within (depth_fields m)) vs
get_elements-Within key m vs h = elim (Option-cases (as_array (or_null (get key m)))) [
  | inl nothing ↦ let impossible = rw nothing at h in cc
  | inr (ws, there) ↦
      let same : some (elements ws) ≡ some vs = rw there at h in
      subst (All (Within (depth_fields m))) (some-injective (elements ws) vs same) (
        All-Within (depth (or_null (get key m))) _ (elements ws) (get-Within key m)
          (as_array-Within (or_null (get key m)) ws there))
]

array_of-Within : (key : String) (m : Fields) → All (Within (depth_fields m)) (get_array key m)
array_of-Within key m = elim (Option-cases (as_array (or_null (get key m)))) [
  | inl nothing ↦ rw nothing tt
  | inr (vs, there) ↦ rw there (
      All-Within (depth (or_null (get key m))) _ (elements vs) (get-Within key m)
        (as_array-Within (or_null (get key m)) vs there))
]

type_arg-Within : (d : ℕ) (v t : Value) → Within d v → type_arg v ≡ some t → Within d t
unfolding type_arg
type_arg-Within d v t h e =
    let (m, object_, there) = >>=-eq-some (as_object v) (get "type") e in
    let deep : depth (or_null (get "type" m)) ≤ depth_fields m = get-Within "type" m in
    let deep' : depth t ≤ depth_fields m = rw there at deep in
    omega (arith, deep', as_object-lt v m object_, h)

type_args-Within : (d : ℕ) (vs : List Value) → All (Within d) vs → All (Within d) (type_args vs)
type_args-Within d [] h = tt
type_args-Within d (v ∷ vs) (h, hs) = elim (Option-cases (type_arg v)) [
  | inl nothing ↦ rw nothing (type_args-Within d vs hs)
  | inr (t, there) ↦ rw there (type_arg-Within d v t h there, type_args-Within d vs hs)
]

angle_bracketed-lt : (m x : Fields) → angle_bracketed m ≡ some x → depth_fields x < depth_fields m
unfolding angle_bracketed
angle_bracketed-lt m x e =
    let (args, there, inside) =
      >>=-eq-some (get_object "args" m) (get_object "angle_bracketed") e in
    omega (arith, get_object-lt "args" m args there, get_object-lt "angle_bracketed" args x inside)

angle_args-Within : (m : Fields) → All (Within (depth_fields m)) (angle_args m)
angle_args-Within m = elim (Option-cases (angle_bracketed m)) [
  | inl nothing ↦ rw nothing tt
  | inr (angle, there) ↦ rw there (
      All-Within (depth_fields angle) _ (get_array "args" angle)
        (omega (arith, angle_bracketed-lt m angle there)) (array_of-Within "args" angle))
]

-- The parts of a shape are no deeper than `d`.
abbrev ShapeWithin : ℕ → Shape → Type 0
ShapeWithin d s = All (Within d) (parts s)

module _ (m : Fields) where
  branch-Within :
      {A : Type 0} (c : A → Shape) (o : Option A) (rest : Shape)
      → ((a : A) → o ≡ some a → ShapeWithin (depth_fields m) (c a))
      → ShapeWithin (depth_fields m) rest
      → ShapeWithin (depth_fields m) (branch c o rest)
  branch-Within c none rest hc hr = hr
  branch-Within c (some a) rest hc hr = hc a refl

  value-Within : (key : String) (v : Value) → get key m ≡ some v → Within (depth_fields m) v
  value-Within key v there =
      let deep : depth (or_null (get key m)) ≤ depth_fields m = get-Within key m in
      let deep' : depth v ≤ depth_fields m = rw there at deep in deep'

  -- The `type` of an object inside.
  inner_type :
      (key : String) (x : Fields)
      → get_object key m ≡ some x
      → depth (or_null (get "type" x)) ≤ depth_fields m
  inner_type key x h = omega (arith, get_object-lt key m x h, get-Within "type" x)

  args-Within :
      (key : String) (x : Fields)
      → get_object key m ≡ some x
      → All (Within (depth_fields m)) (type_args (angle_args x))
  args-Within key x h =
      All-Within (depth_fields x) _ (type_args (angle_args x))
        (omega (arith, get_object-lt key m x h))
        (type_args-Within (depth_fields x) (angle_args x) (angle_args-Within x))

  shape-Within : ShapeWithin (depth_fields m) (shape m)
  unfolding shape parts
  shape-Within =
      let from_qualified_path : Shape =
        branch qualified_path (get_object "qualified_path" m) other in
      let from_impl_trait : Shape =
        branch impl_trait (get_elements "impl_trait" m) from_qualified_path in
      let from_raw_pointer : Shape =
        branch raw_pointer (get_object "raw_pointer" m) from_impl_trait in
      let from_tuple : Shape = branch tuple (get_elements "tuple" m) from_raw_pointer in
      let from_fixed_array : Shape = branch fixed_array (get_object "array" m) from_tuple in
      let from_slice : Shape = branch slice (get "slice" m) from_fixed_array in
      let from_borrowed_ref : Shape =
        branch borrowed_ref (get_object "borrowed_ref" m) from_slice in
      let from_resolved_path : Shape =
        branch resolved_path (get_object "resolved_path" m) from_borrowed_ref in
      let from_generic : Shape = branch generic (get "generic" m) from_resolved_path in
      branch-Within primitive (get "primitive" m) from_generic (λ v e. tt)
        (branch-Within generic (get "generic" m) from_resolved_path (λ v e. tt)
          (branch-Within resolved_path (get_object "resolved_path" m) from_borrowed_ref
            (λ x e. args-Within "resolved_path" x e)
            (branch-Within borrowed_ref (get_object "borrowed_ref" m) from_slice
              (λ x e. (inner_type "borrowed_ref" x e, tt))
              (branch-Within slice (get "slice" m) from_fixed_array
                (λ v e. (value-Within "slice" v e, tt))
                (branch-Within fixed_array (get_object "array" m) from_tuple
                  (λ x e. (inner_type "array" x e, tt))
                  (branch-Within tuple (get_elements "tuple" m) from_raw_pointer
                    (λ vs e. get_elements-Within "tuple" m vs e)
                    (branch-Within raw_pointer (get_object "raw_pointer" m) from_impl_trait
                      (λ x e. (inner_type "raw_pointer" x e, tt))
                      (branch-Within impl_trait (get_elements "impl_trait" m) from_qualified_path
                        (λ vs e. tt)
                        (branch-Within qualified_path (get_object "qualified_path" m) other
                          (λ x e. tt) tt)))))))))

module _ (fmt : Value → String) where
  mutual_agree :
      (n k : ℕ) (vs : List Value)
      → ((v : Value) → Within n v → Within k v → render_within fmt n v ≡ render_within fmt k v)
      → All (Within n) vs
      → All (Within k) vs
      → All (λ v. render_within fmt n v ≡ render_within fmt k v) vs
  mutual_agree n k [] h hn hk = tt
  mutual_agree n k (v ∷ vs) h (hn, hns) (hk, hks) = (h v hn hk, mutual_agree n k vs h hns hks)

  render_within-agree :
      (n k : ℕ) (v : Value)
      → Within n v
      → Within k v
      → render_within fmt n v ≡ render_within fmt k v
  unfolding render_within depth
  render_within-agree n k null hn hk = refl
  render_within-agree n k (str s) hn hk = refl
  render_within-agree n k (bool b) hn hk = refl
  render_within-agree n k (Value.number x) hn hk = refl
  render_within-agree n k (array vs) hn hk = refl
  render_within-agree zero k (object m) hn hk = absurd (omega (arith, hn))
  render_within-agree (suc n) zero (object m) hn hk = absurd (omega (arith, hk))
  render_within-agree (suc n) (suc k) (object m) hn hk =
      render_shape-agree fmt (render_within fmt n) (render_within fmt k) (shape m) (
        mutual_agree n k (parts (shape m)) (λ v. render_within-agree n k v)
          (All-Within (depth_fields m) n (parts (shape m)) (omega (arith, hn)) (shape-Within m))
          (All-Within (depth_fields m) k (parts (shape m)) (omega (arith, hk)) (shape-Within m)))

  -- Any fuel that is no less than the nesting of a value gives its rendering: `RenderType` never runs
  -- out of the fuel that it is given.
  pub render_within-render_type :
      (n : ℕ) (v : Value) → depth v ≤ n → render_within fmt n v ≡ render_type fmt v
  unfolding render_type
  render_within-render_type n v h = render_within-agree n (depth v) v h (omega arith)
