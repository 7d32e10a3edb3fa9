-- ===== src/Base/Texts.antt =====
-- Lists of texts as the sets that the source keeps in maps.
use package.text.Mathlib.Text.{◌==◌ as str_eq}
use package.text.Mathlib.TextEquality.{eq_iff}
use package.text.Mathlib.TextPositions.{eq_refl}
use package.text.Mathlib.TextLemmas.{nil-append, cons-append}
use Prim.Native.Char.{code}
use Prim.Native.String as Text
use Prim.Native.String.{String}
use mathlib.Core.Path.{◌≡◌, refl, ap, ◌∙◌}
use mathlib.Core.Bool.{Bool, true, false, ◌||◌}
use mathlib.Core.List.{List, [], ◌∷◌, ◌++◌}
use native.Mathlib.Omega.{arith}
use repodocs_go.Base.Tests.{if◌then◌else◌}
use repodocs_go.Base.Lists.{All}
use repodocs_go.Base.Codes.{codes}

-- Whether a text is a key of such a map.
abbrev pub contains : List String → String → Bool
contains [] url = false
contains (u ∷ us) url = if str_eq u url then true else contains us url

-- No two of the list are the same text.
abbrev pub Distinct : List String → Type 0
Distinct [] = Unit
Distinct (u ∷ us) = All (λ v. str_eq v u ≡ false) us × Distinct us

pub contains-append :
    (us vs : List String) (u : String) → contains (us ++ vs) u ≡ (contains us u || contains vs u)
contains-append [] vs u = refl
contains-append (w ∷ us) vs u = ground (arith, contains-append us vs u)

pub contains-singleton : (u v : String) → contains (u ∷ []) v ≡ true → u ≡ v
contains-singleton u v h = ground (arith, eq_iff u v)

pub contains_refl : (u : String) → contains (u ∷ []) u ≡ true
contains_refl u = ground (arith, eq_refl u)

All-snoc :
    (w u : String) (us : List String)
    → All (λ v. str_eq v w ≡ false) us
    → str_eq u w ≡ false
    → All (λ v. str_eq v w ≡ false) (us ++ u ∷ [])
All-snoc w u [] h other = (other, tt)
All-snoc w u (v ∷ us) (g, h) other = (g, All-snoc w u us h other)

pub Distinct-snoc :
    (us : List String) (u : String) → Distinct us → contains us u ≡ false → Distinct (us ++ u ∷ [])
Distinct-snoc [] u h fresh = (tt, tt)
Distinct-snoc (w ∷ us) u (h, hs) fresh =
    let other : str_eq u w ≡ false = ground (arith, eq_iff w u, eq_iff u w) in
    let later : contains us u ≡ false = ground (arith, eq_iff w u) in
    (All-snoc w u us h other, Distinct-snoc us u hs later)

pub codes-append : (s t : String) → codes (Text.◌++◌ s t) ≡ codes s ++ codes t
codes-append Text.[] t = ap codes (nil-append t)
codes-append (Text.◌∷◌ c s) t =
    ap codes (cons-append c s t) ∙ ap (λ cs. code c ∷ cs) (codes-append s t)
