-- ===== src/Strategies/Llms/Links.antt =====
-- internal/strategies/llms.go: the links of an llms.txt are read once each.
use package.text.Mathlib.Text.{◌==◌ as str_eq, starts_with}
use repodocs_go.Base.{
  ◌≡◌, refl, ap, arith, All, Distinct, Distinct-snoc, contains, Bool-cases, String, List, [], ◌∷◌,
  ◌++◌, Option, none, some, false, ◌||◌, if◌then◌else◌, inl, inr, split, trim_space,
}
use repodocs_go.Strategies.Llms.{
  LlmsLink, Patterns, urls_of, add_link, add_found_link, link_of, links_from, parse_llms_links,
}

-- A URL that is there, and is no anchor of the page itself.
abbrev pub IsTarget : String → Type 0
IsTarget url = (str_eq url "" ≡ false) × (starts_with url "#" ≡ false)

abbrev Fits : List LlmsLink → Type 0
Fits links = Distinct (urls_of links) × All IsTarget (urls_of links)

urls-snoc :
    (links : List LlmsLink) (l : LlmsLink) → urls_of (links ++ l ∷ []) ≡ urls_of links ++ l.url ∷ []
urls-snoc [] l = refl
urls-snoc (k ∷ links) l = ap (λ us. k.url ∷ us) (urls-snoc links l)

All-IsTarget :
    (us : List String) (u : String) → All IsTarget us → IsTarget u → All IsTarget (us ++ u ∷ [])
All-IsTarget [] u h t = (t, tt)
All-IsTarget (v ∷ us) u (h, hs) t = (h, All-IsTarget us u hs t)

add_link-Fits : (l : LlmsLink) (links : List LlmsLink) → Fits links → Fits (add_link l links)
unfolding add_link
add_link-Fits l links (d, t) =
    elim (Bool-cases (str_eq l.url "" || starts_with l.url "#" || contains (urls_of links) l.url)) [
      | inl out ↦ rw out (d, t)
      | inr new ↦
          let target : IsTarget l.url = (ground (arith, new), ground (arith, new)) in
          rw (new, urls-snoc links l)
            (
              Distinct-snoc (urls_of links) l.url d (ground (arith, new)),
              All-IsTarget (urls_of links) l.url t target,
            )
    ]

module _ (re : Patterns) where
  add_found-Fits :
      (o : Option LlmsLink) (links : List LlmsLink) → Fits links → Fits (add_found_link o links)
  add_found-Fits none links f = f
  add_found-Fits (some l) links f = add_link-Fits l links f

  line-Fits :
      (line : String) (links : List LlmsLink)
      → Fits links
      → Fits (if str_eq line "" then links else add_found_link (link_of re line) links)
  line-Fits line links f = elim (Bool-cases (str_eq line "")) [
    | inl blank ↦ rw blank f
    | inr full ↦ rw full (add_found-Fits (link_of re line) links f)
  ]

  links_from-Fits :
      (lines : List String) (links : List LlmsLink) → Fits links → Fits (links_from re lines links)
  unfolding links_from
  links_from-Fits [] links f = f
  links_from-Fits (l ∷ lines) links f =
      links_from-Fits lines
        (if str_eq (trim_space l) ""
          then links
          else add_found_link (link_of re (trim_space l)) links)
        (line-Fits (trim_space l) links f)

-- Whatever the regular expressions find in an llms.txt, no two of the links read have the same URL, and
-- none has an empty one or one that begins with `#`.
pub parse_llms_links-Fits :
    (re : Patterns) (content : String)
    → Distinct (urls_of (parse_llms_links re content))
      × All IsTarget (urls_of (parse_llms_links re content))
unfolding parse_llms_links
parse_llms_links-Fits re content = links_from-Fits re (split 10 content) [] (tt, tt)
