-- ===== src/Utils/Url/Base.antt =====
-- internal/utils/url.go: `HasBaseURL` orders the URLs by their place in the site.
use package.text.Mathlib.Text.{◌==◌ as str_eq, starts_with}
use package.text.Mathlib.TextEquality.{eq_iff, starts_with_iff}
use package.text.Mathlib.TextPositions.{eq_refl}
use package.text.Mathlib.TextBridge.{IsPrefix}
use package.text.Mathlib.TextLemmas.{append_assoc}
use Prim.Native.String as Text
use repodocs_go.Base.{
  length-append, codes-append, ◌<◌, length, ◌≡◌, refl, sym, ap, subst, ◌∙◌, arith, true, false,
  String, List, [], ◌∷◌, Option, some, ℕ, same_codes, codes, lower_codes, Bool-cases, Option-cases,
  inl, inr, trim_suffix,
}
use repodocs_go.Utils.Url.{Url, same_lower, path_under, url_under, has_base_url}

same_codes_refl : (cs : List ℕ) → same_codes cs cs ≡ true
same_codes_refl [] = refl
same_codes_refl (c ∷ cs) = ground (arith, same_codes_refl cs)

same_codes-eq : (cs ds : List ℕ) → same_codes cs ds ≡ true → cs ≡ ds
same_codes-eq [] [] h = refl
same_codes-eq [] (d ∷ ds) h = absurd (ground (arith, h))
same_codes-eq (c ∷ cs) [] h = absurd (ground (arith, h))
same_codes-eq (c ∷ cs) (d ∷ ds) h =
    let rest : same_codes cs ds ≡ true = ground (arith, h) in
    let first : c ≡ d = ground (arith, h) in
    ap (λ x. x ∷ cs) first ∙ ap (λ l. d ∷ l) (same_codes-eq cs ds rest)

same_lower_refl : (s : String) → same_lower s s ≡ true
unfolding same_lower
same_lower_refl s = same_codes_refl (lower_codes (codes s))

same_lower_trans :
    (a b c : String) → same_lower a b ≡ true → same_lower b c ≡ true → same_lower a c ≡ true
unfolding same_lower
same_lower_trans a b c h k = rw (same_codes-eq (lower_codes (codes a)) (lower_codes (codes b)) h) k

-- Below is below what is above.
prefix_trans :
    (t b c : String)
    → IsPrefix (Text.◌++◌ b "/") t
    → IsPrefix (Text.◌++◌ c "/") b
    → IsPrefix (Text.◌++◌ c "/") t
prefix_trans t b c (r, e) (s, f) = (
  Text.◌++◌ s (Text.◌++◌ "/" r),
  sym (append_assoc (Text.◌++◌ c "/") s (Text.◌++◌ "/" r))
      ∙ ap (λ x. Text.◌++◌ x (Text.◌++◌ "/" r)) f
      ∙ sym (append_assoc b "/" r)
      ∙ e,
)

-- How long a text is that another one and a slash begin.
length-below : (b c : String) → IsPrefix (Text.◌++◌ c "/") b → length (codes c) < length (codes b)
length-below b c (s, f) = omega (
  arith,
  ap (λ x. length (codes x)) f,
  ap length (codes-append (Text.◌++◌ c "/") s),
  ap length (codes-append c "/"),
  length-append (codes (Text.◌++◌ c "/")) (codes s),
  length-append (codes c) (codes "/"),
)

empty_text : (c : String) → length (codes c) ≡ 0 → str_eq c "" ≡ true
empty_text Text.[] h = refl
empty_text (Text.◌∷◌ d c) h = absurd (omega (arith, h))

path_under-below : (t c : String) → IsPrefix (Text.◌++◌ c "/") t → path_under t c ≡ true
path_under-below t c p = ground (arith, (starts_with_iff t (Text.◌++◌ c "/")).1 p)

path_under_trans_below :
    (t b c : String) → path_under t b ≡ true → IsPrefix (Text.◌++◌ c "/") b → path_under t c ≡ true
path_under_trans_below t b c h p = elim (Bool-cases (str_eq b "")) [
  | inl e ↦
      absurd (omega (arith, length-below b c p, ap (λ x. length (codes x)) ((eq_iff b "").0 e)))
  | inr full ↦ elim (Bool-cases (str_eq b "/")) [
    | inl e ↦
        let one = ap (λ x. length (codes x)) ((eq_iff b "/").0 e) in
        ground (arith, empty_text c (omega (arith, length-below b c p, one)))
    | inr deep ↦ elim (Bool-cases (str_eq t b)) [
      | inl e ↦ path_under-below t c (subst (IsPrefix (Text.◌++◌ c "/")) (sym ((eq_iff t b).0 e)) p)
      | inr strict ↦
          let q : starts_with t (Text.◌++◌ b "/") ≡ true = ground (arith, h) in
          path_under-below t c (prefix_trans t b c ((starts_with_iff t (Text.◌++◌ b "/")).0 q) p)
    ]
  ]
]

path_under_trans :
    (t b c : String) → path_under t b ≡ true → path_under b c ≡ true → path_under t c ≡ true
path_under_trans t b c h k = elim (Bool-cases (starts_with b (Text.◌++◌ c "/"))) [
  | inl below ↦ path_under_trans_below t b c h ((starts_with_iff b (Text.◌++◌ c "/")).0 below)
  | inr no_ ↦ elim (Bool-cases (str_eq b c)) [
    | inl e ↦ subst (λ x. path_under t x ≡ true) ((eq_iff b c).0 e) h
    | inr other ↦ ground (arith, k)
  ]
]

url_under_trans : (t b c : Url) → url_under t b ≡ true → url_under b c ≡ true → url_under t c ≡ true
url_under_trans t b c h k =
    let hosts = same_lower_trans t.host b.host c.host (ground (arith, h)) (ground (arith, k)) in
    let paths =
      path_under_trans (trim_suffix t.path "/") (trim_suffix b.path "/") (trim_suffix c.path "/")
        (ground (arith, h)) (ground (arith, k)) in
    rw (hosts, paths) refl

module _ (parse : String → Option Url) where
  has_base_url-under :
      (t b : String)
      → str_eq b "" ≡ false
      → has_base_url parse t b ≡ true
      → (x : Url) × (y : Url) × (parse t ≡ some x) × (parse b ≡ some y) × (url_under x y ≡ true)
  unfolding has_base_url
  has_base_url-under t b full h = elim (Option-cases (parse t)) [
    | inl bad ↦ absurd cc
    | inr (x, e) ↦ elim (Option-cases (parse b)) [
      | inl bad ↦ absurd cc
      | inr (y, f) ↦ (x, y, e, f, rw (has_base_url, full, e, f) at h)
    ]
  ]

  has_base_url-intro :
      (t b : String) (x y : Url)
      → parse t ≡ some x
      → parse b ≡ some y
      → url_under x y ≡ true
      → has_base_url parse t b ≡ true
  unfolding has_base_url
  has_base_url-intro t b x y e f h = elim (Bool-cases (str_eq b "")) [
    | inl none_ ↦ rw (has_base_url, none_) refl
    | inr full ↦ rw (has_base_url, full, e, f) h
  ]

  has_base_url-empty : (t b : String) → str_eq b "" ≡ true → has_base_url parse t b ≡ true
  unfolding has_base_url
  has_base_url-empty t b h = rw (has_base_url, h) refl

  path_under_refl : (p : String) → path_under p p ≡ true
  path_under_refl p = ground (arith, eq_refl p)

  pub has_base_url_refl : (u : String) (x : Url) → parse u ≡ some x → has_base_url parse u u ≡ true
  has_base_url_refl u x e =
      has_base_url-intro u u x x e e
        (rw (same_lower_refl x.host, path_under_refl (trim_suffix x.path "/")) refl)

  -- What is under a URL that is under a base is under that base, whatever the slashes at their ends and the case of
  -- their hosts; the URL in the middle is not empty, since all is under an empty one.
  pub has_base_url_trans :
      (t b c : String)
      → str_eq b "" ≡ false
      → has_base_url parse t b ≡ true
      → has_base_url parse b c ≡ true
      → has_base_url parse t c ≡ true
  has_base_url_trans t b c full h k = elim (Bool-cases (str_eq c "")) [
    | inl none_ ↦ has_base_url-empty t c none_
    | inr deep ↦
        let (x, y, e, f, under) = has_base_url-under t b full h in
        let (y', z, f', g, above) = has_base_url-under b c deep k in
        let same : y' ≡ y = cc in
        has_base_url-intro t c x z e g
          (url_under_trans x y z under (subst (λ w. url_under w z ≡ true) same above))
  ]
