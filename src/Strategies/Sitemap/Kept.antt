-- ===== src/Strategies/Sitemap/Kept.antt =====
-- internal/strategies/sitemap.go: what the limit and the filter keep of a list.
use repodocs_go.Base.{
  ◌≡◌, refl, sym, ap, ◌∙◌, ◌-◌, ◌==◌, Bool-cases, List, [], ◌∷◌, ◌++◌, ℕ, zero, suc, ℤ, pos, negsuc,
  true, String, inl, inr, arith, length,
}
use package.text.Mathlib.Text.{starts_with}
use repodocs_go.Strategies.Sitemap.{filter_sitemap_urls, with_prefix, first_n, limited}
use repodocs_go.Strategies.Sitemap.Plain.{SitemapUrl}
use repodocs_go.Strategies.Sitemap.Walk.{within_limit, limit_reached}

pub append-nil : (us : List SitemapUrl) → us ++ [] ≡ us
append-nil [] = refl
append-nil (u ∷ us) = ap (λ l. u ∷ l) (append-nil us)

pub append_assoc : (a b c : List SitemapUrl) → (a ++ b) ++ c ≡ a ++ (b ++ c)
append_assoc [] b c = refl
append_assoc (u ∷ a) b c = ap (λ l. u ∷ l) (append_assoc a b c)

with_prefix-append :
    (f : String) (us vs : List SitemapUrl)
    → with_prefix f (us ++ vs) ≡ with_prefix f us ++ with_prefix f vs
with_prefix-append f [] vs = refl
with_prefix-append f (u ∷ us) vs = ground (arith, with_prefix-append f us vs)

with_prefix_idem :
    (f : String) (us : List SitemapUrl) → with_prefix f (with_prefix f us) ≡ with_prefix f us
with_prefix_idem f [] = refl
with_prefix_idem f (u ∷ us) = elim (Bool-cases (starts_with u.loc f)) [
  | inl yes_ ↦ ground (arith, with_prefix_idem f us)
  | inr no_ ↦ ground (arith, with_prefix_idem f us)
]

pub filter-append :
    (f : String) (us vs : List SitemapUrl)
    → filter_sitemap_urls f (us ++ vs) ≡ filter_sitemap_urls f us ++ filter_sitemap_urls f vs
unfolding filter_sitemap_urls
filter-append f us vs = ground (arith, with_prefix-append f us vs)

pub filter_idem :
    (f : String) (us : List SitemapUrl)
    → filter_sitemap_urls f (filter_sitemap_urls f us) ≡ filter_sitemap_urls f us
unfolding filter_sitemap_urls
filter_idem f us = ground (arith, with_prefix_idem f us)

first_n-zero : (us : List SitemapUrl) → first_n 0 us ≡ []
first_n-zero [] = refl
first_n-zero (u ∷ us) = refl

first_n-append :
    (n : ℕ) (us vs : List SitemapUrl)
    → first_n n (us ++ vs) ≡ first_n n us ++ first_n (n - length us) vs
first_n-append n [] vs = ap (λ k. first_n k vs) (omega arith)
first_n-append zero (u ∷ us) vs = sym (ap (λ k. first_n k vs) (omega arith) ∙ first_n-zero vs)
first_n-append (suc n) (u ∷ us) vs =
    ap (λ l. u ∷ l) (first_n-append n us vs ∙ ap (λ k. first_n n us ++ first_n k vs) (omega arith))

first_n_again :
    (n : ℕ) (us vs : List SitemapUrl) → first_n n (first_n n us ++ vs) ≡ first_n n (us ++ vs)
first_n_again n [] vs = refl
first_n_again zero (u ∷ us) vs = first_n-zero vs
first_n_again (suc n) (u ∷ us) vs = ap (λ l. u ∷ l) (first_n_again n us vs)

-- What the limit leaves of a list that is within it already.
pub limited-batch :
    (l : ℤ) (h us : List SitemapUrl)
    → limited l h ≡ h
    → h ++ within_limit l (length h) us ≡ limited l (h ++ us)
limited-batch (negsuc n) h us e = refl
limited-batch (pos n) h us e = elim (Bool-cases (n == 0)) [
  | inl unlimited ↦ rw unlimited refl
  | inr some_limit ↦ ground (arith, first_n-append n h us)
]

pub limited-full :
    (l : ℤ) (h us : List SitemapUrl)
    → limited l h ≡ h
    → limit_reached l (length h) ≡ true
    → limited l (h ++ us) ≡ h
limited-full (negsuc n) h us e full = absurd (ground arith)
limited-full (pos n) h us e full =
    let none_left : n - length h ≡ 0 = ground arith in
    ground (arith, first_n-append n h us, first_n-zero us, append-nil h)

pub limited_again :
    (l : ℤ) (us vs : List SitemapUrl) → limited l (limited l us ++ vs) ≡ limited l (us ++ vs)
limited_again (negsuc n) us vs = refl
limited_again (pos n) us vs = ground (arith, first_n_again n us vs)

pub limited_idem : (l : ℤ) (us : List SitemapUrl) → limited l (limited l us) ≡ limited l us
limited_idem l us =
    ap (limited l) (sym (append-nil (limited l us)))
    ∙ limited_again l us []
    ∙ ap (limited l) (append-nil us)

pub limited-nil : (l : ℤ) → limited l [] ≡ []
limited-nil (pos n) = ground arith
limited-nil (negsuc n) = refl
