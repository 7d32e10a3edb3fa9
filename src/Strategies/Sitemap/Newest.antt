-- ===== src/Strategies/Sitemap/Newest.antt =====
-- internal/strategies/sitemap.go: which URLs of a sitemap `execute` chooses.
use mathlib.Core.List.{Perm}
use mathlib.Core.List.Perm
use repodocs_go.Base.{
  ◌≡◌, refl, ap, ◌≤◌, ◌==◌, All, List, [], ◌∷◌, ◌++◌, ℕ, zero, suc, ℤ, pos, negsuc, ◌⊎◌, length,
  if◌then◌else◌,
}
use repodocs_go.Strategies.Sitemap.{first_n, limited}
use repodocs_go.Strategies.Sitemap.Plain.{SitemapUrl}

-- `u` is as recent as every URL of the list.
abbrev pub Newer : List SitemapUrl → SitemapUrl → Type 0
Newer us u = All (λ v. v.last_mod ≤ u.last_mod) us

abbrev IsSorted : List SitemapUrl → Type 0
IsSorted [] = Unit
IsSorted (u ∷ us) = Newer us u × IsSorted us

-- As many as the limit, which is one.
abbrev pub IsFull : ℤ → List SitemapUrl → Type 0
IsFull limit us = (n : ℕ) × (limit ≡ pos (suc n)) × (length us ≡ suc n)

-- `urls[n:]`, or nothing
abbrev pub without_first : ℕ → List SitemapUrl → List SitemapUrl
without_first n [] = []
without_first zero (u ∷ urls) = u ∷ urls
without_first (suc n) (u ∷ urls) = without_first n urls

parts : (n : ℕ) (us : List SitemapUrl) → first_n n us ++ without_first n us ≡ us
parts n [] = refl
parts zero (u ∷ us) = refl
parts (suc n) (u ∷ us) = ap (λ l. u ∷ l) (parts n us)

-- What the limit leaves out.
abbrev pub left_out : ℤ → List SitemapUrl → List SitemapUrl
left_out (pos n) us = if n == 0 then [] else without_first n us
left_out (negsuc n) us = []

-- The two parts of a sorted list.
abbrev Split : ℤ → List SitemapUrl → Type 0
Split l us =
    (limited l us ++ left_out l us ≡ us)
    × All (Newer (left_out l us)) (limited l us)
    × ((left_out l us ≡ []) ⊎ IsFull l (limited l us))
