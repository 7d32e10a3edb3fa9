-- ===== src/App/Detect/Known.antt =====
-- internal/app/detector.go: which strategies `DetectStrategy` can choose.
use package.text.Mathlib.Text.{◌==◌ as str_eq, starts_with}
use package.text.Mathlib.TextEquality.{eq_iff}
use repodocs_go.Base.{
  ◌++◌, lower_starts_with, [], ◌∷◌, All, List, ◌≡◌, ◌≢◌, refl, ◌⊎◌, inl, inr, ◌||◌, Bool-cases,
  Option-cases, some, Bool, String, Option, true, false, trim_space, arith,
}
use repodocs_go.App.Strategy.{is_valid_strategy}
use repodocs_go.App.Detect.{
  site_returns, first_return, returns, Url, is_http, detect_parsed, detect_unparsed, detect_trimmed,
  detect_strategy,
}

abbrev pub IsKnown : String → Type 0
unfolding is_valid_strategy
IsKnown s = is_valid_strategy s ≡ true

abbrev pub IsAnswer : String → Type 0
unfolding is_valid_strategy
IsAnswer s = (s ≡ "unknown") ⊎ IsKnown s

first_return-IsAnswer :
    (rules : List (Bool × String)) → All (λ r. IsAnswer r.1) rules → IsAnswer (first_return rules)
unfolding is_valid_strategy
first_return-IsAnswer [] h = inl refl
first_return-IsAnswer ((true, s) ∷ rules) (h, hs) = h
first_return-IsAnswer ((false, s) ∷ rules) (h, hs) = first_return-IsAnswer rules hs

first_return-IsKnown :
    (rules rest : List (Bool × String))
    → All (λ r. IsKnown r.1) rules
    → IsKnown (first_return rest)
    → IsKnown (first_return (rules ++ rest))
unfolding is_valid_strategy
first_return-IsKnown [] rest h k = k
first_return-IsKnown ((true, s) ∷ rules) rest (h, hs) k = h
first_return-IsKnown ((false, s) ∷ rules) rest (h, hs) k = first_return-IsKnown rules rest hs k

git_not_http : (s : String) → str_eq s "git" ≡ true → (str_eq s "http" || str_eq s "https") ≡ false
git_not_http s h = rw ((eq_iff s "git").0 h) refl

module _ (url_parse : String → Option Url) where
  parsed-IsAnswer : (raw_url : String) (u : Url) → IsAnswer (detect_parsed url_parse raw_url u)
  unfolding detect_parsed is_valid_strategy
  parsed-IsAnswer raw_url u = first_return-IsAnswer (returns url_parse raw_url u) (
    inl refl,
    (
      inl refl,
      (
        inr refl,
        (inr refl, (inr refl, (inr refl, (inr refl, (inr refl, (inr refl, (inr refl, tt))))))),
      ),
    ),
  )

  unparsed-IsAnswer : (raw_url : String) → IsAnswer (detect_unparsed url_parse raw_url)
  unfolding detect_unparsed is_valid_strategy
  unparsed-IsAnswer raw_url =
      elim (Bool-cases
        (lower_starts_with raw_url "http://" || lower_starts_with raw_url "https://")) [
          | inl web ↦ rw web (inr refl)
          | inr other ↦ rw other (inl refl)
        ]

  trimmed-IsAnswer : (raw_url : String) → IsAnswer (detect_trimmed url_parse raw_url)
  unfolding detect_trimmed detect_unparsed is_valid_strategy
  trimmed-IsAnswer raw_url = elim (Bool-cases (str_eq raw_url "")) [
    | inl e ↦ rw e (inl refl)
    | inr e ↦ elim (Bool-cases (starts_with raw_url "git@" || starts_with raw_url "git+ssh://")) [
      | inl ssh ↦ rw (e, ssh) (inr refl)
      | inr s ↦ elim (Option-cases (url_parse raw_url)) [
        | inl bad ↦ rw (e, s, bad) (unparsed-IsAnswer raw_url)
        | inr (u, ok) ↦ rw (e, s, ok) (parsed-IsAnswer raw_url u)
      ]
    ]
  ]

  -- A web address that was parsed, with a host.
  web-IsKnown :
      (raw_url : String) (u : Url)
      → is_http u ≡ true
      → str_eq u.host "" ≡ false
      → IsKnown (detect_parsed url_parse raw_url u)
  unfolding detect_parsed is_valid_strategy
  web-IsKnown raw_url u web host =
      let not_git : str_eq u.scheme "git" ≡ false = elim (Bool-cases (str_eq u.scheme "git")) [
        | inr no_ ↦ no_
        | inl git ↦ absurd (ground (arith, web, git_not_http u.scheme git))
      ] in
      rw (web, host, not_git)
        (first_return-IsKnown (site_returns url_parse raw_url u) ((true, "crawler") ∷ [])
          (refl, (refl, (refl, (refl, (refl, (refl, (refl, tt))))))) refl)

  -- Whatever the text, `DetectStrategy` gives StrategyUnknown or a name that `IsValidStrategy` accepts.
  pub detect_strategy-IsAnswer : (raw_url : String) → IsAnswer (detect_strategy url_parse raw_url)
  unfolding detect_strategy
  detect_strategy-IsAnswer raw_url = trimmed-IsAnswer (trim_space raw_url)

  -- For text that is not blank and that url.Parse reads, without the space around it, as an http or
  -- https address with a host, `DetectStrategy` gives a name that `IsValidStrategy` accepts, and never
  -- StrategyUnknown.
  pub detect_strategy-IsKnown :
      (raw_url : String) (u : Url)
      → trim_space raw_url ≢ ""
      → url_parse (trim_space raw_url) ≡ some u
      → is_http u ≡ true
      → str_eq u.host "" ≡ false
      → IsKnown (detect_strategy url_parse raw_url)
  unfolding detect_strategy detect_trimmed is_valid_strategy
  detect_strategy-IsKnown raw_url u not_blank read web host =
      elim (Bool-cases (str_eq (trim_space raw_url) "")) [
        | inl blank ↦ absurd (not_blank ((eq_iff (trim_space raw_url) "").0 blank))
        | inr text ↦
            elim (Bool-cases (
              starts_with (trim_space raw_url) "git@"
              || starts_with (trim_space raw_url) "git+ssh://")) [
                | inl ssh ↦ rw (text, ssh) refl
                | inr s ↦ rw (text, s, read) (web-IsKnown (trim_space raw_url) u web host)
              ]
      ]
