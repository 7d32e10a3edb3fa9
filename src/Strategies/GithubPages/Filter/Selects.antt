-- ===== src/Strategies/GithubPages/Filter/Selects.antt =====
-- internal/strategies/github_pages_discovery.go and github_pages.go: what the filters keep.
use package.text.Mathlib.Text.{◌==◌ as str_eq}
use package.text.Mathlib.TextEquality.{eq_iff}
use repodocs_go.Base.{
  ◌≡◌, refl, sym, ap, ◌∙◌, ◌≤◌, arith, All, Distinct, Distinct-snoc, contains, contains-append,
  Bool, true, false, ◌&&◌, ◌||◌, Bool-cases, Option-cases, String, List, [], ◌∷◌, Option, none,
  some, ℕ, zero, suc, length, ltb, ℤ, pos, negsuc, inl, inr,
}
use repodocs_go.Strategies.GithubPages.Filter.{
  Parsed, normalized_on, keep_new, keep_on, filter_and_deduplicate_urls, passes, filter_urls,
  first_urls, limit_urls, selected_urls,
}

-- An independent description: the URLs as they are kept, of all that are on the host.
abbrev pub kept_forms : (String → Option String) → List String → List String
kept_forms normalized [] = []
kept_forms normalized (u ∷ urls) =
    let rest = kept_forms normalized urls in elim (normalized u) [ none ↦ rest | some v ↦ v ∷ rest ]

keep_new-Distinct :
    (kept : List String) (o : Option String) → Distinct kept → Distinct (keep_new kept o)
keep_new-Distinct kept none d = d
keep_new-Distinct kept (some u) d = elim (Bool-cases (contains kept u)) [
  | inl there ↦ rw there d
  | inr fresh ↦ rw fresh (Distinct-snoc kept u d fresh)
]

contains-keep_new :
    (kept : List String) (u v : String)
    → contains (keep_new kept (some u)) v ≡ (contains kept v || contains (u ∷ []) v)
contains-keep_new kept u v = ground (arith, eq_iff u v, contains-append kept (u ∷ []) v)

module _ (parse : String → Option Parsed) (host : String) where
  keep_on-Distinct :
      (urls kept : List String) → Distinct kept → Distinct (keep_on parse host urls kept)
  unfolding keep_on
  keep_on-Distinct [] kept d = d
  keep_on-Distinct (u ∷ urls) kept d =
      keep_on-Distinct urls (keep_new kept (normalized_on parse host u))
        (keep_new-Distinct kept (normalized_on parse host u) d)

  contains-keep_on :
      (urls kept : List String) (v : String)
      → contains (keep_on parse host urls kept) v
        ≡ (contains kept v || contains (kept_forms (normalized_on parse host) urls) v)
  unfolding keep_on
  contains-keep_on [] kept v = ground arith
  contains-keep_on (u ∷ urls) kept v = elim (Option-cases (normalized_on parse host u)) [
    | inl out ↦ rw (kept_forms, out) (contains-keep_on urls kept v)
    | inr (w, on) ↦
        rw (kept_forms, on)
          (ground
            (arith, contains-keep_on urls (keep_new kept (some w)) v, contains-keep_new kept w v))
  ]

and_false : (b : Bool) → (b && false) ≡ false
and_false true = refl
and_false false = refl

module _ (excluded : String → Bool) (filter_url : String) where
  All-filter {ℓ} :
      (P : String → Type ℓ) (us : List String)
      → All P us
      → All P (filter_urls excluded filter_url us)
  unfolding filter_urls
  All-filter P [] h = tt
  All-filter P (u ∷ us) (h, hs) = elim (Bool-cases (passes excluded filter_url u)) [
    | inl yes_ ↦ rw yes_ (h, All-filter P us hs)
    | inr no_ ↦ rw no_ (All-filter P us hs)
  ]

  filter-Distinct : (us : List String) → Distinct us → Distinct (filter_urls excluded filter_url us)
  unfolding filter_urls
  filter-Distinct [] d = tt
  filter-Distinct (u ∷ us) (d, ds) = elim (Bool-cases (passes excluded filter_url u)) [
    | inl yes_ ↦ rw yes_ (All-filter (λ v. str_eq v u ≡ false) us d, filter-Distinct us ds)
    | inr no_ ↦ rw no_ (filter-Distinct us ds)
  ]

  contains-filter :
      (us : List String) (v : String)
      → contains (filter_urls excluded filter_url us) v
        ≡ (passes excluded filter_url v && contains us v)
  unfolding filter_urls
  contains-filter [] v = sym (and_false (passes excluded filter_url v))
  contains-filter (u ∷ us) v = elim (Bool-cases (str_eq u v)) [
    | inl same ↦
        let e = ap (passes excluded filter_url) ((eq_iff u v).0 same) in
        elim (Bool-cases (passes excluded filter_url v)) [
          | inl yes_ ↦ rw (e, yes_, same) refl
          | inr no_ ↦ rw (e, no_) (contains-filter us v ∙ rw no_ refl)
        ]
    | inr other ↦ elim (Bool-cases (passes excluded filter_url u)) [
      | inl yes_ ↦ rw (yes_, other) (contains-filter us v)
      | inr no_ ↦ rw (no_, other) (contains-filter us v)
    ]
  ]

All-first {ℓ} :
    (P : String → Type ℓ) (n : ℕ) (us : List String) → All P us → All P (first_urls n us)
All-first P n [] h = tt
All-first P zero (u ∷ us) h = tt
All-first P (suc n) (u ∷ us) (h, hs) = (h, All-first P n us hs)

first-Distinct : (n : ℕ) (us : List String) → Distinct us → Distinct (first_urls n us)
first-Distinct n [] d = tt
first-Distinct zero (u ∷ us) d = tt
first-Distinct (suc n) (u ∷ us) (d, ds) =
    (All-first (λ v. str_eq v u ≡ false) n us d, first-Distinct n us ds)

length-first : (n : ℕ) (us : List String) → length (first_urls n us) ≤ n
length-first n [] = omega arith
length-first zero (u ∷ us) = omega arith
length-first (suc n) (u ∷ us) = omega (arith, length-first n us)

limit-Distinct : (limit : ℤ) (us : List String) → Distinct us → Distinct (limit_urls limit us)
limit-Distinct (negsuc n) us d = d
limit-Distinct (pos n) us d = elim (Bool-cases (ltb 0 n && ltb n (length us))) [
  | inl cut ↦ rw cut (first-Distinct n us d)
  | inr whole ↦ rw whole d
]

length-limit : (n : ℕ) (us : List String) → length (limit_urls (pos (suc n)) us) ≤ suc n
length-limit n us = ground (arith, length-first (suc n) us)

on_parsed :
    (parse : String → Option Parsed) (base : String) (parsed : Parsed) (urls : List String)
    → parse base ≡ some parsed
    → filter_and_deduplicate_urls parse urls base ≡ keep_on parse parsed.host urls []
unfolding filter_and_deduplicate_urls
on_parsed parse base parsed urls e = rw (filter_and_deduplicate_urls, e) refl

-- On a base that parses: no URL is selected twice, under a limit of at least one at most so many, and
-- without a limit exactly those that pass the filter, the exclude patterns and the patterns of files
-- that are no pages, of the discovered URLs on the base's host with fragment and last slash taken off.
pub selected_urls-Selects :
    (parse : String → Option Parsed) (excluded : String → Bool) (filter_url base : String)
    (parsed : Parsed) (limit : ℤ) (urls : List String)
    → parse base ≡ some parsed
    → Distinct (selected_urls parse excluded filter_url limit base urls)
      × ((n : ℕ) → length (selected_urls parse excluded filter_url (pos (suc n)) base urls) ≤ suc n)
      × ((v : String)
          → contains (selected_urls parse excluded filter_url (pos 0) base urls) v ≡ (
              passes excluded filter_url v
              && contains (kept_forms (normalized_on parse parsed.host) urls) v))
unfolding selected_urls
selected_urls-Selects parse excluded filter_url base parsed limit urls e =
    let all = keep_on parse parsed.host urls [] in
    rw (on_parsed parse base parsed urls e) (
      limit-Distinct limit (filter_urls excluded filter_url all)
          (filter-Distinct excluded filter_url all (keep_on-Distinct parse parsed.host urls [] tt)),
      λ n. length-limit n (filter_urls excluded filter_url all),
      λ v. ground (
        arith,
        contains-filter excluded filter_url all v,
        contains-keep_on parse parsed.host urls [] v,
      ),
    )
