-- ===== src/Strategies/GithubPages/Probes/First.antt =====
-- internal/strategies/github_pages.go: the first probe by priority wins, in whatever order they answer.
use mathlib.Core.List.{Permᴰ}
use mathlib.Core.List.Permᴰ
use Prim.Native.String as Text
use repodocs_go.Base.{
  ◌==◌, trim_suffix, ◌≡◌, refl, ap, ◌∙◌, subst, ◌≤◌, ◌<◌, ◌+◌, arith, All, Bool-cases, Option-cases,
  ltb, String, List, [], ◌∷◌, none, some, ℕ, ◌⊎◌, inl, inr, true, false,
}
use repodocs_go.Domain.Errors.{Error, message}
use repodocs_go.Strategies.GithubPages.Probes.{
  get_discovery_probes, parse_with, answer_sends, Decoders, Probe, ProbeResult, Found, result_of,
  probe_sends, results_from, best_of, discover_via_http_probes,
}

-- The first of the results that were sent.
abbrev pub first_of : List ProbeResult → Error ⊎ (List String × String)
first_of [] = inl (message "all HTTP probes failed")
first_of (r ∷ results) = inr (r.urls, r.name)

All-permᴰ {ℓ} :
    (P : ProbeResult → Type ℓ) {rs ss : List ProbeResult} → Permᴰ rs ss → All P rs → All P ss
All-permᴰ P Permᴰ.nil h = tt
All-permᴰ P (Permᴰ.cons e p) (h, hs) = (subst P e h, All-permᴰ P p hs)
All-permᴰ P (Permᴰ.swap e e') (h, (k, hs)) = (subst P e' k, (subst P e h, hs))
All-permᴰ P (Permᴰ.trans p q) h = All-permᴰ P q (All-permᴰ P p h)

-- The best is one of the results, and no other has a smaller priority.
best-one :
    (P : ProbeResult → Type 0) (b : ProbeResult) (rs : List ProbeResult)
    → P b
    → All P rs
    → (r : ProbeResult) × (best_of (some b) rs ≡ some r)
      × P r
      × (r.priority ≤ b.priority)
      × All (λ s. r.priority ≤ s.priority) rs
best-one P b [] h hs = (b, refl, h, omega arith, tt)
best-one P b (s ∷ rs) h (k, hs) = elim (Bool-cases (ltb s.priority b.priority)) [
  | inl less ↦
      let (r, e, p, le, les) = best-one P s rs k hs in (r, rw less e, p, ground arith, (le, les))
  | inr more ↦
      let (r, e, p, le, les) = best-one P b rs h hs in (r, rw more e, p, le, (ground arith, les))
]

All-map {ℓ κ} :
    {P : ProbeResult → Type ℓ} {Q : ProbeResult → Type κ} (rs : List ProbeResult)
    → ((r : ProbeResult) → P r → Q r)
    → All P rs
    → All Q rs
All-map [] f h = tt
All-map (r ∷ rs) f (h, hs) = (f r h, All-map rs f hs)

module _ (h : ProbeResult) (rest : List ProbeResult)
    (later : All (λ s. h.priority < s.priority) rest) where
  -- The result is the first, or has a larger priority.
  abbrev FirstOr : ProbeResult → Type 0
  FirstOr s = (s ≡ h) ⊎ (h.priority < s.priority)

  first-best :
      (arrived : List ProbeResult) → Permᴰ arrived (h ∷ rest) → best_of none arrived ≡ some h
  first-best [] p = let (no_, _) = All-permᴰ (λ s. true ≡ false) p tt in absurd cc
  first-best (r ∷ rs) p =
      let all : All FirstOr (h ∷ rest) = (inl refl, All-map rest (λ s l. inr l) later) in
      let (q, qs) = All-permᴰ FirstOr (Permᴰ.symm p) all in
      let (t, e, first, le, les) = best-one FirstOr r rs q qs in
      let (least, _) = All-permᴰ (λ s. t.priority ≤ s.priority) p (le, les) in
      elim first [ inl same ↦ e ∙ ap some same | inr more ↦ absurd (omega (arith, more, least)) ]

nil-best : (arrived : List ProbeResult) → Permᴰ arrived [] → best_of none arrived ≡ none
nil-best [] p = refl
nil-best (r ∷ rs) p = let (no_, _) = All-permᴰ (λ s. true ≡ false) (Permᴰ.symm p) tt in absurd cc

-- The first result has the least priority of all.
abbrev Led : List ProbeResult → Type 0
Led [] = Unit
Led (r ∷ results) = All (λ s. r.priority < s.priority) results

module _ (d : Decoders) (get : String → Error ⊎ (ℕ × String)) (base : String) where
  result-priority :
      (n : ℕ) (name : String) (found : Found) (r : ProbeResult)
      → result_of d get base n name found ≡ some r
      → r.priority ≡ n
  result-priority n name (inl e) r h = absurd cc
  result-priority n name (inr []) r h = absurd cc
  result-priority n name (inr (u ∷ urls)) r h = cc

  answer-priority :
      (n : ℕ) (p : Probe) (answer : Error ⊎ (ℕ × String)) (r : ProbeResult)
      → answer_sends d get base n p answer ≡ some r
      → r.priority ≡ n
  unfolding answer_sends
  answer-priority n p (inl e) r h = absurd cc
  answer-priority n p (inr (status, body)) r h = elim (Bool-cases (status == 200)) [
    | inl ok ↦ result-priority n p.name (parse_with d p.parser body base) r (rw ok at h)
    | inr bad ↦ absurd (ground (arith, h))
  ]

  sends_priority :
      (n : ℕ) (p : Probe) (r : ProbeResult) → probe_sends d get base n p ≡ some r → r.priority ≡ n
  unfolding probe_sends
  sends_priority n p r h = answer-priority n p (get (Text.◌++◌ (trim_suffix base "/") p.path)) r h

  results_from-least :
      (n : ℕ) (probes : List Probe) → All (λ r. n ≤ r.priority) (results_from d get base n probes)
  unfolding results_from probe_sends
  results_from-least n [] = tt
  results_from-least n (p ∷ probes) =
      let more : All (λ r. n ≤ r.priority) (results_from d get base (n + 1) probes) =
        All-map (results_from d get base (n + 1) probes) (λ r le. omega (arith, le))
          (results_from-least (n + 1) probes) in
      elim (Option-cases (probe_sends d get base n p)) [
        | inl none_ ↦ rw (results_from, none_) more
        | inr (r, e) ↦ rw (results_from, e) (omega (arith, sends_priority n p r e), more)
      ]

  results_from-Led : (n : ℕ) (probes : List Probe) → Led (results_from d get base n probes)
  unfolding results_from
  results_from-Led n [] = tt
  results_from-Led n (p ∷ probes) = elim (Option-cases (probe_sends d get base n p)) [
    | inl none_ ↦ rw (results_from, none_) (results_from-Led (n + 1) probes)
    | inr (r, e) ↦
        let later : All (λ s. r.priority < s.priority) (results_from d get base (n + 1) probes) =
          All-map (results_from d get base (n + 1) probes)
            (λ s le. omega (arith, le, sends_priority n p r e))
            (results_from-least (n + 1) probes) in
        rw (results_from, e) later
  ]

best-Led :
    (arrived results : List ProbeResult)
    → Permᴰ arrived results
    → Led results
    → discover_via_http_probes arrived ≡ first_of results
unfolding discover_via_http_probes
best-Led arrived [] p led = rw (discover_via_http_probes, nil-best arrived p) refl
best-Led arrived (r ∷ results) p led =
    rw (discover_via_http_probes, first-best r results led arrived p) refl

-- The probes run in parallel, and whatever the order in which their results arrive on the channel, the
-- outcome is that of trying them one after the other: the URLs and the name of the first probe in the order
-- of the list that found a URL, and an error where none did.
pub discover_via_http_probes-first :
    (d : Decoders) (get : String → Error ⊎ (ℕ × String)) (base : String)
    (arrived : List ProbeResult)
    → Permᴰ arrived (results_from d get base 0 get_discovery_probes)
    → discover_via_http_probes arrived ≡ first_of (results_from d get base 0 get_discovery_probes)
discover_via_http_probes-first d get base arrived p =
    best-Led arrived (results_from d get base 0 get_discovery_probes) p
      (results_from-Led d get base 0 get_discovery_probes)
