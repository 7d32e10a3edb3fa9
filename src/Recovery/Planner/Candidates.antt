-- ===== src/Recovery/Planner/Candidates.antt =====
-- internal/recovery/planner.go: what the candidates are.
use repodocs_go.Recovery.Validator.Verdicts.{retry_verdict}
use repodocs_go.Domain.Errors.{Error}
use repodocs_go.Recovery.Validator.{
  no_urls_attempted, filter_zeroed_code, high_failure_ratio, Ratio, criteria_for, retry_alternative,
  validate, RetryReason, ValidationOptions, Criteria,
}
use repodocs_go.Domain.Result.{snapshot, Diagnostic, StrategyResult, Snapshot}
use repodocs_go.Base.{
  ◌≤◌, length, ◌+◌, some, ℕ, Bool-cases, sym, Option, inr, inl, arith, refl, [], ◌∷◌, ◌&&◌, false,
  ◌++◌, true, ◌⊎◌, ◌≡◌, not, All, ◌≢◌, String, List, Bool,
}
use text.Mathlib.TextEquality.{eq_iff}
use repodocs_go.Recovery.Planner.{
  origin_of, Url, plan_filtered, str_eq, ProbeResult, Attempt, plan, refine_with, if_wanted,
  ne_empty, candidate,
}

-- A candidate that can be worth a run after `failed`: another strategy or another URL, and not "".
abbrev pub Fresh : Attempt → Attempt → Type 0
Fresh failed a = (a.url ≢ "") × ((a.strategy ≢ failed.strategy) ⊎ (a.url ≢ failed.url))

All-append : (P : Attempt → Type 0) (xs ys : List Attempt) → All P xs → All P ys → All P (xs ++ ys)
All-append P [] ys h k = k
All-append P (x ∷ xs) ys (h, hs) k = (h, All-append P xs ys hs k)

All-if_wanted :
    (P : Attempt → Type 0) (b : Bool) (a : Attempt) → (b ≡ true → P a) → All P (if_wanted b a)
All-if_wanted P true a h = (h refl, tt)
All-if_wanted P false a h = tt

false_ne : (s t : String) → str_eq s t ≡ false → s ≢ t
false_ne s t h e = let same = (eq_iff s t).1 e in cc

and_parts : (a b : Bool) → (a && b) ≡ true → (a ≡ true) × (b ≡ true)
and_parts a b h = ground arith

three_parts : (a b c : Bool) → (a && b && c) ≡ true → (b ≡ true) × (c ≡ true)
three_parts a b c h = ground arith

not_part : (b : Bool) → not b ≡ true → b ≡ false
not_part b h = ground arith

Fresh-by_strategy :
    (failed : Attempt) (name url reason : String)
    → (not (str_eq failed.strategy name) && ne_empty url) ≡ true
    → Fresh failed (candidate name url reason)
Fresh-by_strategy failed name url reason h =
    let (other, there) = and_parts (not (str_eq failed.strategy name)) (ne_empty url) h in
    let differs = false_ne failed.strategy name (not_part _ other) in
    (false_ne url "" (not_part _ there), inl (λ e. differs (sym e)))

Fresh-by_url :
    (failed : Attempt) (name url reason : String)
    → (ne_empty url && not (str_eq url failed.url)) ≡ true
    → Fresh failed (candidate name url reason)
Fresh-by_url failed name url reason h =
    let (there, other) = and_parts (ne_empty url) (not (str_eq url failed.url)) h in
    (false_ne url "" (not_part _ there), inr (false_ne url failed.url (not_part _ other)))

-- Whatever the probes found, each candidate of the second tier has a URL and is not the failed
-- strategy at the URL at which it failed.
pub refine_with-Fresh :
    (failed : Attempt) (probes : List ProbeResult) → All (Fresh failed) (refine_with failed probes)
unfolding refine_with
refine_with-Fresh failed probes =
    let P = Fresh failed in
    All-append P _ _ (All-if_wanted P _ _ (Fresh-by_strategy failed "llms" _ "")) (
      All-append P _ _ (All-if_wanted P _ _ (Fresh-by_url failed "sitemap" _ "")) (
        All-append P _ _ (All-if_wanted P _ _ (Fresh-by_strategy failed "crawler" _ ""))
          (All-if_wanted P _ _ (Fresh-by_strategy failed "git" _ ""))))

plan-other_strategy :
    (parse : String → Option Url) (failed : Attempt) (snap : Snapshot)
    → All (λ a. (a.strategy ≢ failed.strategy) × (a.url ≢ "")) (plan_filtered parse failed snap)
unfolding plan_filtered
plan-other_strategy parse failed snap =
    elim (Bool-cases (ne_empty failed.filter_url && not (str_eq failed.strategy "crawler"))) [
      | inl filtered ↦
          let (there, other) = and_parts _ _ filtered in
          let differs = false_ne failed.strategy "crawler" (not_part _ other) in
          rw filtered ((λ e. differs (sym e), false_ne _ "" (not_part _ there)), tt)
      | inr unfiltered ↦
          let origin = origin_of parse snap.entry_url in
          let second =
            str_eq failed.filter_url "" && str_eq failed.strategy "sitemap" && ne_empty origin in
          elim (Bool-cases second) [
            | inl shallow ↦
                let (sitemap, there) = three_parts _ _ _ shallow in
                let was : failed.strategy ≡ "sitemap" = (eq_iff _ _).0 sitemap in
                rw (unfiltered, shallow)
                  (
                    (
                      rw was (false_ne "crawler" "sitemap" refl),
                      false_ne origin "" (not_part _ there),
                    ),
                    tt,
                  )
            | inr deep ↦ rw (unfiltered, deep) tt
          ]
    ]

plan_filtered-length :
    (parse : String → Option Url) (failed : Attempt) (snap : Snapshot)
    → length (plan_filtered parse failed snap) ≤ 1
unfolding plan_filtered
plan_filtered-length parse failed snap = ground arith

-- A candidate of the static plan after the run of `r`, which wrote nothing.
abbrev pub Safe : Attempt → StrategyResult → Attempt → Type 0
Safe failed r a =
    (a.strategy ≢ failed.strategy)
    × (a.url ≢ "")
    × (r.now_at.urls_attempted ≡ 0)
    × (r.now_at.docs_written + r.now_at.docs_skipped ≡ 0)

All-Safe :
    (failed : Attempt) (r : StrategyResult) (plans : List Attempt)
    → r.now_at.urls_attempted ≡ 0
    → r.now_at.docs_written + r.now_at.docs_skipped ≡ 0
    → All (λ a. (a.strategy ≢ failed.strategy) × (a.url ≢ "")) plans
    → All (Safe failed r) plans
All-Safe failed r [] none_tried none_done h = tt
All-Safe failed r (a ∷ plans) none_tried none_done ((s, u), h) =
    ((s, u, none_tried, none_done), All-Safe failed r plans none_tried none_done h)

plan_cases :
    (parse : String → Option Url) (failed : Attempt) (reason : RetryReason) (snap : Snapshot)
    → (plan parse failed reason snap ≡ [])
      ⊎ ((plan parse failed reason snap ≡ plan_filtered parse failed snap)
          × ((q : Ratio) → reason ≢ high_failure_ratio q))
unfolding plan
plan_cases parse failed filter_zeroed_code snap = inr (refl, λ q e. cc)
plan_cases parse failed no_urls_attempted snap = inr (refl, λ q e. cc)
plan_cases parse failed (high_failure_ratio q) snap = inl refl

-- The static plan has at most one candidate; it is another strategy than the failed one, and has a
-- URL. With the default minimum of one document it is made only after a run that attempted no URL and
-- counts no document, written or skipped, so that what it writes meets nothing that run wrote.
pub plan_after_zero_output :
    (parse : String → Option Url) (v : Criteria) (now : ℕ) (r : StrategyResult) (err : Error)
    (opts : ValidationOptions) (failed : Attempt) (reason : RetryReason) (ds : List Diagnostic)
    → (validate v now (some r) err opts).0 ≡ retry_alternative reason ds
    → (criteria_for v opts).min_docs_written ≡ 1
    → All (Safe failed r) (plan parse failed reason (snapshot (some r)))
      × (length (plan parse failed reason (snapshot (some r))) ≤ 1)
plan_after_zero_output parse v now r err opts failed reason ds h one_doc =
    let (_, few, why) = retry_verdict v now r err opts reason ds h in
    elim (plan_cases parse failed reason r.now_at) [
      | inl no_plan ↦ rw no_plan (tt, omega arith)
      | inr (same, no_ratio) ↦ elim why [
        | inr ratio ↦ absurd (no_ratio _ ratio)
        | inl none_tried ↦ rw same (
          All-Safe failed r (plan_filtered parse failed r.now_at) none_tried (omega arith)
              (plan-other_strategy parse failed r.now_at),
          plan_filtered-length parse failed r.now_at,
        )
      ]
    ]
