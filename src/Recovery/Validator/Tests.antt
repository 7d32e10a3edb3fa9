-- ===== src/Recovery/Validator/Tests.antt =====
-- internal/recovery/validator.go: verdicts, and the theorems at concrete inputs.
use repodocs_go.Domain.Errors.{nil, is_nil}
use repodocs_go.Base.{◌≢◌, ◌↔◌, true, refl, ◌≡◌, [], ◌∷◌, pos, some, none, false}
use repodocs_go.Domain.Result.{
  filter_zeroed, snapshot, zero_snapshot, StrategyResult, new_strategy_result,
}
use repodocs_go.Recovery.Validator.{
  filter_zeroed_code, retry_alternative, Criteria, ValidationOptions, new_validator, criteria_for,
  validate, judge, ok,
}
use repodocs_go.Recovery.Validator.Verdicts.{Accepted, validate-ok_iff}

abbrev plain : ValidationOptions
plain = record {
  filter_url = "";
  dry_run = false;
  min_docs = pos 0;
  min_success_ratio = record { numerator = 0; denominator = 1 };
}

abbrev filtered : ValidationOptions
filtered = record plain { filter_url = "https://x.io/docs" }

abbrev defaults : Criteria
defaults = new_validator none

abbrev empty : StrategyResult
empty = new_strategy_result "sitemap" "https://x.io/sitemap.xml" 0

-- One document out of a hundred is accepted.
abbrev one_of_many : StrategyResult
one_of_many = record empty {
  now_at = record (zero_snapshot "sitemap" "u") { urls_attempted = 100; docs_written = 1 };
}

one_is_enough : (validate defaults 5 (some one_of_many) nil plain).0 ≡ ok
unfolding validate new_validator judge
one_is_enough = refl

zeroed :
    (validate defaults 5 (some empty) nil filtered).0
    ≡ retry_alternative filter_zeroed_code (
        record {
          code = filter_zeroed;
          message = "URL filter excluded all candidate URLs";
          hint = "";
        }
        ∷ [])
unfolding validate new_validator judge
zeroed = refl

validate-ok_iff_example :
    (((validate defaults 5 (some one_of_many) nil plain).0 ≡ ok) ↔ (
      (is_nil nil ≡ true)
      × Accepted (criteria_for defaults plain) false (snapshot (some one_of_many))))
    × ((validate defaults 5 none nil plain).0 ≢ ok)
validate-ok_iff_example = validate-ok_iff defaults 5 one_of_many nil plain
