-- ===== src/Recovery/Planner/Tests.antt =====
-- internal/recovery/planner.go: plans, and the theorems at concrete inputs.
use repodocs_go.Domain.Errors.{nil}
use repodocs_go.Recovery.Validator.{
  retry_alternative, filter_zeroed_code, judge, validate, new_validator, ValidationOptions,
}
use repodocs_go.Domain.Result.{filter_zeroed, new_strategy_result, StrategyResult}
use repodocs_go.Base.{some, refl, ◌≡◌, pos, none, [], ◌∷◌, map, false, List}
use repodocs_go.Recovery.Planner.{found_url, Attempt, ProbeResult, refine_with, success, failure}

abbrev sitemap_run : Attempt
sitemap_run = record {
  strategy = "sitemap";
  url = "https://x.io/sitemap.xml";
  filter_url = "https://x.io/docs";
  reason = "initial detection";
}

abbrev probes : List ProbeResult
probes =
    record {
      probe = "has_own_sitemap";
      target = "t";
      outcome = success;
      signals = ("sitemap_url", "https://x.io/docs/sitemap.xml") ∷ [];
    }
    ∷ record {
      probe = "looks_like_index_page";
      target = "t";
      outcome = failure;
      signals = ("crawl_url", "https://x.io") ∷ [];
    }
    ∷ []

refined : map (λ a. a.strategy) (refine_with sitemap_run probes) ≡ "sitemap" ∷ []
unfolding refine_with found_url
refined = refl

abbrev empty : StrategyResult
empty = new_strategy_result "sitemap" "https://x.io/sitemap.xml" 0

abbrev filtered : ValidationOptions
filtered = record {
  filter_url = "https://x.io/docs";
  dry_run = false;
  min_docs = pos 0;
  min_success_ratio = record { numerator = 0; denominator = 1 };
}

zeroed :
    (validate (new_validator none) 5 (some empty) nil filtered).0
    ≡ retry_alternative filter_zeroed_code (
        record {
          code = filter_zeroed;
          message = "URL filter excluded all candidate URLs";
          hint = "";
        }
        ∷ [])
unfolding validate new_validator judge
zeroed = refl
