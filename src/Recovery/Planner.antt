-- ===== src/Recovery/Planner.antt =====
-- internal/recovery/planner.go, and the probe names of probes.go. `url.Parse` is a parameter; of the
-- Data of a probe's result the planner reads one key, so a map is an association list.
pub mod Candidates
mod Tests
use repodocs_go.Base.{
  ◌++◌, ◌||◌, ◌&&◌, false, ◌∷◌, true, some, not, none, if◌then◌else◌, [], String, Option, List,
  Bool,
}
use text.Mathlib.Text.{◌==◌ as str_eq}
use Prim.Native.String as Text
use repodocs_go.Domain.Result.{Snapshot}
use repodocs_go.Recovery.Validator.{
  RetryReason, filter_zeroed_code, no_urls_attempted, high_failure_ratio,
}

pub record Attempt : Type 0 where
  pub strategy : String
  pub url : String
  pub filter_url : String
  pub reason : String

-- What the planner reads of a `*url.URL`.
pub record Url : Type 0 where
  pub scheme : String
  pub host : String

abbrev pub ne_empty : String → Bool
ne_empty s = not (str_eq s "")

-- `url.Parse`, `none` for an error
module _ (parse : String → Option Url) where
  unfoldable pub origin_of : String → String
  origin_of raw = elim (parse raw) [
    | none ↦ ""
    | some u ↦
        if str_eq u.host "" || str_eq u.scheme ""
        then ""
        else Text.◌++◌ u.scheme (Text.◌++◌ "://" u.host)
  ]

  -- The case of the `switch` that has candidates.
  plan_filtered : Attempt → Snapshot → List Attempt
  unfolding origin_of
  plan_filtered failed snap =
      let origin = origin_of snap.entry_url in
      if ne_empty failed.filter_url && not (str_eq failed.strategy "crawler")
      then record {
        strategy = "crawler";
        url = failed.filter_url;
        filter_url = failed.filter_url;
        reason = "filter zeroed; crawling filtered subtree";
      }
        ∷ []
      else if str_eq failed.filter_url "" && str_eq failed.strategy "sitemap" && ne_empty origin
      then record {
        strategy = "crawler";
        url = origin;
        filter_url = "";
        reason = "sitemap shallow; crawling site origin";
      }
        ∷ []
      else []

  unfoldable pub plan : Attempt → RetryReason → Snapshot → List Attempt
  unfolding plan_filtered
  plan failed filter_zeroed_code snap = plan_filtered failed snap
  plan failed no_urls_attempted snap = plan_filtered failed snap
  plan failed (high_failure_ratio _) snap = []

pub data ProbeOutcome : Type 0 where
  success failure inconclusive : ProbeOutcome

pub record ProbeResult : Type 0 where
  pub probe : String
  pub target : String
  pub outcome : ProbeOutcome
  pub signals : List (String × String)

abbrev is_success : ProbeOutcome → Bool
is_success success = true
is_success _ = false

-- `p.Data[key]`, "" where the key is missing.
unfoldable pub signal : String → List (String × String) → String
signal key [] = ""
signal key ((k, v) ∷ rest) = if str_eq k key then v else signal key rest

-- `succeeded[name]` after the loop that fills the map: the last success of that name.
abbrev or_later : Option ProbeResult → Option ProbeResult → Option ProbeResult
or_later none earlier = earlier
or_later (some p) earlier = some p

unfoldable pub succeeded : String → List ProbeResult → Option ProbeResult
succeeded name [] = none
succeeded name (p ∷ ps) =
    or_later (succeeded name ps)
      (if is_success p.outcome && str_eq p.probe name then some p else none)

-- The signal that a probe leaves, if it succeeded: "" stands for none, as it does in the source.
unfoldable pub found_url : String → String → List ProbeResult → String
unfolding succeeded signal
found_url name key probes = elim (succeeded name probes) [
  | none ↦ ""
  | some p ↦ signal key p.signals
]

abbrev pub candidate : String → String → String → Attempt
candidate strategy url reason = record {
  strategy = strategy;
  url = url;
  filter_url = "";
  reason = reason;
}

abbrev pub if_wanted : Bool → Attempt → List Attempt
if_wanted wanted a = if wanted then a ∷ [] else []

unfoldable pub refine_with : Attempt → List ProbeResult → List Attempt
refine_with failed probes =
    let llms = found_url "llms_txt_on_ancestor" "llms_url" probes in
    let sitemap = found_url "has_own_sitemap" "sitemap_url" probes in
    let crawl = found_url "looks_like_index_page" "crawl_url" probes in
    let repo = found_url "github_pages_backed" "repo_url" probes in
    if_wanted (not (str_eq failed.strategy "llms") && ne_empty llms)
      (candidate "llms" llms "llms.txt discovered on an ancestor path")
    ++ (if_wanted (ne_empty sitemap && not (str_eq sitemap failed.url))
          (candidate "sitemap" sitemap "entry subtree exposes its own sitemap")
        ++ (if_wanted (not (str_eq failed.strategy "crawler") && ne_empty crawl)
              (candidate "crawler" crawl "entry looks like a crawlable index page")
            ++ if_wanted (not (str_eq failed.strategy "git") && ne_empty repo)
                (candidate "git" repo "github pages site backed by a git repository")))
