-- ===== src/Strategies/Llms/Tests.antt =====
-- internal/strategies/llms.go: the links of a small llms.txt, a run over two links, and the theorems there.
use mathlib.Core.List.Perm
use package.text.Mathlib.Text.{◌==◌ as str_eq}
use repodocs_go.Base.{
  ◌≡◌, refl, inr, some, none, [], ◌∷◌, pos, true, false, if◌then◌else◌, List, String,
}
use repodocs_go.Domain.Errors.{nil, is_nil}
use repodocs_go.Domain.Result.{snapshot, completed_docs, new_strategy_result}
use repodocs_go.Domain.Result.Diagnosed.{all_failed_said}
use repodocs_go.Utils.Parallel
use repodocs_go.Utils.Parallel.{Event, submit, take, finish, close, quit}
use repodocs_go.Utils.Parallel.Finished.{count_items}
use repodocs_go.Strategies.Llms.{LlmsLink, Patterns, parse_llms_links}
use repodocs_go.Strategies.Llms.Pages.{Llms, LlmsOptions, link_outcome, execute_links}
use repodocs_go.Strategies.Llms.Pages.Tally.{execute_links-tally}

-- What the expressions give on the lines below.
abbrev patterns : Patterns
patterns = record {
  link = λ line.
      if str_eq line "- [Guide](/guide): How to start."
      then some ("Guide", "/guide", "How to start.")
      else if str_eq line "- [Again](/guide)"
      then some ("Again", "/guide", "")
      else if str_eq line "[Top](#top)"
      then some ("Top", "#top", "")
      else none;
  bare_link = λ line.
      if str_eq line "- (/api): The API. All of it."
      then some ("/api", "The API. All of it.")
      else none;
}

abbrev content : String
content =
    "# Site\n- [Guide](/guide): How to start.\n\n[Top](#top)\n- [Again](/guide)\n  - (/api): The API. All of it.\n"

parsed :
    parse_llms_links patterns content
    ≡ record { title = "Guide"; url = "/guide"; description = "How to start." }
      ∷ record { title = "The API"; url = "/api"; description = "The API. All of it." }
      ∷ []
unfolding parse_llms_links
parsed = refl

abbrev site : Llms
site = record {
  exists = λ url. false;
  get = λ url. inr record { content_type = "text/plain"; body = "text" };
  read_markdown = λ body url. inr body;
  read_plain_text = λ body url. inr body;
  convert = λ html url. inr html;
  write_document = λ url text. nil;
  patterns = patterns;
  parse = λ url. none;
  resolve_url = λ base url. inr url;
}

abbrev dry_run : LlmsOptions
dry_run = record {
  force = false;
  dry_run = true;
  limit = pos 1;
  filter_url = "";
  concurrency = pos 2;
}

abbrev link_to : String → LlmsLink
link_to url = record { title = ""; url = url; description = "" }

abbrev schedule : List Event
schedule = submit 0 ∷ take 0 ∷ close ∷ finish 0 ∷ quit ∷ []

-- A dry run that fetched and converted its page reports that all attempts failed.
execute_links-tally_example :
    let (err, r) =
      execute_links site dry_run schedule []
        (link_to "a" ∷ link_to "b" ∷ [])
        (some (new_strategy_result "llms" "u" 0)) in
    (is_nil err ≡ true)
    × ((snapshot r).urls_discovered ≡ 1)
    × ((snapshot r).urls_attempted ≡ 1)
    × ((snapshot r).docs_failed ≡ 0)
    × (completed_docs r ≡ 0)
    × (all_failed_said r ≡ 1)
unfolding Parallel.step Parallel.start Parallel.count count_items link_outcome
execute_links-tally_example =
    execute_links-tally site dry_run "llms" "u" 0 schedule [] (link_to "a") (link_to "b" ∷ [])
      (refl, refl, refl) refl (Perm.refl [])
