-- ===== src/Strategies/Git/Tests.antt =====
-- internal/strategies/git/processor.go: a run over three files, and the walk of a small repository.
use mathlib.Core.List.Perm
use package.text.Mathlib.Text.{◌==◌ as str_eq}
use repodocs_go.Base.{
  ◌≡◌, refl, inl, inr, [], ◌∷◌, ◌+◌, none, some, pos, true, false, if◌then◌else◌, List, String,
}
use repodocs_go.Domain.Errors.{nil, is_nil, message}
use repodocs_go.Domain.Result.{snapshot, new_strategy_result, completed_docs}
use repodocs_go.Utils.Parallel
use repodocs_go.Utils.Parallel.{Event, submit, take, finish, close, quit}
use repodocs_go.Utils.Parallel.Finished.{count_items}
use repodocs_go.Strategies.Git.{Files, ProcessOptions, process_file, process_files, file_calls}
use repodocs_go.Strategies.Git.Tally.{process_files-tally}
use repodocs_go.Strategies.Git.Walk.{
  Tree, file, dir, entry, no_more, documentation, files_under, is_read, find_documentation_files,
  find_documentation_files-walked,
}

abbrev checkout : Files
checkout = record {
  size = λ path. inr 3;
  read = λ path. if str_eq path "gone.md" then inl (message "not there") else inr "# A";
  lower_ext = λ path. ".md";
  rel_path = λ path. path;
  compute_hash = λ content. content;
  convert_to_markdown = λ content. inr content;
}

abbrev writing : ProcessOptions
writing = record {
  repo_url = "r";
  branch = "main";
  concurrency = pos 1;
  dry_run = false;
  max_file_size = pos 0;
  write_func = some (λ doc. nil);
  should_process = none;
}

abbrev schedule : List Event
schedule = submit 0 ∷ take 0 ∷ finish 0 ∷ close ∷ quit ∷ []

process_files-tally_example :
    let (err, r) =
      process_files checkout writing schedule
        (file_calls checkout writing "gone.md")
        ("gone.md" ∷ [])
        (some (new_strategy_result "git" "u" 0)) in
    (is_nil err ≡ true)
    × ((snapshot r).urls_attempted ≡ 1)
    × ((snapshot r).docs_failed ≡ 1)
    × (completed_docs r ≡ 0)
    × ((snapshot r).urls_attempted ≡ (snapshot r).docs_failed + completed_docs r)
unfolding Parallel.step Parallel.start Parallel.count count_items process_file file_calls
process_files-tally_example =
    process_files-tally checkout writing "git" "u" 0 ("gone.md" ∷ []) schedule
      (file_calls checkout writing "gone.md") (refl, refl, refl) refl
      (Perm.refl (file_calls checkout writing "gone.md"))

abbrev markdown : String → String
markdown path = if str_eq path "a.go" then ".go" else ".md"

abbrev repository : Tree
repository = dir "docs" (
    entry (file "a.go")
      (entry (dir "dist" (entry (file "b.md") no_more)) (entry (file "c.md") no_more)))

find_documentation_files-walked_example :
    let (found, err) = find_documentation_files markdown (λ e. true) "docs" (inr true) repository in
    (is_nil err ≡ is_read markdown repository)
    × (is_read markdown repository ≡ true
        → found ≡ documentation markdown (files_under markdown repository))
find_documentation_files-walked_example =
    find_documentation_files-walked markdown (λ e. true) "docs" repository

found_test :
    (find_documentation_files markdown (λ e. true) "docs" (inr true) repository).0 ≡ "c.md" ∷ []
unfolding find_documentation_files
found_test = refl
