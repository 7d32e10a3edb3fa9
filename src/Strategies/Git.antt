-- ===== src/Strategies/Git.antt =====
-- internal/strategies/git/processor.go: `ProcessFile` and `ProcessFiles`. What os.Stat, os.ReadFile and package
-- filepath give of a path are functions of it, as are the hash of a content, the converter of reStructuredText, the
-- state and the writer. The title, the counts of words and characters and the time are left out of a document.
pub mod Tally
pub mod Walk
mod Tests
use Prim.Native.String as Text
use package.text.Mathlib.Text.{◌==◌ as str_eq}
use repodocs_go.Base.{
  byte_length, ◌*◌, ◌&&◌, contains, replace_code, Bool, true, false, ◌||◌, not, ltb, List, [], ◌∷◌,
  Option, none, some, ◌⊎◌, inl, inr, ℕ, zero, suc, ℤ, pos, negsuc, String, if◌then◌else◌,
}
use repodocs_go.Domain.Errors.{Error, nil, is_nil}
use repodocs_go.Domain.Result.{Call, StrategyResult, calls, inc_attempted}
use repodocs_go.Utils.Parallel
use repodocs_go.Utils.Parallel.{Event, errors_of, first_error}
use repodocs_go.Strategies.Callbacks.{Outcome, skipped, failed, written, outcome_calls, item_calls}

abbrev pub document_extensions : List String
document_extensions = ".md" ∷ ".mdx" ∷ ".rst" ∷ []

abbrev pub config_extensions : List String
config_extensions = ".json" ∷ ".yaml" ∷ ".yml" ∷ ".toml" ∷ ".env" ∷ []

pub record Document : Type 0 where
  pub url : String
  pub content : String
  pub content_hash : String
  pub relative_path : String
  pub is_raw_file : Bool

pub record Files : Type 0 where
  pub size : String → Error ⊎ ℕ
  pub read : String → Error ⊎ String
  -- strings.ToLower(filepath.Ext(path))
  pub lower_ext : String → String
  -- filepath.Rel of the directory of the repository, its error ignored
  pub rel_path : String → String
  pub compute_hash : String → String
  pub convert_to_markdown : String → Error ⊎ String

pub record ProcessOptions : Type 0 where
  pub repo_url : String
  pub branch : String
  pub concurrency : ℤ
  pub dry_run : Bool
  pub max_file_size : ℤ
  pub write_func : Option (Document → Error)
  -- `ShouldProcess` of the state manager, where there is one
  pub should_process : Option (String → String → Bool)

-- How a file ends: the terminal counter, the URLs that were marked as seen, and the error.
pub record FileEnd : Type 0 where
  pub outcome : Outcome
  pub seen : List String
  pub error : Error

-- Whether a file is longer than the limit; 0 stands for 10 MB, and a negative limit for none.
abbrev pub is_too_large : ℤ → ℕ → Bool
is_too_large (negsuc n) size = false
is_too_large (pos zero) size = ltb (10 * 1024 * 1024) size
is_too_large (pos (suc n)) size = ltb (suc n) size

abbrev raw_fence : String → String
raw_fence content = Text.◌++◌ "```\n" (Text.◌++◌ content "\n```")

module _ (files : Files) (opts : ProcessOptions) where
  unfoldable pub file_url : String → String
  file_url path = Text.◌++◌ opts.repo_url (
      Text.◌++◌ "/blob/"
        (Text.◌++◌ opts.branch (Text.◌++◌ "/" (replace_code 92 "/" (files.rel_path path)))))

  -- The content of the document, by the extension of its file.
  unfoldable pub content_of : String → String → String
  content_of ext content =
      if contains config_extensions ext
      then content
      else if str_eq ext ".rst"
      then elim (files.convert_to_markdown content) [ inl e ↦ raw_fence content | inr md ↦ md ]
      else if not (str_eq ext ".md") && not (str_eq ext ".mdx")
      then raw_fence content
      else content

  unfoldable pub document_of : String → String → Document
  unfolding file_url content_of
  document_of path content =
      let ext = files.lower_ext path in
      record {
        url = file_url path;
        content = content_of ext content;
        content_hash = files.compute_hash content;
        relative_path = files.rel_path path;
        is_raw_file = contains config_extensions ext;
      }

  -- From the test for a dry run on.
  unfoldable pub write_end : List String → Document → Option (Document → Error) → FileEnd
  write_end seen doc none = record { outcome = skipped; seen = seen; error = nil }
  write_end seen doc (some write) =
      if opts.dry_run
      then record { outcome = skipped; seen = seen; error = nil }
      else if is_nil (write doc)
      then record { outcome = written (byte_length doc.content); seen = seen; error = nil }
      else record { outcome = failed; seen = seen; error = write doc }

  -- From `MarkSeen` on.
  unfoldable pub seen_end : Document → Option (String → String → Bool) → FileEnd
  unfolding write_end
  seen_end doc none = write_end [] doc opts.write_func
  seen_end doc (some should_process) =
      if should_process doc.url doc.content_hash
      then write_end (doc.url ∷ []) doc opts.write_func
      else record { outcome = skipped; seen = doc.url ∷ []; error = nil }

  unfoldable pub read_end : String → Error ⊎ String → FileEnd
  unfolding seen_end document_of
  read_end path (inl e) = record { outcome = failed; seen = []; error = e }
  read_end path (inr content) = seen_end (document_of path content) opts.should_process

  unfoldable pub sized_end : String → Error ⊎ ℕ → FileEnd
  unfolding read_end
  sized_end path (inl e) = record { outcome = failed; seen = []; error = e }
  sized_end path (inr size) =
      if is_too_large opts.max_file_size size
      then record { outcome = skipped; seen = []; error = nil }
      else read_end path (files.read path)

  unfoldable pub process_file : String → FileEnd
  unfolding sized_end
  process_file path = sized_end path (files.size path)

  -- The calls on the result that it makes.
  unfoldable pub file_calls : String → List Call
  unfolding process_file
  file_calls path = inc_attempted ∷ outcome_calls (process_file path).outcome

  -- `ProcessFiles`, under a schedule `es` of the goroutines whose calls on the result are `cs` in the order in
  -- which they take its lock; the callback drops the error of a file.
  unfoldable pub process_files :
      List Event → List Call → List String → Option StrategyResult → Error × Option StrategyResult
  process_files es cs paths r = (
    first_error
        (errors_of (λ path. nil) (Parallel.run es (Parallel.start paths opts.concurrency)).slots),
    calls cs r,
  )
