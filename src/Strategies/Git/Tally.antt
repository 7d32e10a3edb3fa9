-- ===== src/Strategies/Git/Tally.antt =====
-- internal/strategies/git/processor.go: what `ProcessFiles` counts.
use mathlib.Core.List.{Perm}
use repodocs_go.Base.{
  ◌≡◌, refl, ◌+◌, [], ◌∷◌, some, none, length, false, true, arith, ℕ, Bool, List, String, Option,
  ◌⊎◌, inl, inr, if◌then◌else◌,
}
use repodocs_go.Domain.Errors.{Error, is_nil}
use repodocs_go.Domain.Result.{Call, calls, snapshot, new_strategy_result, completed_docs}
use repodocs_go.Domain.Result.Tally.{
  written_by, skipped_by, failed_by, attempted_by, total, calls_any_order,
}
use repodocs_go.Utils.Parallel
use repodocs_go.Utils.Parallel.{Event, Returned}
use repodocs_go.Utils.Parallel.Finished.{count_items}
use repodocs_go.Strategies.Callbacks.{Outcome, is_failed, is_completed, outcome_calls, item_calls}
use repodocs_go.Strategies.Callbacks.Tally.{
  nil_errors, total-append, outcome-Reports, finished_items,
}
use repodocs_go.Strategies.Git.{
  document_of, Files, ProcessOptions, FileEnd, Document, write_end, seen_end, read_end, sized_end,
  process_file, file_calls, process_files,
}

module _ {T : Type 0} where
  count_all : (ts : List T) → count_items (λ t. true) ts ≡ length ts
  unfolding count_items
  count_all [] = refl
  count_all (t ∷ ts) = omega (arith, count_all ts)

module _ (files : Files) (opts : ProcessOptions) where
  -- A file is counted by one terminal counter.
  abbrev Ends : FileEnd → Type 0
  Ends e = (if is_failed e.outcome then 1 else 0) + (if is_completed e.outcome then 1 else 0) ≡ 1

  write_end-Ends :
      (seen : List String) (doc : Document) (w : Option (Document → Error))
      → Ends (write_end files opts seen doc w)
  unfolding write_end
  write_end-Ends seen doc none = refl
  write_end-Ends seen doc (some write) = ground arith

  seen_end-Ends :
      (doc : Document) (p : Option (String → String → Bool)) → Ends (seen_end files opts doc p)
  unfolding seen_end
  seen_end-Ends doc none = write_end-Ends [] doc opts.write_func
  seen_end-Ends doc (some p) = ground (arith, write_end-Ends (doc.url ∷ []) doc opts.write_func)

  read_end-Ends : (path : String) (r : Error ⊎ String) → Ends (read_end files opts path r)
  unfolding read_end
  read_end-Ends path (inl e) = refl
  read_end-Ends path (inr content) =
      seen_end-Ends (document_of files opts path content) opts.should_process

  sized_end-Ends : (path : String) (size : Error ⊎ ℕ) → Ends (sized_end files opts path size)
  unfolding sized_end
  sized_end-Ends path (inl e) = refl
  sized_end-Ends path (inr n) = ground (arith, read_end-Ends path (files.read path))

  process_file-Ends : (path : String) → Ends (process_file files opts path)
  unfolding process_file
  process_file-Ends path = sized_end-Ends path (files.size path)

  -- How many of the files have a way of ending.
  abbrev pub count_files : (Outcome → Bool) → List String → ℕ
  count_files q = count_items (λ path. q (process_file files opts path).outcome)

  all_end :
      (paths : List String)
      → count_files is_failed paths + count_files is_completed paths ≡ length paths
  unfolding count_items
  all_end [] = refl
  all_end (p ∷ ps) = omega (arith, all_end ps, process_file-Ends p)

  -- What the callbacks for the files tell the result.
  record Told (paths : List String) (cs : List Call) : Type 0 where
    pub attempts : total attempted_by cs ≡ length paths
    pub failures : total failed_by cs ≡ count_files is_failed paths
    pub completions : total written_by cs + total skipped_by cs ≡ count_files is_completed paths

  calls-Told : (paths : List String) → Told paths (item_calls (file_calls files opts) paths)
  unfolding count_items file_calls
  calls-Told [] = record { attempts = refl; failures = refl; completions = refl }
  calls-Told (p ∷ ps) =
      let later = calls-Told ps in
      let end = (process_file files opts p).outcome in
      let now = outcome-Reports end in
      let ds = outcome_calls end in
      let rest = item_calls (file_calls files opts) ps in
      record {
        attempts = omega (arith, now.no_attempt, later.attempts, total-append attempted_by ds rest);
        failures = omega (arith, now.failures, later.failures, total-append failed_by ds rest);
        completions = omega (
          arith,
          now.completions,
          later.completions,
          total-append written_by ds rest,
          total-append skipped_by ds rest,
        );
      }

  -- However the goroutines of `ProcessFiles` interleave, once it returns with its context alive, it gives nil, whatever
  -- the errors of files were, and has counted on a new result each file once as attempted, and once as failed or as
  -- completed, by what became of it, so that the attempts are the failed and the completed together.
  pub process_files-tally :
      (strategy entry_url : String) (now : ℕ) (paths : List String) (es : List Event)
      (cs : List Call)
      → let p = Parallel.run es (Parallel.start paths opts.concurrency) in
        Returned p
        → p.cancelled ≡ false
        → Perm cs (item_calls (file_calls files opts) p.finished)
        → let (err, r) =
            process_files files opts es cs paths
              (some (new_strategy_result strategy entry_url now)) in
          (is_nil err ≡ true)
          × ((snapshot r).urls_attempted ≡ length paths)
          × ((snapshot r).docs_failed ≡ count_files is_failed paths)
          × (completed_docs r ≡ count_files is_completed paths)
          × ((snapshot r).urls_attempted ≡ (snapshot r).docs_failed + completed_docs r)
  unfolding process_files
  process_files-tally strategy entry_url now paths es cs returned live same =
      let p = Parallel.run es (Parallel.start paths opts.concurrency) in
      let told = calls-Told p.finished in
      let (completed_, failed_, _, attempted_) =
        calls_any_order strategy entry_url now cs (item_calls (file_calls files opts) p.finished)
          same in
      let done_ = λ (q : String → Bool). finished_items paths opts.concurrency es q returned live in
      let attempts = done_ (λ path. true) in
      let failures = done_ (λ path. is_failed (process_file files opts path).outcome) in
      let completions = done_ (λ path. is_completed (process_file files opts path).outcome) in
      let r = calls cs (some (new_strategy_result strategy entry_url now)) in
      let all_ : (snapshot r).urls_attempted ≡ length paths =
        omega (arith, attempted_, told.attempts, attempts, count_all p.finished, count_all paths) in
      (
        nil_errors p.slots,
        all_,
        omega (arith, failed_, told.failures, failures),
        omega (arith, completed_, told.completions, completions),
        omega (
          arith,
          all_,
          failed_,
          told.failures,
          failures,
          completed_,
          told.completions,
          completions,
          all_end paths,
        ),
      )
