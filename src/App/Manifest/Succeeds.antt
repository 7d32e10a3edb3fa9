-- ===== src/App/Manifest/Succeeds.antt =====
-- internal/app/orchestrator.go: what the return value of `RunManifest` says of the sources.
use repodocs_go.Base.{
  length, ap, ◌≢◌, ◌∙◌, ◌↔◌, false, ◌≤◌, All, refl, [], inr, arith, inl, Bool-cases, ◌⊎◌, ◌∷◌, ◌==◌,
  true, ◌≡◌, ℕ, Bool, List, ℤ, String,
}
use repodocs_go.Domain.Errors.{Error, is_nil}
use repodocs_go.Utils.Parallel
use repodocs_go.Utils.Parallel.{
  workers_for, waiting, done, running, queued, Pool, errors_of, first_error, Event, Returned, start,
  Slot, count,
}
use repodocs_go.Utils.Parallel.Invariant.{items_of, start-run-IsValid, IsValid}
use repodocs_go.Utils.Parallel.Refines.{returned-done}
use repodocs_go.Utils.Parallel.Finished.{count_items, done_with, start-run-Tallies, done-items}
use repodocs_go.App.Manifest.{
  run_manifest, concurrency_of, with_failures, no_error, manifest_result, source_error,
  first_reported, fails, callback_error, Source, SourceOptions,
}

module _ (run_source : String → SourceOptions → Error) (base : SourceOptions)
    (continue_on_error : Bool) where
  abbrev bad : Source → Bool
  bad = fails run_source base continue_on_error

  abbrev first_in : List Source → Error
  first_in = first_reported run_source base continue_on_error

  first_reported-nil : (log : List Source) → is_nil (first_in log) ≡ (count_items bad log == 0)
  unfolding first_reported fails count_items
  first_reported-nil [] = refl
  first_reported-nil (s ∷ log) =
      let ih = first_reported-nil log in
      elim (Bool-cases (is_nil (source_error run_source base continue_on_error s))) [
        | inl fine ↦ ground arith
        | inr wrong ↦ ground arith
      ]

  callback_errors-nil :
      (ss : List (Slot Source))
      → (continue_on_error ≡ true) ⊎ (count (done_with bad) ss ≡ 0)
      → is_nil (first_error (errors_of (callback_error run_source base continue_on_error) ss))
        ≡ true
  unfolding callback_error fails count
  callback_errors-nil [] h = refl
  callback_errors-nil (waiting s ∷ ss) h = callback_errors-nil ss (ground arith)
  callback_errors-nil (queued s ∷ ss) h = callback_errors-nil ss (ground arith)
  callback_errors-nil (running s ∷ ss) h = callback_errors-nil ss (ground arith)
  callback_errors-nil (done s ∷ ss) (inl goes_on) =
      rw goes_on (callback_errors-nil ss (inl goes_on))
  callback_errors-nil (done s ∷ ss) (inr none_bad) =
      elim (Bool-cases (is_nil (source_error run_source base continue_on_error s))) [
        | inr wrong ↦ absurd (ground arith)
        | inl fine ↦ ground (arith, callback_errors-nil ss (inr (ground arith)))
      ]

  -- Of the failed sources some may not have been run.
  done-le-items :
      (ss : List (Slot Source)) → count (done_with bad) ss ≤ count_items bad (items_of ss)
  unfolding count count_items
  done-le-items [] = omega arith
  done-le-items (waiting s ∷ ss) = omega (arith, done-le-items ss)
  done-le-items (queued s ∷ ss) = omega (arith, done-le-items ss)
  done-le-items (running s ∷ ss) = omega (arith, done-le-items ss)
  done-le-items (done s ∷ ss) = omega (arith, done-le-items ss)

  -- A source whose `Run` returned nil.
  abbrev pub Fine : Source → Type 0
  Fine s = is_nil (source_error run_source base continue_on_error s) ≡ true

  fine→none_bad : (ss : List Source) → All Fine ss → count_items bad ss ≡ 0
  unfolding fails count_items
  fine→none_bad [] h = refl
  fine→none_bad (s ∷ ss) (h, hs) = rw h (omega (arith, fine→none_bad ss hs))

  none_bad→fine : (ss : List Source) → count_items bad ss ≡ 0 → All Fine ss
  unfolding fails count_items
  none_bad→fine [] h = tt
  none_bad→fine (s ∷ ss) h =
      elim (Bool-cases (is_nil (source_error run_source base continue_on_error s))) [
        | inl fine ↦ (fine, none_bad→fine ss (ground arith))
        | inr wrong ↦ absurd (ground arith)
      ]

  -- `manifest_result`, where what it looks at is known.
  result_fine :
      (ctx_err : Error) (total : ℕ) (p : Pool Source)
      → is_nil ctx_err ≡ true
      → is_nil (first_in p.finished) ≡ true
      → count (done_with bad) p.slots ≡ 0
      → manifest_result run_source base continue_on_error ctx_err total p ≡ no_error
  unfolding manifest_result
  result_fine ctx_err total p live fine none_bad =
      rw (live, fine, callback_errors-nil p.slots (inr none_bad)) (ground arith)

  result_nil :
      (ctx_err : Error) (total : ℕ) (p : Pool Source)
      → manifest_result run_source base continue_on_error ctx_err total p ≡ no_error
      → (is_nil ctx_err ≡ true) × (is_nil (first_in p.finished) ≡ true)
  unfolding manifest_result
  result_nil ctx_err total p h = ground arith

  result_failures :
      (ctx_err : Error) (total : ℕ) (p : Pool Source)
      → continue_on_error ≡ true
      → is_nil ctx_err ≡ true
      → is_nil (first_in p.finished) ≡ false
      → manifest_result run_source base continue_on_error ctx_err total p
        ≡ with_failures (count (done_with bad) p.slots) total (first_in p.finished)
  unfolding manifest_result
  result_failures ctx_err total p goes_on live wrong = ground arith

  -- The pool that a schedule of `RunManifest` ends in.
  abbrev pub pool_of : ℤ → List Source → List Event → Pool Source
  pool_of workers sources es = Parallel.run es (Parallel.start sources (concurrency_of workers))

  -- The context of the goroutines is done only where the caller's is, or after a failure where errors
  -- are not passed over.
  abbrev pub Caused : Error → Pool Source → Type 0
  Caused ctx_err p =
      p.cancelled ≡ true
      → (is_nil ctx_err ≡ false)
        ⊎ ((continue_on_error ≡ false) × (is_nil (first_in p.finished) ≡ false))

  tally :
      (workers : ℤ) (sources : List Source) (es : List Event)
      → count (done_with bad) (pool_of workers sources es).slots
        ≡ count_items bad (pool_of workers sources es).finished
  tally workers sources es = start-run-Tallies bad sources (concurrency_of workers) es

  valid :
      (workers : ℤ) (sources : List Source) (es : List Event)
      → IsValid sources (workers_for sources (concurrency_of workers)) (pool_of workers sources es)
  valid workers sources es = start-run-IsValid sources (concurrency_of workers) es

  -- With the context alive, every source is counted.
  all_counted :
      (workers : ℤ) (sources : List Source) (es : List Event)
      → Returned (pool_of workers sources es)
      → (pool_of workers sources es).cancelled ≡ false
      → count (done_with bad) (pool_of workers sources es).slots ≡ count_items bad sources
  all_counted workers sources es r live =
      let p = pool_of workers sources es in
      let v = valid workers sources es in
      let (none_waiting, none_queued, none_running) =
        returned-done sources (concurrency_of workers) p v r live in
      done-items bad p.slots none_waiting none_queued none_running
      ∙ ap (count_items bad) v.same_items

  alive :
      (workers : ℤ) (sources : List Source) (es : List Event) (ctx_err : Error)
      → Caused ctx_err (pool_of workers sources es)
      → is_nil ctx_err ≡ true
      → is_nil (first_in (pool_of workers sources es).finished) ≡ true
      → (pool_of workers sources es).cancelled ≡ false
  alive workers sources es ctx_err caused live fine =
      elim (Bool-cases (pool_of workers sources es).cancelled) [
        | inr yes_ ↦ yes_
        | inl cancelled_ ↦ elim (caused cancelled_) [
          | inl dead ↦ absurd (ground arith)
          | inr (_, wrong) ↦ absurd (ground arith)
        ]
      ]

  -- For a manifest with sources, whatever the schedule, `RunManifest` that returns gives nil exactly
  -- when the caller's context was not done and `Run` returned nil for every source: also when it stops
  -- at the first error, no source is left out and passed over in silence.
  pub run_manifest-nil_iff :
      (ctx_err : Error) (workers : ℤ) (s : Source) (sources : List Source) (es : List Event)
      → Returned (pool_of workers (s ∷ sources) es)
      → Caused ctx_err (pool_of workers (s ∷ sources) es)
      → (run_manifest run_source base continue_on_error ctx_err workers (s ∷ sources) es ≡ no_error)
        ↔ ((is_nil ctx_err ≡ true) × All Fine (s ∷ sources))
  unfolding run_manifest
  run_manifest-nil_iff ctx_err workers s sources es r caused =
      let p = pool_of workers (s ∷ sources) es in
      let told = tally workers (s ∷ sources) es in
      let first = first_reported-nil p.finished in
      (
        λ h.
            let (live, fine) = result_nil ctx_err (length (s ∷ sources)) p h in
            let counted =
              all_counted workers (s ∷ sources) es r
                (alive workers (s ∷ sources) es ctx_err caused live fine) in
            (live, none_bad→fine (s ∷ sources) (ground arith)),
        λ (live, all_fine).
            let none = fine→none_bad (s ∷ sources) all_fine in
            let v = valid workers (s ∷ sources) es in
            let below = done-le-items p.slots in
            let same = ap (count_items bad) v.same_items in
            let zero_done : count (done_with bad) p.slots ≡ 0 = omega (arith, none, below, same) in
            result_fine ctx_err (length (s ∷ sources)) p live (ground arith) zero_done,
      )

  -- With `continue_on_error` and a context that stays alive, a manifest with failing sources runs them
  -- all, and `RunManifest` says how many of how many failed, with an error that one of them returned.
  pub run_manifest-failures :
      (ctx_err : Error) (workers : ℤ) (s : Source) (sources : List Source) (es : List Event)
      → Returned (pool_of workers (s ∷ sources) es)
      → (pool_of workers (s ∷ sources) es).cancelled ≡ false
      → continue_on_error ≡ true
      → is_nil ctx_err ≡ true
      → count_items bad (s ∷ sources) ≢ 0
      → (e : Error) × (run_manifest run_source base continue_on_error ctx_err workers
            (s ∷ sources)
            es
          ≡ with_failures (count_items bad (s ∷ sources)) (length (s ∷ sources)) e)
        × (is_nil e ≡ false)
  unfolding run_manifest
  run_manifest-failures ctx_err workers s sources es r live goes_on calm some_bad =
      let p = pool_of workers (s ∷ sources) es in
      let told = tally workers (s ∷ sources) es in
      let counted = all_counted workers (s ∷ sources) es r live in
      let first = first_reported-nil p.finished in
      let wrong : is_nil (first_in p.finished) ≡ false = ground arith in
      (
        first_in p.finished,
        result_failures ctx_err (length (s ∷ sources)) p goes_on calm wrong
            ∙ ap (λ n. with_failures n (length (s ∷ sources)) (first_in p.finished)) counted,
        wrong,
      )
