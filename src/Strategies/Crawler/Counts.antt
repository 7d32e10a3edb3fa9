-- ===== src/Strategies/Crawler/Counts.antt =====
-- internal/strategies/crawler.go: the limit, the links and the counters, in any order of the callbacks.
use package.text.Mathlib.Text.{◌==◌ as str_eq}
use package.text.Mathlib.TextEquality.{eq_iff}
use repodocs_go.Base.{
  ◌≢◌, ◌≡◌, refl, ap, subst, ◌≤◌, ◌+◌, arith, All, Distinct, contains, Bool-cases, true, false,
  String, List, [], ◌∷◌, ◌++◌, Option, some, ℕ, zero, suc, length, ℤ, pos, negsuc, inl, inr, ◌⊎◌,
}
use repodocs_go.Domain.Result.{Call, inc_discovered, inc_attempted, inc_failed}
use repodocs_go.Domain.Result.Tally.{
  total, written_by, skipped_by, failed_by, discovered_by, attempted_by,
}
use repodocs_go.State.{Manager}
use repodocs_go.Strategies.Callbacks.{Outcome, skipped, failed, dry, written, outcome_calls}
use repodocs_go.Strategies.Callbacks.Tally.{total-append}
use repodocs_go.Strategies.Crawler.Page.{Site, Options, Response, is_wanted}
use repodocs_go.Strategies.Crawler.{Crawl, limit_reached, nth, without, finished}

-- Whether a number is within a limit that is set.
abbrev pub WithinLimit : ℤ → ℕ → Type 0
WithinLimit (pos zero) n = Unit
WithinLimit (pos (suc limit)) n = n ≤ suc limit
WithinLimit (negsuc limit) n = Unit

one_more : (limit : ℤ) (n : ℕ) → limit_reached limit n ≡ false → WithinLimit limit (n + 1)
one_more (pos zero) n h = tt
one_more (pos (suc limit)) n h = ground (arith, h)
one_more (negsuc limit) n h = tt

pub new-WithinLimit : (limit : ℤ) → WithinLimit limit 0
new-WithinLimit (pos zero) = tt
new-WithinLimit (pos (suc limit)) = omega arith
new-WithinLimit (negsuc limit) = tt

length-without :
    (n : ℕ) (rs : List Response) {r : Response}
    → nth n rs ≡ some r
    → length rs ≡ suc (length (without n rs))
length-without n [] h = absurd cc
length-without zero (r ∷ rs) h = refl
length-without (suc n) (r ∷ rs) h = omega (arith, length-without n rs h)

absent : (us : List String) (u : String) → contains us u ≡ false → All (λ v. str_eq v u ≡ false) us
absent [] u h = tt
absent (v ∷ us) u h = (ground (arith, h), absent us u (ground (arith, h)))

-- What two rows of calls say together.
record Sums (cs ds : List Call) : Type 0 where
  written_ : total written_by (cs ++ ds) ≡ total written_by cs + total written_by ds
  skipped_ : total skipped_by (cs ++ ds) ≡ total skipped_by cs + total skipped_by ds
  failed_ : total failed_by (cs ++ ds) ≡ total failed_by cs + total failed_by ds
  discovered_ : total discovered_by (cs ++ ds) ≡ total discovered_by cs + total discovered_by ds
  attempted_ : total attempted_by (cs ++ ds) ≡ total attempted_by cs + total attempted_by ds

total-Sums : (cs ds : List Call) → Sums cs ds
total-Sums cs ds = record {
  written_ = total-append written_by cs ds;
  skipped_ = total-append skipped_by cs ds;
  failed_ = total-append failed_by cs ds;
  discovered_ = total-append discovered_by cs ds;
  attempted_ = total-append attempted_by cs ds;
}

module _ (s : Site) (opts : Options) where
  -- What the calls so far say: of the pages past the limit gate, those that are not open have ended, by one
  -- counter each, or by none in a dry run.
  pub record IsValid (c : Crawl) : Type 0 where
    pub within : WithinLimit opts.limit c.processed
    pub same : c.visits ≡ c.visited
    pub once : Distinct c.visits
    pub wanted : All (λ u. is_wanted s opts u ≡ true) c.visits
    pub passed : All (λ u. is_wanted s opts u ≡ true) c.gated
    pub discovered : total discovered_by c.told ≡ length c.visits
    pub ended :
        total written_by c.told
          + total skipped_by c.told
          + total failed_by c.told
          + length c.open_pages
        ≤ total attempted_by c.told
    pub ended_all :
        opts.dry_run ≡ false
        → total written_by c.told
            + total skipped_by c.told
            + total failed_by c.told
            + length c.open_pages
          ≡ total attempted_by c.told
    pub completed :
        total written_by c.told + total skipped_by c.told + length c.open_pages ≤ c.processed

  contains-All :
      (us : List String) (u : String)
      → All (λ v. is_wanted s opts v ≡ true) us
      → contains us u ≡ true
      → is_wanted s opts u ≡ true
  contains-All [] u h e = absurd cc
  contains-All (v ∷ us) u (h, hs) e = elim (Bool-cases (str_eq v u)) [
    | inl same_ ↦ subst (λ w. is_wanted s opts w ≡ true) ((eq_iff v u).0 same_) h
    | inr other ↦ contains-All us u hs (ground arith)
  ]

  pub enter-IsValid :
      (link : String) (c : Crawl)
      → IsValid c
      → contains c.gated link ≡ true
      → contains c.visited link ≡ false
      → IsValid (record c {
        visited = link ∷ c.visited;
        visits = link ∷ c.visits;
        told = c.told ++ inc_discovered ∷ [];
      })
  enter-IsValid link c v there fresh =
      let sums = total-Sums c.told (inc_discovered ∷ []) in
      record {
        within = v.within;
        same = ap (λ us. link ∷ us) v.same;
        once = (absent c.visits link (rw v.same fresh), v.once);
        wanted = (contains-All c.gated link v.passed there, v.wanted);
        passed = v.passed;
        discovered = omega (arith, v.discovered);
        ended = omega (arith, v.ended);
        ended_all = λ h. omega (arith, v.ended_all h);
        completed = omega (arith, v.completed);
      }

  pub gate-IsValid :
      (link : String) (c : Crawl)
      → IsValid c
      → is_wanted s opts link ≡ true
      → IsValid (record c { gated = link ∷ c.gated })
  gate-IsValid link c v h = record {
    within = v.within;
    same = v.same;
    once = v.once;
    wanted = v.wanted;
    passed = (h, v.passed);
    discovered = v.discovered;
    ended = v.ended;
    ended_all = v.ended_all;
    completed = v.completed;
  }

  pub respond-IsValid :
      (r : Response) (c : Crawl)
      → IsValid c
      → limit_reached opts.limit c.processed ≡ false
      → IsValid (record c {
        processed = c.processed + 1;
        told = c.told ++ inc_attempted ∷ [];
        open_pages = r ∷ c.open_pages;
      })
  respond-IsValid r c v room =
      let sums = total-Sums c.told (inc_attempted ∷ []) in
      record {
        within = one_more opts.limit c.processed room;
        same = v.same;
        once = v.once;
        wanted = v.wanted;
        passed = v.passed;
        discovered = omega (arith, v.discovered);
        ended = omega (arith, v.ended);
        ended_all = λ h. omega (arith, v.ended_all h);
        completed = omega (arith, v.completed);
      }

  pub fail-IsValid :
      (c : Crawl)
      → IsValid c
      → IsValid (record c { told = c.told ++ inc_attempted ∷ inc_failed ∷ [] })
  fail-IsValid c v =
      let sums = total-Sums c.told (inc_attempted ∷ inc_failed ∷ []) in
      record {
        within = v.within;
        same = v.same;
        once = v.once;
        wanted = v.wanted;
        passed = v.passed;
        discovered = omega (arith, v.discovered);
        ended = omega (arith, v.ended);
        ended_all = λ h. omega (arith, v.ended_all h);
        completed = omega (arith, v.completed);
      }

  -- An outcome counts by one at most, and a run that is not dry has no dry one.
  outcome-counts :
      (o : Outcome)
      → (total written_by (outcome_calls o)
            + total skipped_by (outcome_calls o)
            + total failed_by (outcome_calls o)
          ≤ 1)
        × (total discovered_by (outcome_calls o) ≡ 0)
        × (total attempted_by (outcome_calls o) ≡ 0)
        × ((o ≡ dry)
            ⊎ (total written_by (outcome_calls o)
                  + total skipped_by (outcome_calls o)
                  + total failed_by (outcome_calls o)
                ≡ 1))
  outcome-counts skipped = (omega arith, refl, refl, inr refl)
  outcome-counts failed = (omega arith, refl, refl, inr refl)
  outcome-counts dry = (omega arith, refl, refl, inl refl)
  outcome-counts (written n) = (omega arith, refl, refl, inr refl)

  pub finished-IsValid :
      (n : ℕ) (o : Outcome) (m : Option Manager) (r : Response) (c : Crawl)
      → IsValid c
      → nth n c.open_pages ≡ some r
      → (opts.dry_run ≡ false → o ≢ dry)
      → IsValid (finished n (o, m) c)
  finished-IsValid n o m r c v there wet =
      let sums = total-Sums c.told (outcome_calls o) in
      let (most, no_discovery, no_attempt, one) = outcome-counts o in
      let shorter = length-without n c.open_pages there in
      record {
        within = v.within;
        same = v.same;
        once = v.once;
        wanted = v.wanted;
        passed = v.passed;
        discovered = omega (arith, v.discovered, no_discovery);
        ended = omega (arith, v.ended, most, no_attempt, shorter);
        ended_all = λ h. elim one [
          | inl none_ ↦ absurd (wet h none_)
          | inr exactly ↦ omega (arith, v.ended_all h, exactly, no_attempt, shorter)
        ];
        completed = omega (arith, v.completed, most, shorter);
      }
