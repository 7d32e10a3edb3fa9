-- ===== src/Recovery/FetchCache/Once.antt =====
-- internal/recovery/probe_cache.go: one request for a URL, and one result for all who ask for it.

use package.text.Mathlib.Text.{◌==◌ as str_eq}
use package.text.Mathlib.TextEquality.{eq_iff}
use package.text.Mathlib.TextPositions.{eq_refl}
use repodocs_go.Base.{
  Distinct, ◌≡◌, refl, ap, sym, subst, ◌∙◌, arith, All, Bool-cases, none, some, [], ◌∷◌,
  if◌then◌else◌, inl, inr, false, List, Option, String,
}
use repodocs_go.Recovery.FetchCache.{
  FetchCache, FetchCall, in_flight, done, Event, get, fetched, wake, give_up, find_call, close_call,
  leave_wait, get_of, fetched_of, wake_of, give_up_of, step, run, new_fetch_cache,
}

All-map {ℓ κ μ} :
    {A : Type ℓ} {P : A → Type κ} {Q : A → Type μ} (xs : List A)
    → ((x : A) → P x → Q x)
    → All P xs
    → All Q xs
All-map [] f h = tt
All-map (x ∷ xs) f (h, hs) = (f x h, All-map xs f hs)

abbrev keys {ℓ} : {A : Type ℓ} → List (String × A) → List String
keys [] = []
keys ((u, a) ∷ calls) = u ∷ keys calls

module _ {ℓ} {A : Type ℓ} where
  find_call-close_call :
      (u v : String) (a b : A) (calls : List (String × A))
      → find_call u calls ≡ some b
      → find_call v (close_call u a calls) ≡ (if str_eq u v then some a else find_call v calls)
  find_call-close_call u v a b [] h = cc
  find_call-close_call u v a b ((w, c) ∷ calls) h =
      ground
        (arith, eq_iff w u, eq_iff w v, eq_iff u v, eq_refl u, find_call-close_call u v a b calls)

  keys-close_call :
      (u : String) (a : A) (calls : List (String × A)) → keys (close_call u a calls) ≡ keys calls
  keys-close_call u a [] = refl
  keys-close_call u a ((w, c) ∷ calls) = elim (Bool-cases (str_eq w u)) [
    | inl same ↦ rw same refl
    | inr other ↦ rw other (ap (λ l. w ∷ l) (keys-close_call u a calls))
  ]

  none-absent :
      (u : String) (calls : List (String × A))
      → find_call u calls ≡ none
      → All (λ v. str_eq v u ≡ false) (keys calls)
  none-absent u [] h = tt
  none-absent u ((w, c) ∷ calls) h = elim (Bool-cases (str_eq w u)) [
    | inl same ↦ absurd (ground (arith, h, same))
    | inr other ↦ (other, none-absent u calls (ground (arith, h, other)))
  ]

module _ {R : Type 0} where
  abbrev Told : List (String × FetchCall R) → String × R → Type 0
  Told calls (u, r) = find_call u calls ≡ some (done r)

  record IsValid (c : FetchCache R) : Type 0 where
    same : keys c.calls ≡ c.requests
    once : Distinct c.requests
    told : All (Told c.calls) c.returned

  -- What is told stays told: a new call is for a URL that has none, and only an open call is closed.
  told-get :
      (url : String) (calls : List (String × FetchCall R)) (p : String × R)
      → find_call url calls ≡ none
      → Told calls p
      → Told ((url, in_flight) ∷ calls) p
  told-get url calls (u, r) fresh_ h = elim (Bool-cases (str_eq url u)) [
    | inl same ↦
        absurd
          (ground (arith, sym fresh_ ∙ ap (λ v. find_call v calls) ((eq_iff url u).0 same) ∙ h))
    | inr other ↦ rw other h
  ]

  told-close :
      (url : String) (s : R) (calls : List (String × FetchCall R)) (p : String × R)
      → find_call url calls ≡ some in_flight
      → Told calls p
      → Told (close_call url (done s) calls) p
  told-close url s calls (u, r) open_ h = elim (Bool-cases (str_eq url u)) [
    | inl same ↦
        absurd (ground (arith, sym open_ ∙ ap (λ v. find_call v calls) ((eq_iff url u).0 same) ∙ h))
    | inr other ↦ rw (find_call-close_call url u (done s) in_flight calls open_, other) h
  ]

  get-IsValid :
      (o : Option (FetchCall R)) (url : String) (c : FetchCache R)
      → find_call url c.calls ≡ o
      → IsValid c
      → IsValid (get_of o url c)
  unfolding get_of
  get-IsValid none url c h v = record {
    same = ap (λ l. url ∷ l) v.same;
    once = (subst (All (λ w. str_eq w url ≡ false)) v.same (none-absent url c.calls h), v.once);
    told = All-map c.returned (λ p. told-get url c.calls p h) v.told;
  }
  get-IsValid (some call) url c h v = record { same = v.same; once = v.once; told = v.told }

  fetched-IsValid :
      (o : Option (FetchCall R)) (url : String) (r : R) (c : FetchCache R)
      → find_call url c.calls ≡ o
      → IsValid c
      → IsValid (fetched_of o url r c)
  unfolding fetched_of
  fetched-IsValid none url r c h v = v
  fetched-IsValid (some (done s)) url r c h v = v
  fetched-IsValid (some in_flight) url r c h v = record {
    same = keys-close_call url (done r) c.calls ∙ v.same;
    once = v.once;
    told = (
      find_call-close_call url url (done r) in_flight c.calls h ∙ rw (eq_refl url) refl,
      All-map c.returned (λ p. told-close url r c.calls p h) v.told,
    );
  }

  wake-IsValid :
      (o : Option (FetchCall R)) (us : Option (List String)) (url : String) (c : FetchCache R)
      → find_call url c.calls ≡ o
      → IsValid c
      → IsValid (wake_of o us url c)
  unfolding wake_of
  wake-IsValid none us url c h v = v
  wake-IsValid (some in_flight) us url c h v = v
  wake-IsValid (some (done r)) none url c h v = v
  wake-IsValid (some (done r)) (some us) url c h v = record {
    same = v.same;
    once = v.once;
    told = (h, v.told);
  }

  give_up-IsValid :
      (us : Option (List String)) (url : String) (c : FetchCache R)
      → IsValid c
      → IsValid (give_up_of us url c)
  unfolding give_up_of
  give_up-IsValid none url c v = v
  give_up-IsValid (some us) url c v = record { same = v.same; once = v.once; told = v.told }

  step-IsValid : (e : Event R) (c : FetchCache R) → IsValid c → IsValid (step e c)
  unfolding step
  step-IsValid (get url) c v = get-IsValid (find_call url c.calls) url c refl v
  step-IsValid (fetched url r) c v = fetched-IsValid (find_call url c.calls) url r c refl v
  step-IsValid (wake url) c v =
      wake-IsValid (find_call url c.calls) (leave_wait url c.waiting) url c refl v
  step-IsValid (give_up url) c v = give_up-IsValid (leave_wait url c.waiting) url c v

  run-IsValid : (es : List (Event R)) (c : FetchCache R) → IsValid c → IsValid (run es c)
  run-IsValid [] c v = v
  run-IsValid (e ∷ es) c v = run-IsValid es (step e c) (step-IsValid e c v)

  new-IsValid : IsValid new_fetch_cache
  unfolding new_fetch_cache
  new-IsValid = record { same = refl; once = tt; told = tt }

  -- The result that the call for a URL was closed with.
  abbrev pub result_of : Option (FetchCall R) → Option R
  result_of (some (done r)) = some r
  result_of _ = none

  -- However the probes that share a new cache interleave, no URL is requested twice, and every caller
  -- that `get` gave a result for a URL got the one result of its request.
  pub requested_once :
      (es : List (Event R))
      → let c = run es new_fetch_cache in
        Distinct c.requests
        × All (λ (url, r). result_of (find_call url c.calls) ≡ some r) c.returned
  requested_once es =
      let c = run es new_fetch_cache in
      let v = run-IsValid es new_fetch_cache new-IsValid in
      (v.once, All-map c.returned (λ (url, r) h. rw h refl) v.told)
