-- ===== src/Recovery/FetchCache/Tests.antt =====
-- internal/recovery/probe_cache.go: probes that ask for the same page at once, and the theorem at them.
use repodocs_go.Base.{Distinct, ◌≡◌, refl, some, [], ◌∷◌, All, ℕ, List}
use repodocs_go.Recovery.FetchCache.{
  Event, get, fetched, wake, give_up, find_call, run, step, new_fetch_cache,
}
use repodocs_go.Recovery.FetchCache.Once.{result_of, requested_once}

abbrev asked : List (Event ℕ)
asked =
    get "/"
    ∷ get "/sitemap.xml"
    ∷ get "/"
    ∷ get "/"
    ∷ give_up "/"
    ∷ fetched "/" 200
    ∷ wake "/"
    ∷ get "/"
    ∷ wake "/"
    ∷ fetched "/sitemap.xml" 404
    ∷ []

requests_test : (run asked new_fetch_cache).requests ≡ "/sitemap.xml" ∷ "/" ∷ []
unfolding step new_fetch_cache
requests_test = refl

returned_test :
    (run asked new_fetch_cache).returned
    ≡ ("/sitemap.xml", 404) ∷ ("/", 200) ∷ ("/", 200) ∷ ("/", 200) ∷ []
unfolding step new_fetch_cache
returned_test = refl

requested_once_example :
    Distinct (run asked new_fetch_cache).requests
    × All
        (λ (url, r). result_of (find_call url (run asked new_fetch_cache).calls) ≡ some r)
        (run asked new_fetch_cache).returned
requested_once_example = requested_once asked
