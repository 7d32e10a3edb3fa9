-- ===== src/State/Json.antt =====
-- internal/state/models.go: the JSON of a state, by the tags of its structs, and what json.Unmarshal makes of
-- one. A key counts as it is spelled in the tag, a key is in an object once, and 0 is the zero time.
use package.text.Mathlib.Text.{◌==◌ as str_eq}
use package.text.Mathlib.TextEquality.{eq_iff}
use repodocs_go.Base.{
  ◌≡◌, refl, sym, ap, ℕ, String, [], ◌∷◌, Option, none, some, if◌then◌else◌, ◌>>=◌, Bool-cases, inl,
  inr,
}
use repodocs_go.Docsrs.Json.{Value, null, number, str, object, Fields, end, field, get}
use repodocs_go.State.{PageState, Pages, SyncState, get_page}

-- What encoding/json and package time give, where T is the type of texts: the text of a value and the value of
-- a text, `MarshalJSON` and `UnmarshalJSON` of a time, and the entries of a map in the order in which they are
-- written.
pub record Codec (T : Type 0) : Type 0 where
  pub print : Value → T
  pub parse : T → Option Value
  pub time_json : ℕ → Value
  pub time_of : Value → Option ℕ
  pub in_order : Pages → Pages

-- What is documented of them: a text is read as the value that was written, a time as that time, and the
-- order of the keys changes no entry.
pub record IsCodec {T : Type 0} (c : Codec T) : Type 0 where
  pub reads : (v : Value) → c.parse (c.print v) ≡ some v
  pub times : (t : ℕ) → c.time_of (c.time_json t) ≡ some t
  pub same_entries :
      (url : String) (pages : Pages) → get_page url (c.in_order pages) ≡ get_page url pages

-- A field of type string, int or time.Time; one that is missing, or null, keeps its zero value, and a value of
-- another type is an error.
abbrev text_field : Option Value → Option String
text_field none = some ""
text_field (some null) = some ""
text_field (some (str s)) = some s
text_field (some v) = none

abbrev number_field : Option Value → Option ℕ
number_field none = some 0
number_field (some null) = some 0
number_field (some (number n)) = some n
number_field (some v) = none

module _ {T : Type 0} (c : Codec T) where
  abbrev time_field : Option Value → Option ℕ
  time_field none = some 0
  time_field (some v) = c.time_of v

  unfoldable pub page_json : PageState → Value
  page_json p = object (
      field "content_hash" (str p.content_hash)
        (field "fetched_at" (c.time_json p.fetched_at) (field "file_path" (str p.file_path) end)))

  unfoldable pub pages_json : Pages → Fields
  unfolding page_json
  pages_json [] = end
  pages_json ((url, p) ∷ pages) = field url (page_json p) (pages_json pages)

  -- `omitempty`
  abbrev strategy_json : String → Fields → Fields
  strategy_json strategy rest =
      if str_eq strategy "" then rest else field "strategy" (str strategy) rest

  unfoldable pub state_json : SyncState → Value
  unfolding pages_json
  state_json s = object (
      field "version" (number s.version) (
        field "source_url" (str s.source_url) (
          strategy_json s.strategy (
            field "last_sync" (c.time_json s.last_sync)
              (field "pages" (object (pages_json (c.in_order s.pages))) end)))))

  unfoldable pub page_of : Value → Option PageState
  page_of null = some (record { content_hash = ""; fetched_at = 0; file_path = "" })
  page_of (object m) = text_field (get "content_hash" m) >>= λ content_hash.
      time_field (get "fetched_at" m) >>= λ fetched_at.
      text_field (get "file_path" m) >>= λ file_path.
      some (record { content_hash = content_hash; fetched_at = fetched_at; file_path = file_path })
  page_of v = none

  unfoldable pub pages_of : Fields → Option Pages
  unfolding page_of
  pages_of end = some []
  pages_of (field url v m) = page_of v >>= λ p. pages_of m >>= λ pages. some ((url, p) ∷ pages)

  abbrev pages_field : Option Value → Option Pages
  pages_field none = some []
  pages_field (some null) = some []
  pages_field (some (object m)) = pages_of m
  pages_field (some v) = none

  unfoldable pub state_of : Value → Option SyncState
  unfolding pages_of
  state_of null =
      some (record { version = 0; source_url = ""; strategy = ""; last_sync = 0; pages = [] })
  state_of (object m) = number_field (get "version" m) >>= λ version.
      text_field (get "source_url" m) >>= λ source_url.
      text_field (get "strategy" m) >>= λ strategy. time_field (get "last_sync" m) >>= λ last_sync.
      pages_field (get "pages" m) >>= λ pages. some (record {
        version = version;
        source_url = source_url;
        strategy = strategy;
        last_sync = last_sync;
        pages = pages;
      })
  state_of v = none

  -- json.Unmarshal of a text
  unfoldable pub unmarshal : T → Option SyncState
  unfolding state_of
  unmarshal text = c.parse text >>= state_of

  module _ (documented : IsCodec c) where
    page_of-json : (p : PageState) → page_of (page_json p) ≡ some p
    unfolding page_of page_json
    page_of-json p = rw (documented.times p.fetched_at) refl

    pages_of-json : (pages : Pages) → pages_of (pages_json pages) ≡ some pages
    unfolding pages_of pages_json
    pages_of-json [] = refl
    pages_of-json ((url, p) ∷ pages) = rw (page_of-json p, pages_of-json pages) refl

    state_of-json :
        (s : SyncState) → state_of (state_json s) ≡ some (record s { pages = c.in_order s.pages })
    unfolding state_of state_json
    state_of-json s = elim (Bool-cases (str_eq s.strategy "")) [
      | inl empty ↦
          rw (empty, documented.times s.last_sync, pages_of-json (c.in_order s.pages))
            (ap (λ t. some (record s { strategy = t; pages = c.in_order s.pages }))
              (sym ((eq_iff s.strategy "").0 empty)))
      | inr named ↦
          rw (named, documented.times s.last_sync, pages_of-json (c.in_order s.pages)) refl
    ]

    -- What json.Unmarshal makes of the text of a state is that state, with its pages in the order written.
    pub unmarshal-json :
        (s : SyncState)
        → unmarshal (c.print (state_json s)) ≡ some (record s { pages = c.in_order s.pages })
    unfolding unmarshal
    unmarshal-json s = rw (documented.reads (state_json s)) (state_of-json s)
