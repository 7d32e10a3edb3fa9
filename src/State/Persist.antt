-- ===== src/State/Persist.antt =====
-- internal/state/manager.go: `Load` and `Save`, over what the file system gives and a codec of JSON.
use repodocs_go.State.Json.{unmarshal, state_json, Codec}
use repodocs_go.Domain.Errors.{is_nil, nil, Error}
use repodocs_go.Base.{
  ◌∙◌, ap, String, refl, inl, arith, true, some, none, ◌⊎◌, ◌==◌, false, ◌≡◌, not, Option, ℕ,
  if◌then◌else◌,
}
use repodocs_go.State.Json.{Codec, IsCodec, state_json, unmarshal, unmarshal-json}
use repodocs_go.State.{get_page, SyncState, Manager, state_version}

-- What `os.ReadFile` gave.
pub data StateFile (T : Type 0) : Type 0 where
  missing : StateFile T
  unreadable : Error → StateFile T
  contents : T → StateFile T

pub data LoadError : Type 0 where
  ok state_not_found state_corrupted version_mismatch : LoadError
  read_failed : Error → LoadError

-- What follows the decoding of the text.
load_decoded : Option SyncState → Manager → LoadError × Manager
load_decoded none m = (state_corrupted, m)
load_decoded (some s) m =
    if not (s.version == state_version) then (version_mismatch, m) else (ok, record m { state = s })

-- What `json.MarshalIndent`, `os.MkdirAll` and `os.WriteFile` return.
pub record Writing : Type 0 where
  pub marshalled : Error
  pub made_directory : Error
  pub wrote : Error

module _ {T : Type 0} (c : Codec T) where
  unfoldable pub load : StateFile T → Manager → LoadError × Manager
  unfolding load_decoded unmarshal
  load missing m = (if m.disabled then ok else state_not_found, m)
  load (unreadable e) m = (if m.disabled then ok else read_failed e, m)
  load (contents text) m =
      let loaded = load_decoded (unmarshal c text) m in if m.disabled then (ok, m) else loaded

  -- `Save` at a time: its error, the manager, and the text that it wrote to the file, if it did.
  unfoldable pub save : ℕ → Writing → Manager → Error × Manager × Option T
  unfolding state_json
  save now io m =
      let state = m.state in
      let stamped = record m { state = record state { last_sync = now } } in
      if m.disabled
      then (nil, m, none)
      else if not m.dirty
      then (nil, m, none)
      else if not (is_nil io.marshalled)
      then (io.marshalled, stamped, none)
      else if not (is_nil io.made_directory)
      then (io.made_directory, stamped, none)
      else if not (is_nil io.wrote)
      then (io.wrote, stamped, none)
      else (nil, record stamped { dirty = false }, some (c.print (state_json c stamped.state)))

  -- The manager that a save leaves, where it wrote the file.
  abbrev saved_at : ℕ → Manager → Manager
  saved_at now m =
      let state = m.state in record m { state = record state { last_sync = now }; dirty = false }

  save-writes :
      (now : ℕ) (io : Writing) (m : Manager) (text : T)
      → m.disabled ≡ false
      → (save now io m).2 ≡ some text
      → ((save now io m).1 ≡ saved_at now m)
        × (text ≡ c.print (state_json c (saved_at now m).state))
  unfolding save
  save-writes now io m text on saved = ground arith

  load-written :
      (text : T) (s : SyncState) (m : Manager)
      → unmarshal c text ≡ some s
      → m.disabled ≡ false
      → s.version ≡ state_version
      → load (contents text) m ≡ (ok, record m { state = s })
  unfolding load load_decoded
  load-written text s m read on version = rw (read, on, version) refl

  save_nothing :
      (later : ℕ) (io : Writing) (m : Manager) → m.dirty ≡ false → save later io m ≡ (nil, m, none)
  unfolding save
  save_nothing later io m clean = ground arith

  module _ (documented : IsCodec c) where
    -- What a manager that is not disabled saved, any other that is not disabled loads: the same page under
    -- every URL, the same source and strategy, and the time of the save; and a second save has nothing to
    -- do. This is for a state of the current version, and a codec as encoding/json and package time are
    -- documented.
    pub load-save :
        (now later : ℕ) (io : Writing) (m fresh : Manager) (text : T) (url : String)
        → m.disabled ≡ false
        → fresh.disabled ≡ false
        → m.state.version ≡ state_version
        → (save now io m).2 ≡ some text
        → let m' = (save now io m).1 in
          let (err, loaded) = load (contents text) fresh in
          (err ≡ ok)
          × (get_page url loaded.state.pages ≡ get_page url m.state.pages)
          × (loaded.state.source_url ≡ m.state.source_url)
          × (loaded.state.strategy ≡ m.state.strategy)
          × (loaded.state.last_sync ≡ now)
          × (save later io m' ≡ (nil, m', none))
    load-save now later io m fresh text url on on' version saved =
        let s = (saved_at now m).state in
        let (left, wrote) = save-writes now io m text on saved in
        let read = ap (unmarshal c) wrote ∙ unmarshal-json c documented s in
        let loads =
          load-written text (record s { pages = c.in_order s.pages }) fresh read on' version in
        (
          ap (λ l. l.0) loads,
          ap (λ l. get_page url l.1.state.pages) loads ∙ documented.same_entries url m.state.pages,
          ap (λ l. l.1.state.source_url) loads,
          ap (λ l. l.1.state.strategy) loads,
          ap (λ l. l.1.state.last_sync) loads,
          rw left (save_nothing later io (saved_at now m) refl),
        )

  load_decoded-keeps :
      (o : Option SyncState) (m : Manager)
      → ((load_decoded o m).1 ≡ m) ⊎ ((load_decoded o m).1.state.version ≡ state_version)
  unfolding load_decoded
  load_decoded-keeps none m = inl refl
  load_decoded-keeps (some s) m = ground arith

  load_keeps :
      (file : StateFile T) (m : Manager)
      → ((load file m).1 ≡ m) ⊎ ((load file m).1.state.version ≡ state_version)
  unfolding load
  load_keeps (contents text) m = ground (arith, load_decoded-keeps (unmarshal c text) m)
  load_keeps _ m = inl refl

  save_keeps :
      (now : ℕ) (io : Writing) (m : Manager)
      → (is_nil (save now io m).0 ≡ true) ⊎ ((save now io m).1.dirty ≡ true)
  unfolding save
  save_keeps now io m = ground arith

  -- `Load` replaces the state only by one of the current version, and leaves the manager as it is in
  -- every other case; `Save` that failed leaves the manager dirty, so that a later one writes.
  pub failures_keep :
      (file : StateFile T) (now : ℕ) (io : Writing) (m : Manager)
      → (((load file m).1 ≡ m) ⊎ ((load file m).1.state.version ≡ state_version))
        × ((is_nil (save now io m).0 ≡ true) ⊎ ((save now io m).1.dirty ≡ true))
  failures_keep file now io m = (load_keeps file m, save_keeps now io m)
