-- ===== src/Strategies/Git/Walk.antt =====
-- internal/strategies/git/processor.go: `FindDocumentationFiles`, on the tree of the directory that is walked. In place
-- of filepath.WalkDir and os.Stat stands the tree that they read, in the order of its entries.
use Prim.Native.String as Text
use repodocs_go.Base.{
  ◌&&◌, contains, ◌≡◌, refl, subst, sym, Bool, true, false, ◌||◌, List, [], ◌∷◌, ◌++◌, ◌⊎◌, inl,
  inr, String, if◌then◌else◌, Bool-cases,
}
use repodocs_go.Domain.Errors.{Error, nil, message, wrapped, is_nil}
use repodocs_go.Strategies.Git.{document_extensions, config_extensions}

abbrev ignore_dirs : List String
ignore_dirs =
    ".git" ∷ "node_modules" ∷ "vendor" ∷ "__pycache__" ∷ ".venv" ∷ "venv" ∷ "dist" ∷ "build"
    ∷ ".next" ∷ ".nuxt" ∷ []

-- A file has its path, and a directory its name; `unread` is an entry that could not be read.
mutual
  pub data Tree : Type 0 where
    file : String → Tree
    dir : String → Forest → Tree
    unread : Error → Tree

  pub data Forest : Type 0 where
    no_more : Forest
    entry : Tree → Forest → Forest

module _ (lower_ext : String → String) where
  abbrev pub is_documentation : String → Bool
  is_documentation path =
      contains document_extensions (lower_ext path) || contains config_extensions (lower_ext path)

  unfoldable mutual
    pub walk : Tree → List String × Error
    walk (file path) = (if is_documentation path then path ∷ [] else [], nil)
    walk (dir name entries) =
        let (found, err) = walk_entries entries in
        if contains ignore_dirs name then ([], nil) else (found, err)
    walk (unread e) = ([], e)

    -- The entries of a directory, up to the first error.
    pub walk_entries : Forest → List String × Error
    walk_entries no_more = ([], nil)
    walk_entries (entry t ts) =
        let (found, err) = walk t in
        let (more, err') = walk_entries ts in
        if is_nil err then (found ++ more, err') else (found, err)

  -- `FindDocumentationFiles` with a filter path: what os.Stat gives of it, which is whether it is a directory.
  unfoldable pub find_filtered : (Error → Bool) → String → Error ⊎ Bool → Tree → List String × Error
  unfolding walk
  find_filtered is_not_exist path (inl e) t = (
    [],
    if is_not_exist e
        then message (Text.◌++◌ "filter path does not exist in repository: " path)
        else wrapped "failed to access filter path: %w" e,
  )
  find_filtered is_not_exist path (inr is_dir) t =
      let found = walk t in
      if is_dir then found else ([], message (Text.◌++◌ "filter path is not a directory: " path))

  -- The tree is that of the directory, or of the filter path in it.
  unfoldable pub find_documentation_files :
      (Error → Bool) → String → Error ⊎ Bool → Tree → List String × Error
  unfolding walk find_filtered
  find_documentation_files is_not_exist Text.[] stat t = walk t
  find_documentation_files is_not_exist (Text.◌∷◌ c path) stat t =
      find_filtered is_not_exist (Text.◌∷◌ c path) stat t

  -- The paths of all files but those below an ignored directory.
  mutual
    pub files_under : Tree → List String
    files_under (file path) = path ∷ []
    files_under (dir name entries) =
        let paths = files_in entries in if contains ignore_dirs name then [] else paths
    files_under (unread e) = []

    files_in : Forest → List String
    files_in no_more = []
    files_in (entry t ts) = files_under t ++ files_in ts

  -- Whether all entries could be read but those below an ignored directory.
  mutual
    pub is_read : Tree → Bool
    is_read (file path) = true
    is_read (dir name entries) = contains ignore_dirs name || are_read entries
    is_read (unread e) = is_nil e

    are_read : Forest → Bool
    are_read no_more = true
    are_read (entry t ts) = is_read t && are_read ts

  abbrev pub documentation : List String → List String
  documentation [] = []
  documentation (p ∷ ps) =
      let rest = documentation ps in if is_documentation p then p ∷ rest else rest

  documentation-append :
      (ps qs : List String) → documentation (ps ++ qs) ≡ documentation ps ++ documentation qs
  documentation-append [] qs = refl
  documentation-append (p ∷ ps) qs = elim (Bool-cases (is_documentation p)) [
    | inl kept ↦ rw (kept, documentation-append ps qs) refl
    | inr other ↦ rw (other, documentation-append ps qs) refl
  ]

  -- What the walk gives, where it was not stopped, and whether it was.
  abbrev Walked : List String × Error → List String → Bool → Type 0
  Walked (found, err) paths read = (is_nil err ≡ read) × (read ≡ true → found ≡ documentation paths)

  Walked-dir :
      (ignored : Bool) (found paths : List String) (err : Error) (read : Bool)
      → Walked (found, err) paths read
      → Walked
          (if ignored then ([], nil) else (found, err))
          (if ignored then [] else paths)
          (ignored || read)
  Walked-dir true found paths err read h = (refl, λ e. refl)
  Walked-dir false found paths err read h = h

  Walked-entry :
      (first : Bool) (found more ps qs : List String) (err err' : Error) (all_read : Bool)
      → Walked (found, err) ps first
      → Walked (more, err') qs all_read
      → Walked
          (if first then (found ++ more, err') else (found, err))
          (ps ++ qs)
          (first && all_read)
  Walked-entry true found more ps qs err err' all_read (_, h) (ends, k) =
      (ends, λ e. rw (h refl, k e, documentation-append ps qs) refl)
  Walked-entry false found more ps qs err err' all_read (ends, h) _ = (ends, λ e. absurd cc)

  mutual
    unfolding walk files_under is_read

    walk-Walked : (t : Tree) → Walked (walk t) (files_under t) (is_read t)
    walk-Walked (file path) = (refl, λ h. refl)
    walk-Walked (dir name entries) =
        let (found, err) = walk_entries entries in
        Walked-dir (contains ignore_dirs name) found (files_in entries) err (are_read entries)
          (walk_entries-Walked entries)
    walk-Walked (unread e) = (refl, λ h. refl)

    walk_entries-Walked : (ts : Forest) → Walked (walk_entries ts) (files_in ts) (are_read ts)
    walk_entries-Walked no_more = (refl, λ h. refl)
    walk_entries-Walked (entry t ts) =
        let (found, err) = walk t in
        let (more, err') = walk_entries ts in
        subst
          (λ b.
            Walked (if b then (found ++ more, err') else (found, err))
              (files_under t ++ files_in ts) (is_read t && are_read ts))
          (sym (walk-Walked t).0)
          (Walked-entry (is_read t) found more (files_under t) (files_in ts) err err' (are_read ts)
            (walk-Walked t) (walk_entries-Walked ts))

  -- Where there is no filter path, or it is that of a directory, FindDocumentationFiles gives no error just where all
  -- entries could be read that are not below an ignored directory, and then the files of the tree with one of the
  -- extensions, in the order of the walk, but those below an ignored directory, be it the one the walk starts from.
  pub find_documentation_files-walked :
      (is_not_exist : Error → Bool) (path : String) (t : Tree)
      → let (found, err) = find_documentation_files is_not_exist path (inr true) t in
        (is_nil err ≡ is_read t) × (is_read t ≡ true → found ≡ documentation (files_under t))
  unfolding find_documentation_files find_filtered
  find_documentation_files-walked is_not_exist Text.[] t = walk-Walked t
  find_documentation_files-walked is_not_exist (Text.◌∷◌ c path) t = walk-Walked t
