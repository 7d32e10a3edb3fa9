-- ===== src/Recovery/Ancestors.antt =====
-- internal/recovery/probes.go: the directories in which `probeLLMSTxt` looks for an llms.txt. A path is
-- the list of its code points; `seen` compares candidates, which differ only in the directory.
mod Chain
mod Tests
use repodocs_go.Base.{
  ◌==◌, ◌&&◌, ◌||◌, leb, length, [], ◌∷◌, ◌++◌, true, false, if◌then◌else◌, zero, suc, ℕ, Bool,
  List, same_codes,
}

abbrev pub root : List ℕ
root = 47 ∷ []

abbrev pub is_empty_path : List ℕ → Bool
is_empty_path [] = true
is_empty_path (c ∷ cs) = false

-- `path[:idx+1]`, with `idx` that of the last slash, or nothing
abbrev pub up_to_slash : List ℕ → List ℕ
up_to_slash [] = []
up_to_slash (c ∷ cs) =
    let rest = up_to_slash cs in
    if is_empty_path rest then (if c == 47 then root else []) else c ∷ rest

abbrev pub or_root : List ℕ → List ℕ
or_root [] = root
or_root (c ∷ cs) = c ∷ cs

abbrev pub ends_in_slash : List ℕ → Bool
ends_in_slash [] = false
ends_in_slash (c ∷ []) = c == 47
ends_in_slash (c ∷ d ∷ cs) = ends_in_slash (d ∷ cs)

-- strings.TrimSuffix(dir, "/")
abbrev pub trim_slash : List ℕ → List ℕ
trim_slash [] = []
trim_slash (c ∷ []) = if c == 47 then [] else c ∷ []
trim_slash (c ∷ d ∷ cs) = c ∷ trim_slash (d ∷ cs)

unfoldable pub dir_of : List ℕ → List ℕ
dir_of path = if ends_in_slash path then path else or_root (up_to_slash path)

unfoldable pub parent_dir : List ℕ → List ℕ
parent_dir dir = or_root (up_to_slash (trim_slash dir))

abbrev pub is_seen : List ℕ → List (List ℕ) → Bool
is_seen dir [] = false
is_seen dir (d ∷ ds) = same_codes d dir || is_seen dir ds

-- The loop of `llmsCandidates`, with fuel for the directories.
unfoldable pub candidate_dirs : ℕ → List ℕ → List (List ℕ) → List (List ℕ)
unfolding parent_dir
candidate_dirs zero dir out = out
candidate_dirs (suc n) dir out =
    let more = if is_seen dir out then out else out ++ (dir ∷ []) in
    let rest = candidate_dirs n (parent_dir dir) more in
    if same_codes dir root || leb 4 (length more) then more else rest
