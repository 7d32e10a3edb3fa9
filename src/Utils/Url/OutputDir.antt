-- ===== src/Utils/Url/OutputDir.antt =====
-- internal/utils/url.go: `GenerateOutputDirFromURL`, on the host and the path of the parsed URL. Texts are
-- their characters' codes, and lower-cased as ASCII.
use repodocs_go.Base.{
  ◌⊎◌, ◌≤◌, arith, inr, inl, refl, Bool-cases, ◌≡◌, All, Bool, true, false, not, ◌&&◌, ◌||◌, ◌==◌,
  leb, String, List, [], ◌∷◌, ◌++◌, Option, none, some, ℕ, codes, lower_codes, lower_code,
  begins_with, holds, same_codes, if◌then◌else◌,
}

-- A lower-case letter, a digit, `-` or `_`.
abbrev pub is_dir_code : ℕ → Bool
is_dir_code c = leb 97 c && leb c 122 || leb 48 c && leb c 57 || c == 45 || c == 95

abbrev pub dir_codes : List ℕ → List ℕ
dir_codes [] = []
dir_codes (c ∷ cs) = let rest = dir_codes cs in if is_dir_code c then c ∷ rest else rest

unfoldable pub sanitize_for_dir_name : List ℕ → List ℕ
unfolding lower_code
sanitize_for_dir_name s = dir_codes (lower_codes s)

abbrev is_empty : List ℕ → Bool
is_empty [] = true
is_empty (c ∷ cs) = false

abbrev on_head : ℕ → List (List ℕ) → List (List ℕ)
on_head c [] = []
on_head c (p ∷ ps) = (c ∷ p) ∷ ps

-- strings.Split(s, "/")
abbrev pub parts_of : List ℕ → List (List ℕ)
parts_of [] = [] ∷ []
parts_of (c ∷ cs) = let rest = parts_of cs in if c == 47 then [] ∷ rest else on_head c rest

abbrev has_code : ℕ → List ℕ → Bool
has_code d [] = false
has_code d (c ∷ cs) = c == d || has_code d cs

-- Without the port: what stands before the last colon.
abbrev pub drop_port : List ℕ → List ℕ
drop_port [] = []
drop_port (c ∷ cs) =
    let rest = drop_port cs in if has_code 58 cs then c ∷ rest else if c == 58 then [] else c ∷ cs

-- strings.Trim(s, "/")
abbrev trim_left_slashes : List ℕ → List ℕ
trim_left_slashes [] = []
trim_left_slashes (c ∷ cs) = let rest = trim_left_slashes cs in if c == 47 then rest else c ∷ cs

abbrev trim_right_slashes : List ℕ → List ℕ
trim_right_slashes [] = []
trim_right_slashes (c ∷ cs) =
    let rest = trim_right_slashes cs in if c == 47 && is_empty rest then [] else c ∷ rest

abbrev trim_suffix_codes : List ℕ → List ℕ → List ℕ
trim_suffix_codes [] t = []
trim_suffix_codes (c ∷ cs) t =
    let rest = trim_suffix_codes cs t in if same_codes (c ∷ cs) t then [] else c ∷ rest

-- owner/repo
abbrev repo_name : List (List ℕ) → List ℕ
repo_name [] = []
repo_name (p ∷ []) = p
repo_name (p ∷ repo ∷ ps) = trim_suffix_codes repo (codes ".git")

-- The last part that is not empty and has no dot, or else the last one.
abbrev last_plain : List (List ℕ) → List ℕ
last_plain [] = []
last_plain (p ∷ ps) =
    let later = last_plain ps in
    if not (is_empty later)
    then later
    else if not (is_empty p) && not (has_code 46 p)
    then p
    else []

abbrev last_part : List (List ℕ) → List ℕ
last_part [] = []
last_part (p ∷ []) = p
last_part (p ∷ q ∷ ps) = last_part (q ∷ ps)

abbrev package_name : List (List ℕ) → List ℕ
package_name ps = let plain = last_plain ps in if is_empty plain then last_part ps else plain

abbrev crate_name : List (List ℕ) → List ℕ
crate_name [] = []
crate_name (p ∷ []) = p
crate_name (p ∷ q ∷ ps) = if same_codes p (codes "crate") then q else p

-- A later rule is tried where the name is still empty.
abbrev or_if : List ℕ → Bool → List ℕ → List ℕ
or_if name applies other = if is_empty name && applies then other else name

abbrev or_host : List ℕ → List ℕ → List ℕ
or_host name host = if is_empty name then host else name

abbrev drop_four : List ℕ → List ℕ
drop_four (a ∷ b ∷ c ∷ d ∷ host) = host
drop_four host = host

-- strings.TrimPrefix(host, "www.")
abbrev trim_www : List ℕ → List ℕ
trim_www host = if begins_with host (codes "www.") then drop_four host else host

abbrev is_git_host : List ℕ → Bool
is_git_host host =
    holds host (codes "github.com")
    || holds host (codes "gitlab.com")
    || holds host (codes "bitbucket.org")

-- What is found in the host and the path, before the last steps.
pub name_from : List ℕ → List ℕ → List ℕ
unfolding sanitize_for_dir_name
name_from host path =
    let parts = parts_of path in
    let repo = or_if [] (is_git_host host) (repo_name parts) in
    let package_ = or_if repo (holds host (codes "pkg.go.dev")) (package_name parts) in
    let crate = or_if package_ (holds host (codes "docs.rs")) (crate_name parts) in
    or_host crate (sanitize_for_dir_name (trim_www host))

-- Of the host and the path of the URL, `none` where it does not parse.
unfoldable pub generate_output_dir_from_url : Option (String × String) → List ℕ
unfolding name_from sanitize_for_dir_name lower_code
generate_output_dir_from_url none = codes "docs"
generate_output_dir_from_url (some (host, path)) =
    let name =
      name_from (drop_port (lower_codes (codes host)))
        (trim_right_slashes (trim_left_slashes (codes path))) in
    if is_empty name then codes "docs" else codes "docs_" ++ sanitize_for_dir_name name

-- The code of a to z, of 0 to 9, of `-` or of `_`, and so neither that of `.`, of a slash nor of a backslash.
abbrev pub IsDirCode : ℕ → Type 0
IsDirCode c = ((97 ≤ c) × (c ≤ 122)) ⊎ ((48 ≤ c) × (c ≤ 57)) ⊎ (c ≡ 45) ⊎ (c ≡ 95)

is_dir_code-IsDirCode : (c : ℕ) → is_dir_code c ≡ true → IsDirCode c
is_dir_code-IsDirCode c h = ground (arith, h)

dir_codes-IsDirCode : (cs : List ℕ) → All IsDirCode (dir_codes cs)
dir_codes-IsDirCode [] = tt
dir_codes-IsDirCode (c ∷ cs) = elim (Bool-cases (is_dir_code c)) [
  | inl ok ↦ rw ok (is_dir_code-IsDirCode c ok, dir_codes-IsDirCode cs)
  | inr bad ↦ rw bad (dir_codes-IsDirCode cs)
]

-- The codes of "docs_".
docs : IsDirCode 100 × IsDirCode 111 × IsDirCode 99 × IsDirCode 115 × IsDirCode 95
docs = (
  is_dir_code-IsDirCode 100 refl,
  is_dir_code-IsDirCode 111 refl,
  is_dir_code-IsDirCode 99 refl,
  is_dir_code-IsDirCode 115 refl,
  is_dir_code-IsDirCode 95 refl,
)

name-IsDirCode :
    (name : List ℕ)
    → let dir =
        if is_empty name then codes "docs" else codes "docs_" ++ sanitize_for_dir_name name in
      All IsDirCode dir × (begins_with dir (codes "docs") ≡ true)
unfolding sanitize_for_dir_name lower_code
name-IsDirCode [] = ((docs.0, (docs.1, (docs.2, (docs.3, tt)))), refl)
name-IsDirCode (c ∷ cs) = (
  (docs.0, (docs.1, (docs.2, (docs.3, (docs.4, dir_codes-IsDirCode (lower_codes (c ∷ cs))))))),
  refl,
)

-- Whatever the URL, the name of the directory begins with "docs" and has only the letters a to z, digits,
-- hyphens and underscores: no dot and no slash of either kind, so that it is one segment of a path and
-- cannot lead out of it.
pub generate_output_dir-IsDirCode :
    (url : Option (String × String))
    → let dir = generate_output_dir_from_url url in
      All IsDirCode dir × (begins_with dir (codes "docs") ≡ true)
unfolding generate_output_dir_from_url
generate_output_dir-IsDirCode none = name-IsDirCode []
generate_output_dir-IsDirCode (some (host, path)) = name-IsDirCode (
    name_from (drop_port (lower_codes (codes host)))
      (trim_right_slashes (trim_left_slashes (codes path))))
