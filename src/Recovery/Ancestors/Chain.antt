-- ===== src/Recovery/Ancestors/Chain.antt =====
-- internal/recovery/probes.go: the candidates for an llms.txt are the directory and those above it.
use repodocs_go.Base.{
  ◌≡◌, ◌≤◌, ◌<◌, ◌+◌, refl, ap, ◌∙◌, arith, All, Bool-cases, [], ◌∷◌, ◌++◌, true, false, ◌==◌, leb,
  if◌then◌else◌, length, length-append, zero, suc, ℕ, List, same_codes, ◌⊎◌, inl, inr,
}
use repodocs_go.Recovery.Ancestors.{
  root, is_empty_path, up_to_slash, or_root, ends_in_slash, trim_slash, dir_of, parent_dir, is_seen,
  candidate_dirs,
}

length-up_to_slash : (cs : List ℕ) → length (up_to_slash cs) ≤ length cs
length-up_to_slash [] = omega arith
length-up_to_slash (c ∷ cs) = ground (arith, length-up_to_slash cs)

length-trim_slash :
    (cs : List ℕ) → ends_in_slash cs ≡ true → length cs ≡ suc (length (trim_slash cs))
length-trim_slash [] h = absurd (ground (arith, h))
length-trim_slash (c ∷ []) h = ground (arith, h)
length-trim_slash (c ∷ d ∷ cs) h = omega (arith, length-trim_slash (d ∷ cs) h)

same_codes_refl : (cs : List ℕ) → same_codes cs cs ≡ true
same_codes_refl [] = refl
same_codes_refl (c ∷ cs) = ground (arith, same_codes_refl cs)

length-same_codes : (cs ds : List ℕ) → same_codes cs ds ≡ true → length cs ≡ length ds
length-same_codes [] [] h = refl
length-same_codes [] (d ∷ ds) h = absurd (ground (arith, h))
length-same_codes (c ∷ cs) [] h = absurd (ground (arith, h))
length-same_codes (c ∷ cs) (d ∷ ds) h =
    let rest : same_codes cs ds ≡ true = ground (arith, h) in
    omega (arith, length-same_codes cs ds rest)

kept_ends :
    (c : ℕ) (rest : List ℕ)
    → (rest ≡ []) ⊎ (ends_in_slash rest ≡ true)
    → let kept = if is_empty_path rest then (if c == 47 then root else []) else c ∷ rest in
      (kept ≡ []) ⊎ (ends_in_slash kept ≡ true)
kept_ends c [] h = elim (Bool-cases (c == 47)) [
  | inl slash ↦ rw slash (inr refl)
  | inr other ↦ rw other (inl refl)
]
kept_ends c (d ∷ rest) (inl e) = absurd (ground (arith, ap length e))
kept_ends c (d ∷ rest) (inr h) = inr h

-- What is left of a path up to its last slash ends in it.
up_to_slash_ends : (cs : List ℕ) → (up_to_slash cs ≡ []) ⊎ (ends_in_slash (up_to_slash cs) ≡ true)
up_to_slash_ends [] = inl refl
up_to_slash_ends (c ∷ cs) = kept_ends c (up_to_slash cs) (up_to_slash_ends cs)

or_root_ends :
    (cs : List ℕ) → (cs ≡ []) ⊎ (ends_in_slash cs ≡ true) → ends_in_slash (or_root cs) ≡ true
or_root_ends [] h = refl
or_root_ends (c ∷ cs) (inl e) = absurd (ground (arith, ap length e))
or_root_ends (c ∷ cs) (inr h) = h

parent_dir_ends : (dir : List ℕ) → ends_in_slash (parent_dir dir) ≡ true
unfolding parent_dir
parent_dir_ends dir =
    or_root_ends (up_to_slash (trim_slash dir)) (up_to_slash_ends (trim_slash dir))

dir_of_ends : (path : List ℕ) → ends_in_slash (dir_of path) ≡ true
unfolding dir_of
dir_of_ends path = elim (Bool-cases (ends_in_slash path)) [
  | inl dir ↦ rw dir dir
  | inr file ↦ rw file (or_root_ends (up_to_slash path) (up_to_slash_ends path))
]

length-or_root : (cs : List ℕ) (n : ℕ) → length cs ≤ n → 0 < n → length (or_root cs) ≤ n
length-or_root [] n h pos_ = omega (arith, pos_)
length-or_root (c ∷ cs) n h pos_ = h

-- A directory of one character is the root.
long_dir : (dir : List ℕ) → ends_in_slash dir ≡ true → same_codes dir root ≡ false → 1 < length dir
long_dir [] e h = absurd (ground (arith, e))
long_dir (c ∷ []) e h = absurd (ground (arith, e, h))
long_dir (c ∷ d ∷ cs) e h = omega arith

parent_dir-shorter :
    (dir : List ℕ)
    → ends_in_slash dir ≡ true
    → same_codes dir root ≡ false
    → length (parent_dir dir) < length dir
unfolding parent_dir
parent_dir-shorter dir e h =
    let long = long_dir dir e h in
    let one_less = length-trim_slash dir e in
    let fewer = length-up_to_slash (trim_slash dir) in
    let bound =
      length-or_root (up_to_slash (trim_slash dir)) (length (trim_slash dir)) fewer
        (omega (arith, long, one_less)) in
    omega (arith, bound, one_less)

-- The directory and those above it, the nearest first, up to the root or so many of them.
abbrev pub chain : ℕ → List ℕ → List (List ℕ)
unfolding parent_dir
chain zero dir = []
chain (suc k) dir =
    let above = chain k (parent_dir dir) in dir ∷ (if same_codes dir root then [] else above)

abbrev Longer : List ℕ → List (List ℕ) → Type 0
Longer dir out = All (λ d. length dir < length d) out

Longer-unseen : (dir : List ℕ) (out : List (List ℕ)) → Longer dir out → is_seen dir out ≡ false
Longer-unseen dir [] h = refl
Longer-unseen dir (d ∷ out) (h, hs) = elim (Bool-cases (same_codes d dir)) [
  | inl same ↦ let e = length-same_codes d dir same in absurd (omega (arith, h, e))
  | inr other ↦ rw other (Longer-unseen dir out hs)
]

Longer-then :
    (dir d : List ℕ) (out : List (List ℕ))
    → length dir < length d
    → Longer d out
    → Longer dir (out ++ (d ∷ []))
Longer-then dir d [] h l = (h, tt)
Longer-then dir d (e ∷ out) h (l, ls) = (omega (arith, h, l), Longer-then dir d out h ls)

append_assoc {ℓ} : {A : Type ℓ} (a b c : List A) → (a ++ b) ++ c ≡ a ++ (b ++ c)
append_assoc [] b c = refl
append_assoc (x ∷ a) b c = ap (λ l. x ∷ l) (append_assoc a b c)

-- A turn of the loop below the root.
climb :
    (n k : ℕ) (dir : List ℕ) (out : List (List ℕ))
    → length out + suc k ≡ 4
    → is_seen dir out ≡ false
    → same_codes dir root ≡ false
    → ((i : ℕ)
        → k ≡ suc i
        → candidate_dirs n (parent_dir dir) (out ++ (dir ∷ []))
          ≡ (out ++ (dir ∷ [])) ++ chain (suc i) (parent_dir dir))
    → candidate_dirs (suc n) dir out ≡ out ++ chain (suc k) dir
unfolding candidate_dirs
climb n zero dir out four new below later =
    let one_more = length-append out (dir ∷ []) in
    let full : leb 4 (length (out ++ (dir ∷ []))) ≡ true = ground (arith, one_more, four) in
    rw (new, below, full) refl
climb n (suc i) dir out four new below later =
    let one_more = length-append out (dir ∷ []) in
    let room : leb 4 (length (out ++ (dir ∷ []))) ≡ false = ground (arith, one_more, four) in
    rw (new, below, room) (later i refl ∙ append_assoc out (dir ∷ []) _)

candidate_dirs_from :
    (n k : ℕ) (dir : List ℕ) (out : List (List ℕ))
    → ends_in_slash dir ≡ true
    → length dir ≤ n
    → length out + suc k ≡ 4
    → Longer dir out
    → candidate_dirs n dir out ≡ out ++ chain (suc k) dir
unfolding candidate_dirs
candidate_dirs_from zero k [] out e h four l = absurd (ground (arith, e))
candidate_dirs_from zero k (c ∷ dir) out e h four l = absurd (omega (arith, h))
candidate_dirs_from (suc n) k dir out e h four l =
    let new = Longer-unseen dir out l in
    let one_more = length-append out (dir ∷ []) in
    elim (Bool-cases (same_codes dir root)) [
      | inl at_root ↦ rw (new, at_root) refl
      | inr below ↦ climb n k dir out four new below (λ i up.
          candidate_dirs_from n i (parent_dir dir) (out ++ (dir ∷ [])) (parent_dir_ends dir)
            (let shorter = parent_dir-shorter dir e below in omega (arith, shorter, h))
            (omega (arith, one_more, four, up))
            (Longer-then (parent_dir dir) dir out (parent_dir-shorter dir e below) l))
    ]

-- The loop of `llmsCandidates` ends by itself, and never looks at a directory twice: with as much fuel
-- as the directory has characters, or more, it gives the directory of the path and those above it, the
-- nearest first, up to the root or to four of them.
pub candidate_dirs-chain :
    (path : List ℕ) (n : ℕ)
    → length (dir_of path) ≤ n
    → candidate_dirs n (dir_of path) [] ≡ chain 4 (dir_of path)
candidate_dirs-chain path n enough =
    candidate_dirs_from n 3 (dir_of path) [] (dir_of_ends path) enough refl tt
