-- ===== src/Recovery/Ancestors/Tests.antt =====
-- internal/recovery/probes.go: the directories of concrete paths, and the theorem at one of them.
use repodocs_go.Base.{◌≡◌, refl, [], ◌∷◌, codes}
use repodocs_go.Recovery.Ancestors.{candidate_dirs, dir_of}

page_test :
    candidate_dirs 9 (dir_of (codes "/docs/v1/a.html")) []
    ≡ codes "/docs/v1/" ∷ codes "/docs/" ∷ codes "/" ∷ []
unfolding candidate_dirs dir_of
page_test = refl

-- Below the fourth directory nothing is asked for, not even at the root.
deep_test :
    candidate_dirs 20 (dir_of (codes "/a/b/c/d/e")) []
    ≡ codes "/a/b/c/d/" ∷ codes "/a/b/c/" ∷ codes "/a/b/" ∷ codes "/a/" ∷ []
unfolding candidate_dirs dir_of
deep_test = refl
