-- ===== src/Log/Tests.antt =====
-- The log at concrete inputs.
use socketlab.Base.{ℕ, ◌+◌, ◌≡◌, refl, List, [], ◌∷◌, Option, none, some, false, arith}
use socketlab.Log.{LogState, find_m, passed, simple_log_level_vprintf}
use socketlab.Log.Owner.{Cmd, set_level, set_os, set_file, run, IsTidy, IsFresh, run-IsTidy}
use socketlab.Log.Format.{vprintf_lem}

abbrev initial : LogState
initial = record { level = 4; fp = some 1; file = none; owned = false; open_files = [] }

-- A new stream has a number above those that are open.
abbrev above : List ℕ → List ℕ → Option ℕ
above [] name = some 3
above (fp ∷ fps) name = some (fp + 1)

above-IsFresh : IsFresh above
above-IsFresh fp fp' name e same = ground arith

abbrev cmds : List Cmd
cmds = set_file (some (97 ∷ [])) ∷ set_file (some (98 ∷ [])) ∷ set_level 9 ∷ set_os (some 2) ∷ []

run-IsTidy_example : IsTidy (run above cmds initial)
run-IsTidy_example = run-IsTidy above cmds initial above-IsFresh (ground arith)

no_m : find_m (58 ∷ 32 ∷ 37 ∷ []) ≡ none
unfolding find_m
no_m = refl

-- ": %m!"
vprintf_lem_example :
    (simple_log_level_vprintf initial (69 ∷ []) 2 (58 ∷ 32 ∷ 37 ∷ 109 ∷ 33 ∷ [])
      ≡ passed 1 (58 ∷ 32 ∷ 69 ∷ 33 ∷ []))
    × (simple_log_level_vprintf initial (69 ∷ []) 2 (58 ∷ 32 ∷ 37 ∷ [])
        ≡ passed 1 (58 ∷ 32 ∷ 37 ∷ []))
vprintf_lem_example =
    vprintf_lem initial (69 ∷ []) (58 ∷ []) (33 ∷ []) (58 ∷ 32 ∷ 37 ∷ []) 32 2 (ground arith) no_m
      no_m
