-- ===== src/Minish/Tests.antt =====
-- "ls -a", and the same behind a space: the arguments then begin within the command.
use socketlab.Base.{◌≡◌, refl, List, [], ◌∷◌, some, none, ℕ}
use socketlab.Ft.{strtok, end_token}
use socketlab.Minish.{command_of}

abbrev ls_a : List ℕ
ls_a = 108 ∷ 115 ∷ 32 ∷ 45 ∷ 97 ∷ 0 ∷ []

ls_a_test : command_of ls_a ≡ some (108 ∷ 115 ∷ [], some (45 ∷ 97 ∷ []))
unfolding command_of strtok end_token
ls_a_test = refl

indented_test : command_of (32 ∷ ls_a) ≡ some (108 ∷ 115 ∷ [], some [])
unfolding command_of strtok end_token
indented_test = refl

empty_test : command_of (32 ∷ 0 ∷ []) ≡ none
unfolding command_of strtok end_token
empty_test = refl
