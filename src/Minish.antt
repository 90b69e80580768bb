-- ===== src/Minish.antt =====
-- include/minish.c: the loop that reads commands and runs their handlers. The history is left out.
mod Tests
use socketlab.Base.{
  ℕ, zero, suc, ◌+◌, List, [], ◌∷◌, ◌++◌, Option, none, some, Bool, ltb, if◌then◌else◌, length,
  drop, bytes_eq,
}
use socketlab.Base.Int.{ℤ, is_zero}
use socketlab.Sys.{Sys, Call, readline, pure, fault, call, ◌>>=◌, ◌>>◌, when◌run◌otherwise◌}
use socketlab.Ft.{c_string, strtok}

-- `cmd_entry`, without its description: the name and the handler, whose result is not looked at.
pub record CmdEntry : Type 0 where
  pub name : List ℕ
  pub handler : Option (List ℕ) → Sys ℤ

-- `cmd` and `args` of a line, if it has a command; `args` begins one byte behind as many bytes as the
-- command has, counted from the beginning of the line, and is null from the end of the line on.
unfoldable pub command_of : List ℕ → Option (List ℕ × Option (List ℕ))
command_of str = elim (strtok str) [
  | none ↦ none
  | some (cmd, memory) ↦ some (
    cmd,
    if ltb (length cmd + 1) (length (c_string str))
        then some (c_string (drop (length cmd + 1) memory))
        else none,
  )
]

-- The loop over the table. A command that is not in it is only reported.
unfoldable pub run_command : List CmdEntry → List ℕ → Option (List ℕ) → Sys Unit
run_command [] cmd args = pure tt
run_command (entry ∷ table) cmd args =
    when bytes_eq entry.name cmd
    run (do entry.handler args; pure tt)
    otherwise run_command table cmd args

unfoldable pub run_line : List CmdEntry → Option (List ℕ × Option (List ℕ)) → Sys Unit
run_line table none = pure tt
run_line table (some (cmd, args)) = run_command table cmd args

-- The loop of `minish`, watched for a number of turns. At the end of the input `readline` returns a null
-- pointer, which `strlen` is given.
unfoldable pub minish : ℕ → List ℕ → List CmdEntry → Sys Unit
minish zero prompt table = pure tt
minish (suc turns) prompt table = do
  r ← call (readline prompt)
  when is_zero r.ret
      run fault
      otherwise (do run_line table (command_of r.out); minish turns prompt table)
