-- ===== src/Log.antt =====
-- lib/simple_log/simple_log.c and lib/simple_log/internal/simple_log_sink.c. The static variables are
-- a record of state. A stream is a number; `fopen` is a parameter, and `strerror` an argument.
pub mod Owner
pub mod Format
pub mod Lines
mod Tests
use socketlab.Base.{
  ℕ, zero, suc, ◌+◌, List, [], ◌∷◌, ◌++◌, Option, none, some, Bool, true, false, ◌&&◌, ◌==◌, leb,
  if◌then◌else◌, take, drop, get_or, bytes_eq,
}
use socketlab.Base.Int.{ℤ, pos, negsuc}

-- LOG_LEVEL_DEBUG
abbrev pub log_level_debug : ℕ
log_level_debug = 5

-- `stdout` and `stderr`
abbrev pub stdout : ℕ
stdout = 1

abbrev pub stderr : ℕ
stderr = 2

-- The static `level` of `log_level_ops` and the static `sink` of `slog_get_sink_p`, with the streams
-- that were opened by `fopen` and not closed.
pub record LogState : Type 0 where
  pub level : ℕ
  pub fp : Option ℕ
  pub file : Option (List ℕ)
  pub owned : Bool
  pub open_files : List ℕ

-- The value returned, and the state: SLOG_OK is 0, SLOG_ERR_INVALID_ARG -1.
unfoldable pub set_log_level : ℕ → LogState → ℤ × LogState
set_log_level level s =
    if leb level log_level_debug then (pos 0, record s { level = level }) else (negsuc 0, s)

unfoldable pub get_log_level : LogState → ℕ
get_log_level s = s.level

abbrev pub without : ℕ → List ℕ → List ℕ
without fp [] = []
without fp (x ∷ xs) = if fp == x then xs else x ∷ without fp xs

-- `if(sink->owned) if(sink->fp) fclose(sink->fp)`: the files that are open then.
abbrev pub after_close : Option ℕ → Bool → List ℕ → List ℕ
after_close (some fp) true files = without fp files
after_close fp owned files = files

unfoldable pub slog_set_sink_fp : Option ℕ → LogState → LogState
slog_set_sink_fp fp s = record s { fp = fp; open_files = after_close s.fp s.owned s.open_files }

-- `free` and `strdup` of the name.
unfoldable pub slog_set_sink_file : Option (List ℕ) → LogState → LogState
slog_set_sink_file file s = record s { file = file }

unfoldable pub slog_set_sink_owned : Bool → LogState → LogState
slog_set_sink_owned owned s = record s { owned = owned }

unfoldable pub slog_set_sink : Option ℕ → Option (List ℕ) → Bool → LogState → LogState
slog_set_sink fp file owned s =
    slog_set_sink_owned owned (slog_set_sink_file file (slog_set_sink_fp fp s))

unfoldable pub simple_log_set_log_os : Option ℕ → LogState → ℤ × LogState
simple_log_set_log_os os s = (pos 0, slog_set_sink os none false s)

-- The names "stdout" and "stderr"
abbrev pub stdout_name : List ℕ
stdout_name = 115 ∷ 116 ∷ 100 ∷ 111 ∷ 117 ∷ 116 ∷ []

abbrev pub stderr_name : List ℕ
stderr_name = 115 ∷ 116 ∷ 100 ∷ 101 ∷ 114 ∷ 114 ∷ []

-- The end of `simple_log_set_log_file`, with what `fopen` returned.
unfoldable pub with_opened : List ℕ → LogState → Option ℕ → ℤ × LogState
with_opened name s none = (negsuc 0, s)
with_opened name s (some fp) =
    (pos 0, slog_set_sink (some fp) (some name) true (record s { open_files = fp ∷ s.open_files }))

-- `fopen` answers from the streams that are open, and the name.
unfoldable pub simple_log_set_log_file :
    (List ℕ → List ℕ → Option ℕ) → Option (List ℕ) → LogState → ℤ × LogState
simple_log_set_log_file fopen none s = (negsuc 0, s)
simple_log_set_log_file fopen (some name) s =
    if bytes_eq name stdout_name
    then (pos 0, slog_set_sink (some stdout) (some name) false s)
    else if bytes_eq name stderr_name
    then (pos 0, slog_set_sink (some stderr) (some name) false s)
    else with_opened name s (fopen s.open_files name)

-- `strstr(fmt, "%m")`, as an index.
unfoldable pub find_m : List ℕ → Option ℕ
find_m [] = none
find_m (a ∷ []) = none
find_m (a ∷ b ∷ s) =
    let rest = find_m (b ∷ s) in
    if (a == 37) && (b == 109) then some 0 else elim rest [ none ↦ none | some i ↦ some (suc i) ]

-- The format that is printed, with the text `err` for `%m`; `none` is a read before the format.
unfoldable pub expand : List ℕ → List ℕ → Option (List ℕ)
expand err fmt = elim (find_m fmt) [
  | none ↦ some fmt
  | some zero ↦ none
  | some (suc i) ↦
      if get_or fmt i 0 == 37
      then some fmt
      else some (take (suc i) fmt ++ (err ++ drop (suc i + 2) fmt))
]

-- What `simple_log_level_vprintf` does: it returns a code at once, passes a format to `vfprintf` on a
-- stream, or reads out of bounds.
pub data Printed : Type 0 where
  code : ℤ → Printed
  passed : ℕ → List ℕ → Printed
  out_of_bounds : Printed

abbrev pub pass : ℕ → Option (List ℕ) → Printed
pass fp none = out_of_bounds
pass fp (some fmt) = passed fp fmt

unfoldable pub simple_log_level_vprintf : LogState → List ℕ → ℕ → List ℕ → Printed
simple_log_level_vprintf s err level fmt =
    if leb level s.level
    then elim s.fp [ none ↦ code (negsuc 1) | some fp ↦ pass fp (expand err fmt) ]
    else code (pos 0)
