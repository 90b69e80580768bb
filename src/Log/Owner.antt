-- ===== src/Log/Owner.antt =====
-- Which files the log holds open.
use socketlab.Base.{
  ℕ, ◌≤◌, ◌≡◌, ◌≢◌, refl, sym, ap, ◌∙◌, List, [], ◌∷◌, Option, none, some, Bool-cases, inl, inr,
  Bool, true, false, arith, bytes_eq,
}
use socketlab.Log.{
  LogState, set_log_level, with_opened, stdout, stderr, stdout_name, stderr_name, after_close,
  slog_set_sink, slog_set_sink_fp, slog_set_sink_file, slog_set_sink_owned, simple_log_set_log_os,
  simple_log_set_log_file, without, log_level_debug,
}

-- A call of the interface.
pub data Cmd : Type 0 where
  set_level : ℕ → Cmd
  set_os : Option ℕ → Cmd
  set_file : Option (List ℕ) → Cmd

unfoldable pub exec : (List ℕ → List ℕ → Option ℕ) → Cmd → LogState → LogState
exec fopen (set_level level) s = (set_log_level level s).1
exec fopen (set_os os) s = (simple_log_set_log_os os s).1
exec fopen (set_file name) s = (simple_log_set_log_file fopen name s).1

unfoldable pub run : (List ℕ → List ℕ → Option ℕ) → List Cmd → LogState → LogState
run fopen [] s = s
run fopen (c ∷ cs) s = run fopen cs (exec fopen c s)

abbrev pub owned_files : Option ℕ → Bool → List ℕ
owned_files (some fp) true = fp ∷ []
owned_files fp owned = []

-- The open files are the one of the sink, if the sink owns it, and the level is one of the levels.
pub record IsTidy (s : LogState) : Type 0 where
  pub files : s.open_files ≡ owned_files s.fp s.owned
  pub in_range : s.level ≤ log_level_debug

-- A stream that `fopen` gives is not open already.
abbrev pub IsFresh : (List ℕ → List ℕ → Option ℕ) → Type 0
IsFresh fopen = (fp fp' : ℕ) (name : List ℕ) → fopen (fp ∷ []) name ≡ some fp' → fp' ≢ fp

without-head : (fp : ℕ) (files : List ℕ) → without fp (fp ∷ files) ≡ files
without-head fp files = ground arith

without-next : (fp new : ℕ) → new ≢ fp → without fp (new ∷ fp ∷ []) ≡ new ∷ []
without-next fp new fresh = ground arith

-- Closing the file of the sink leaves only the files that were opened since.
nothing_left :
    (fp : Option ℕ) (owned : Bool) (files : List ℕ)
    → files ≡ owned_files fp owned
    → after_close fp owned files ≡ []
nothing_left none true files e = e
nothing_left none false files e = e
nothing_left (some fp) false files e = e
nothing_left (some fp) true files e = rw e (without-head fp [])

one_left :
    (fp : Option ℕ) (owned : Bool) (new : ℕ) (files : List ℕ)
    → files ≡ owned_files fp owned
    → ((old : ℕ) → files ≡ old ∷ [] → new ≢ old)
    → after_close fp owned (new ∷ files) ≡ new ∷ []
one_left none true new files e f = rw e
one_left none false new files e f = rw e
one_left (some fp) false new files e f = rw e
one_left (some fp) true new files e f = rw e (without-next fp new (f fp e))

sink-IsTidy :
    (fp : Option ℕ) (file : Option (List ℕ)) (s : LogState)
    → IsTidy s
    → IsTidy (slog_set_sink fp file false s)
unfolding slog_set_sink slog_set_sink_fp slog_set_sink_file slog_set_sink_owned
sink-IsTidy none file s v = record {
  files = nothing_left s.fp s.owned s.open_files v.files;
  in_range = v.in_range;
}
sink-IsTidy (some fp) file s v = record {
  files = nothing_left s.fp s.owned s.open_files v.files;
  in_range = v.in_range;
}

opened-IsTidy :
    (fopen : List ℕ → List ℕ → Option ℕ) (name : List ℕ) (s : LogState) (o : Option ℕ)
    → IsFresh fopen
    → IsTidy s
    → fopen s.open_files name ≡ o
    → IsTidy (with_opened name s o).1
unfolding with_opened slog_set_sink slog_set_sink_fp slog_set_sink_file slog_set_sink_owned
opened-IsTidy fopen name s none fresh v e = v
opened-IsTidy fopen name s (some fp) fresh v e = record {
  files =
      one_left s.fp s.owned fp s.open_files v.files
        (λ old k. fresh old fp name (ap (λ files. fopen files name) (sym k) ∙ e));
  in_range = v.in_range;
}

set_file-IsTidy :
    (fopen : List ℕ → List ℕ → Option ℕ) (name : Option (List ℕ)) (s : LogState)
    → IsFresh fopen
    → IsTidy s
    → IsTidy (simple_log_set_log_file fopen name s).1
unfolding simple_log_set_log_file
set_file-IsTidy fopen none s fresh v = v
set_file-IsTidy fopen (some name) s fresh v = elim (Bool-cases (bytes_eq name stdout_name)) [
  | inl out ↦ rw out (sink-IsTidy (some stdout) (some name) s v)
  | inr no_out ↦ elim (Bool-cases (bytes_eq name stderr_name)) [
    | inl err ↦ rw (no_out, err) (sink-IsTidy (some stderr) (some name) s v)
    | inr no_err ↦
        rw (no_out, no_err) (opened-IsTidy fopen name s (fopen s.open_files name) fresh v refl)
  ]
]

exec-IsTidy :
    (fopen : List ℕ → List ℕ → Option ℕ) (c : Cmd) (s : LogState)
    → IsFresh fopen
    → IsTidy s
    → IsTidy (exec fopen c s)
unfolding exec set_log_level simple_log_set_log_os
exec-IsTidy fopen (set_level level) s fresh v = ground (arith, v.files, v.in_range)
exec-IsTidy fopen (set_os os) s fresh v = sink-IsTidy os none s v
exec-IsTidy fopen (set_file name) s fresh v = set_file-IsTidy fopen name s fresh v

-- From a tidy state, and where `fopen` gives streams that are not open, whatever calls are made in
-- whatever order: the log has at most one file open, the one that it writes to if it opened that
-- itself, and its level is one of the six levels.
pub run-IsTidy :
    (fopen : List ℕ → List ℕ → Option ℕ) (cs : List Cmd) (s : LogState)
    → IsFresh fopen
    → IsTidy s
    → IsTidy (run fopen cs s)
unfolding run
run-IsTidy fopen [] s fresh v = v
run-IsTidy fopen (c ∷ cs) s fresh v =
    run-IsTidy fopen cs (exec fopen c s) fresh (exec-IsTidy fopen c s fresh v)
