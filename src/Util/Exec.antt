-- ===== src/Util/Exec.antt =====
-- `os_exec` of include/util.c: a program run in a child process, and its status.
use socketlab.Base.{
  ℕ, zero, suc, ◌≤◌, ◌<◌, ◌≡◌, refl, List, ◌∷◌, Option, none, some, true, false, ◌==◌, ltb, arith,
  length,
}
use socketlab.Base.Int.{ℤ, pos, is_zero, is_neg, is_minus_one}
use socketlab.Sys.{
  Sys, Call, fork, execvp, waitpid, Env, done, exited, pure, exit, call, ◌>>=◌, when◌run◌otherwise◌,
}
use socketlab.Netpackets.Ipv4.{long_at}

-- EINTR
abbrev pub eintr : ℕ
eintr = 4

-- A status as its 32-bit pattern; this is -1.
abbrev pub failed : ℕ
failed = 0xffffffff

-- The loop over `waitpid`, watched for a number of turns: `none` says that it goes on.
unfoldable pub wait_for : ℕ → ℤ → Sys (Option ℕ)
wait_for zero pid = pure none
wait_for (suc turns) pid = do
  r ← call (waitpid pid)
  when is_minus_one r.ret
      run (when r.errno == eintr run pure (some failed) otherwise wait_for turns pid)
      otherwise pure (some (long_at r.out))

-- The arguments behind `cmd`, up to the null pointer: `args[16]` has room for 15 of them, and the loop
-- must see the null pointer before it ends.
unfoldable pub os_exec : ℕ → List ℕ → List (List ℕ) → Sys (Option ℕ)
os_exec turns cmd args = when ltb 14 (length args) run pure (some failed) otherwise (do
  f ← call fork
  when is_zero f.ret
      run (do
        e ← call (execvp cmd (cmd ∷ args))
        when is_minus_one e.ret run exit 127 otherwise pure (some 0))
      otherwise (when is_neg f.ret run pure (some failed) otherwise wait_for turns f.ret))

-- The calls of a wait that fails `n` times.
abbrev pub waiting : ℤ → ℕ → List Call → List Call
waiting pid zero t = waitpid pid ∷ t
waiting pid (suc n) t = waiting pid n (waitpid pid ∷ t)

-- `waitpid` fails `n` times, not for a signal, and then brings this status.
abbrev pub Waits : Env → ℤ → ℕ → List ℕ → List Call → Type 0
Waits env pid zero out t =
    (is_minus_one (env t (waitpid pid)).ret ≡ false) × ((env t (waitpid pid)).out ≡ out)
Waits env pid (suc n) out t =
    (is_minus_one (env t (waitpid pid)).ret ≡ true)
    × (((env t (waitpid pid)).errno == eintr) ≡ false)
    × Waits env pid n out (waitpid pid ∷ t)

wait_for-status :
    (turns n : ℕ) (pid : ℤ) (out : List ℕ) (env : Env) (t : List Call)
    → Waits env pid n out t
    → n < turns
    → wait_for turns pid env t ≡ (done (some (long_at out)), waiting pid n t)
unfolding wait_for
wait_for-status zero n pid out env t h enough = absurd (omega arith)
wait_for-status (suc turns) zero pid out env t (good, status) enough = rw (good, status) refl
wait_for-status (suc turns) (suc n) pid out env t (bad, reason, h) enough =
    rw (bad, reason) (wait_for-status turns n pid out env (waitpid pid ∷ t) h (omega arith))

-- With at most 14 arguments `os_exec` makes one child. The child runs the command with its own name
-- and all the arguments, and ends with 127 if that fails. The parent returns the child's status, also
-- when `waitpid` has failed before, for a reason other than a signal (EINTR), with a turn for each time
-- and one more.
pub os_exec-runs :
    (turns n child : ℕ) (cmd : List ℕ) (args : List (List ℕ)) (out : List ℕ) (env env' : Env)
    (t : List Call)
    → length args ≤ 14
    → 0 < child
    → (env t fork).ret ≡ pos child
    → Waits env (pos child) n out (fork ∷ t)
    → n < turns
    → (env' t fork).ret ≡ pos 0
    → is_minus_one (env' (fork ∷ t) (execvp cmd (cmd ∷ args))).ret ≡ true
    → (os_exec turns cmd args env t ≡ (done (some (long_at out)), waiting (pos child) n (fork ∷ t)))
      × (os_exec turns cmd args env' t ≡ (exited 127, execvp cmd (cmd ∷ args) ∷ fork ∷ t))
unfolding os_exec
os_exec-runs turns n child cmd args out env env' t few parent forked waits enough forked' fails = (
  rw (fits, forked, not_child)
      (wait_for-status turns n (pos child) out env (fork ∷ t) waits enough),
  rw (fits, forked', fails) refl,
)
  where
    fits : ltb 14 (length args) ≡ false
    fits = ground arith

    not_child : is_zero (pos child) ≡ false
    not_child = ground arith
