-- ===== src/Sys/Files.antt =====
-- The sockets that are open after a run of calls: which descriptors were returned and not closed.
use mathlib.Core.Path.{subst}
use socketlab.Base.{List, [], ◌∷◌, Bool, true, false, ◌==◌, ◌≡◌, if◌then◌else◌}
use socketlab.Base.Int.{ℤ, pos, negsuc}
use socketlab.Sys.{
  Call, socket, close, accept, Env, Sys, Outcome, done, exited, faulted, then_do, IsPosix, ◌>>=◌,
  when◌run◌otherwise◌,
}

abbrev pub same_fd : ℤ → ℤ → Bool
same_fd (pos m) (pos n) = m == n
same_fd (negsuc m) (negsuc n) = m == n
same_fd _ _ = false

-- A descriptor that is returned, where it is none of the error values.
abbrev pub opened : ℤ → List ℤ → List ℤ
opened (pos n) fds = pos n ∷ fds
opened (negsuc n) fds = fds

abbrev pub closed : ℤ → List ℤ → List ℤ
closed fd [] = []
closed fd (x ∷ fds) = if same_fd fd x then fds else x ∷ closed fd fds

abbrev pub after_call : Env → List Call → Call → List ℤ → List ℤ
after_call env t (socket af type protocol) fds = opened (env t (socket af type protocol)).ret fds
after_call env t (accept fd) fds = opened (env t (accept fd)).ret fds
after_call env t (close fd) fds = closed fd fds
after_call env t c fds = fds

unfoldable pub open_fds : Env → List Call → List ℤ
open_fds env [] = []
open_fds env (c ∷ t) = after_call env t c (open_fds env t)

-- The result of a run that returns (does not `exit`) and has the sockets `fds` open.
abbrev pub HasOpen : {A : Type 0} → Env → List ℤ → Outcome A × List Call → Type 0
HasOpen env fds (done a, u) = open_fds env u ≡ fds
HasOpen env fds (exited s, u) = ⊥
HasOpen env fds (faulted, u) = ⊥

-- A run returns, and leaves the same sockets open as it found.
abbrev pub KeepsOpen : {A : Type 0} → Sys A → Type 0
KeepsOpen m = (env : Env) (t : List Call) → IsPosix env → HasOpen env (open_fds env t) (m env t)

pub then_do-HasOpen :
    {A B : Type 0} (env : Env) (fds fds' : List ℤ) (r : Outcome A × List Call) (f : A → Sys B)
    → HasOpen env fds r
    → ((a : A) (u : List Call) → open_fds env u ≡ fds → HasOpen env fds' (f a env u))
    → HasOpen env fds' (then_do r f env)
then_do-HasOpen env fds fds' (done a, u) f h k = k a u h
then_do-HasOpen env fds fds' (exited s, u) f h k = absurd h
then_do-HasOpen env fds fds' (faulted, u) f h k = absurd h

pub >>=-KeepsOpen :
    {A B : Type 0} (m : Sys A) (f : A → Sys B)
    → KeepsOpen m
    → ((a : A) → KeepsOpen (f a))
    → KeepsOpen (m >>= f)
>>=-KeepsOpen m f h k env t posix =
    then_do-HasOpen env (open_fds env t) (open_fds env t) (m env t) f (h env t posix)
      (λ a u e. subst (λ fds. HasOpen env fds (f a env u)) e (k a env u posix))

pub when-KeepsOpen :
    {A : Type 0} (b : Bool) (m k : Sys A)
    → KeepsOpen m
    → KeepsOpen k
    → KeepsOpen (when b run m otherwise k)
when-KeepsOpen true m k hm hk = hm
when-KeepsOpen false m k hm hk = hk
