-- ===== src/Sys/Ends.antt =====
-- Runs that return a value.
use socketlab.Base.{List, Bool, true, false, ◌≡◌, refl, if◌then◌else◌}
use socketlab.Base.Int.{ℤ}
use socketlab.Sys.{Call, Env, Sys, Outcome, done, exited, faulted, then_do}
use socketlab.Sys.Files.{HasOpen}

-- The run returned a value, and the value satisfies `P`.
abbrev pub Ends : {A : Type 0} → (A → Type 0) → Outcome A × List Call → Type 0
Ends P (done a, u) = P a
Ends P (exited s, u) = ⊥
Ends P (faulted, u) = ⊥

pub then_do-Ends :
    {A B : Type 0} (P : A → Type 0) (Q : B → Type 0) (env : Env) (r : Outcome A × List Call)
    (f : A → Sys B)
    → Ends P r
    → ((a : A) (u : List Call) → P a → Ends Q (f a env u))
    → Ends Q (then_do r f env)
then_do-Ends P Q env (done a, u) f h k = k a u h
then_do-Ends P Q env (exited s, u) f h k = absurd h
then_do-Ends P Q env (faulted, u) f h k = absurd h

pub if-Ends :
    {A : Type 0} (P : A → Type 0) (b : Bool) (r r' : Outcome A × List Call)
    → (b ≡ true → Ends P r)
    → (b ≡ false → Ends P r')
    → Ends P (if b then r else r')
if-Ends P true r r' h k = h refl
if-Ends P false r r' h k = k refl

pub HasOpen-Ends :
    {A : Type 0} (env : Env) (fds : List ℤ) (r : Outcome A × List Call)
    → HasOpen env fds r
    → Ends (λ a. Unit) r
HasOpen-Ends env fds (done a, u) h = tt
HasOpen-Ends env fds (exited s, u) h = absurd h
HasOpen-Ends env fds (faulted, u) h = absurd h
