-- ===== src/Ft/Sent.antt =====
-- The bytes that a program sends through a socket, and a file that is read in blocks.
use socketlab.Base.{
  ℕ, zero, suc, ◌<◌, ◌≡◌, refl, sym, ap, ◌∙◌, List, [], ◌∷◌, ◌++◌, some, false, arith, append_assoc,
  append-nil, if◌then◌else◌, length, take_all, ◌==◌, concat,
}
use socketlab.Base.Int.{ℤ, pos}
use socketlab.Sys.{Call, send, fread, Env, done}
use socketlab.Sys.Files.{same_fd}
use socketlab.Ft.{send_file, buf_size}

-- What the calls of a run (latest first) have sent, in order.
unfoldable pub sent : ℤ → List Call → List ℕ
sent fd [] = []
sent fd (send f bytes ∷ t) = if same_fd f fd then sent fd t ++ bytes else sent fd t
sent fd (c ∷ t) = sent fd t

-- The calls that read the blocks of a file and send each.
abbrev pub sending : ℤ → ℤ → List (List ℕ) → List Call → List Call
sending fd fp [] t = fread fp buf_size ∷ t
sending fd fp (b ∷ bs) t = sending fd fp bs (send fd b ∷ fread fp buf_size ∷ t)

-- After the calls `t`, the file gives the blocks, none of them empty, and then is at its end.
abbrev pub Reads : Env → ℤ → ℤ → List (List ℕ) → List Call → Type 0
Reads env fd fp [] t = (env t (fread fp buf_size)).ret ≡ pos 0
Reads env fd fp (b ∷ bs) t =
    (0 < length b)
    × ((env t (fread fp buf_size)).ret ≡ pos (length b))
    × ((env t (fread fp buf_size)).out ≡ b)
    × Reads env fd fp bs (send fd b ∷ fread fp buf_size ∷ t)

pub sent-sending :
    (fd : ℕ) (fp : ℤ) (blocks : List (List ℕ)) (t : List Call)
    → sent (pos fd) (sending (pos fd) fp blocks t) ≡ sent (pos fd) t ++ concat blocks
unfolding sent
sent-sending fd fp [] t = sym (append-nil (sent (pos fd) t))
sent-sending fd fp (b ∷ bs) t =
    sent-sending fd fp bs (send (pos fd) b ∷ fread fp buf_size ∷ t)
    ∙ ap (λ s. s ++ concat bs) (ground arith)
    ∙ append_assoc (sent (pos fd) t) b (concat bs)

-- With a turn for each block and one more, the loop sends them all and ends.
pub send_file-lem :
    (fd fp : ℤ) (env : Env) (blocks : List (List ℕ)) (turns : ℕ) (t : List Call)
    → Reads env fd fp blocks t
    → length blocks < turns
    → send_file turns fd fp env t ≡ (done (some tt), sending fd fp blocks t)
unfolding send_file
send_file-lem fd fp env blocks zero t r h = absurd (omega arith)
send_file-lem fd fp env [] (suc turns) t r h = rw r refl
send_file-lem fd fp env (b ∷ bs) (suc turns) t (positive, ret, out, rest) h =
    rw (ret, nonzero, out, take_all (length b) b (omega arith))
      (send_file-lem fd fp env bs turns (send fd b ∷ fread fp buf_size ∷ t) rest (omega arith))
  where
    nonzero : (length b == 0) ≡ false
    nonzero = ground arith
