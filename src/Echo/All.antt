-- ===== src/Echo/All.antt =====
-- A client of an echo server gets all that it sends back.
use socketlab.Base.{
  concat, ℕ, zero, suc, ◌<◌, ◌≡◌, refl, sym, ap, ◌∙◌, List, [], ◌∷◌, ◌++◌, some, false, arith,
  append_assoc, append-nil, if◌then◌else◌, length, take_all, ◌==◌,
}
use socketlab.Base.Int.{ℤ, pos}
use socketlab.Sys.{Call, read, write, close, Env, done}
use socketlab.Sys.Files.{same_fd}
use socketlab.Echo.{echo_client, echo_child}

-- What the calls of a run (latest first) have written, in order.
unfoldable pub written : ℤ → List Call → List ℕ
written fd [] = []
written fd (write f bytes ∷ t) = if same_fd f fd then written fd t ++ bytes else written fd t
written fd (c ∷ t) = written fd t

-- The calls for a client that sends these blocks and leaves.
abbrev pub echoing : ℤ → List (List ℕ) → List Call → List Call
echoing fd [] t = read fd 1024 ∷ t
echoing fd (b ∷ bs) t = echoing fd bs (write fd b ∷ read fd 1024 ∷ t)

-- After the calls `t`, the client sends the blocks, none of them empty, and closes the connection.
abbrev Talks : Env → ℤ → List (List ℕ) → List Call → Type 0
Talks env fd [] t = (env t (read fd 1024)).ret ≡ pos 0
Talks env fd (b ∷ bs) t =
    (0 < length b)
    × ((env t (read fd 1024)).ret ≡ pos (length b))
    × ((env t (read fd 1024)).out ≡ b)
    × Talks env fd bs (write fd b ∷ read fd 1024 ∷ t)

written-echoing :
    (fd : ℕ) (blocks : List (List ℕ)) (t : List Call)
    → written (pos fd) (echoing (pos fd) blocks t) ≡ written (pos fd) t ++ concat blocks
unfolding written
written-echoing fd [] t = sym (append-nil (written (pos fd) t))
written-echoing fd (b ∷ bs) t =
    written-echoing fd bs (write (pos fd) b ∷ read (pos fd) 1024 ∷ t)
    ∙ ap (λ s. s ++ concat bs) (ground arith)
    ∙ append_assoc (written (pos fd) t) b (concat bs)

echo_client-echoing :
    (turns : ℕ) (fd : ℤ) (blocks : List (List ℕ)) (env : Env) (t : List Call)
    → Talks env fd blocks t
    → length blocks < turns
    → echo_client turns fd env t ≡ (done (some tt), echoing fd blocks t)
unfolding echo_client
echo_client-echoing zero fd blocks env t r h = absurd (omega arith)
echo_client-echoing (suc turns) fd [] env t r h = rw r refl
echo_client-echoing (suc turns) fd (b ∷ bs) env t (positive, ret, out, rest) h =
    rw (ret, nonzero, out, take_all (length b) b (omega arith))
      (echo_client-echoing turns fd bs env (write fd b ∷ read fd 1024 ∷ t) rest (omega arith))
  where
    nonzero : (length b == 0) ≡ false
    nonzero = ground arith

-- When a client sends blocks of bytes, none of them empty, and closes its side, the child of the server
-- that serves it ends (with a turn of its loop for each block and one more). It has then written back
-- every byte, once and in order, and closed the connection.
pub echo_child-all :
    (turns fd : ℕ) (serv_sock : ℤ) (blocks : List (List ℕ)) (env : Env) (t : List Call)
    → Talks env (pos fd) blocks (close serv_sock ∷ t)
    → length blocks < turns
    → let calls = close (pos fd) ∷ echoing (pos fd) blocks (close serv_sock ∷ t) in
      (echo_child turns serv_sock (pos fd) env t ≡ (done (some tt), calls))
      × (written (pos fd) calls ≡ written (pos fd) t ++ concat blocks)
unfolding echo_child written
echo_child-all turns fd serv_sock blocks env t r h = (
  rw (echo_client-echoing turns (pos fd) blocks env (close serv_sock ∷ t) r h) refl,
  written-echoing fd blocks (close serv_sock ∷ t),
)
