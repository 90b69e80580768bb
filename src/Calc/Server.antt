-- ===== src/Calc/Server.antt =====
-- The connections of src/op-server.c.
use socketlab.Base.{
  ℕ, zero, suc, ◌+◌, ◌-◌, ◌*◌, ◌≤◌, ◌<◌, ◌^◌, ◌≡◌, refl, ap, ◌∙◌, List, [], ◌∷◌, ◌++◌, Option, none,
  some, Bool-cases, Option-cases, some_inj, inl, inr, arith, ◌==◌, leb, if◌then◌else◌, length, take,
  take_all, get_or, le32, All, u16, htons, concat,
}
use socketlab.Base.Int.{ℤ, pos, is_neg, is_minus_one, to_nat}
use socketlab.Sys.{
  Sys, Call, socket, bind, listen, accept, read, write, close, inet, Env, done, pure, exit, fault,
  call, ◌>>=◌, ◌>>◌, when◌run◌otherwise◌,
}
use socketlab.Net.SockIf.{af_inet}
use socketlab.Net.Common.{sock_stream}
use socketlab.Calc.{calc, ints_at, receive, message, serve, buf_size}
use socketlab.Calc.Message.{NonEmpty, serve-message}

-- The loop that reads the rest of a message, watched for a number of turns: `none` says that it goes on. A
-- `read` that fails takes one from the count of bytes, which ends the loop if that was 0; `opmsg` is then
-- read before its beginning.
unfoldable pub receive_from : ℕ → ℤ → ℕ → List ℕ → Sys (Option (List ℕ))
receive_from zero fd need got = pure (if leb need (length got) then some got else none)
receive_from (suc turns) fd need got = when leb need (length got) run pure (some got) otherwise (do
  r ← call (read fd (buf_size - 1))
  when is_neg r.ret
      run (when length got == 0
          run fault
          otherwise receive_from turns fd need (take (length got - 1) got))
      otherwise (when leb (length got + to_nat r.ret) buf_size
          run receive_from turns fd need (got ++ take (to_nat r.ret) r.out)
          otherwise fault))

-- The calculation, the answer and the end of a connection.
unfoldable pub answer_with : ℤ → Option ℕ → Sys (Option Unit)
answer_with fd none = fault
answer_with fd (some result) = do call (write fd (le32 result)); call (close fd); pure (some tt)

unfoldable pub calculate : ℕ → ℤ → ℕ → Option (List ℕ) → Sys (Option Unit)
calculate junk fd opnd_cnt none = pure none
calculate junk fd opnd_cnt (some opmsg) =
    answer_with fd (calc junk (ints_at opnd_cnt opmsg) (get_or opmsg (length opmsg - 1) 0))

-- A turn of the loop over the clients. Neither `accept` nor the first `read` is checked.
unfoldable pub serve_client : (turns junk : ℕ) → ℤ → Sys (Option Unit)
serve_client turns junk serv_sock = do
  c ← call (accept serv_sock)
  n ← call (read c.ret 1)
  let opnd_cnt = get_or (take (to_nat n.ret) n.out) 0 0
  opmsg ← receive_from turns c.ret (opnd_cnt * 4 + 1) []
  calculate junk c.ret opnd_cnt opmsg

unfoldable pub serve_clients : (turns junk n : ℕ) → ℤ → Sys (Option Unit)
serve_clients turns junk zero serv_sock = do call (close serv_sock); pure (some tt)
serve_clients turns junk (suc n) serv_sock = do
  over ← serve_client turns junk serv_sock
  elim over [ none ↦ pure none | some u ↦ serve_clients turns junk n serv_sock ]

-- `main`, for a port.
unfoldable pub op_server : (turns junk port : ℕ) → Sys (Option Unit)
op_server turns junk port = do
  s ← call (socket af_inet sock_stream 0)
  when is_minus_one s.ret run exit 1 otherwise (do
    b ← call (bind s.ret (inet af_inet (htons (u16 port)) 0))
    when is_minus_one b.ret run exit 1 otherwise (do
      l ← call (listen s.ret 5)
      when is_minus_one l.ret run exit 1 otherwise serve_clients turns junk 5 s.ret))

-- After the calls `t`, the connection delivers the parts as they are asked for.
abbrev pub Delivers : Env → ℤ → List (List ℕ) → List Call → Type 0
Delivers env fd [] t = Unit
Delivers env fd (c ∷ cs) t =
    ((env t (read fd (buf_size - 1))).ret ≡ pos (length c))
    × ((env t (read fd (buf_size - 1))).out ≡ c)
    × Delivers env fd cs (read fd (buf_size - 1) ∷ t)

receive_from-receive :
    (turns : ℕ) (fd : ℤ) (need : ℕ) (got m : List ℕ) (chunks : List (List ℕ)) (env : Env)
    (t : List Call)
    → Delivers env fd chunks t
    → length chunks ≤ turns
    → receive need got chunks ≡ some m
    → (u : List Call) × (receive_from turns fd need got env t ≡ (done (some m), u))
unfolding receive_from receive
receive_from-receive zero fd need got m [] env t d h e = (t, ap (λ o. (done o, t)) e)
receive_from-receive zero fd need got m (c ∷ cs) env t d h e = absurd (omega arith)
receive_from-receive (suc turns) fd need got m [] env t d h e =
    elim (Bool-cases (leb need (length got))) [
      | inl b ↦ (t, rw (b, some_inj (rw b at e)) refl)
      | inr b ↦ absurd (ground arith)
    ]
receive_from-receive (suc turns) fd need got m (c ∷ cs) env t (ret, out, d) h e =
    elim (Bool-cases (leb need (length got))) [
      | inl b ↦ (t, rw (b, some_inj (rw b at e)) refl)
      | inr b ↦ elim (Bool-cases (leb (length got + length c) buf_size)) [
        | inl f ↦
            (let (u, r) =
                receive_from-receive turns fd need (got ++ c) m cs env (read fd (buf_size - 1) ∷ t)
                  d (omega arith) (rw (b, f) at e) in
              (u, rw (b, ret, out, f, take_all (length c) c (omega arith)) r))
        | inr f ↦ absurd (ground arith)
      ]
    ]

answer-calc :
    (turns junk count v : ℕ) (fd : ℤ) (chunks : List (List ℕ)) (env : Env) (t : List Call)
    → Delivers env fd chunks t
    → length chunks ≤ turns
    → serve junk count chunks ≡ some v
    → (u : List Call) × ((do
      opmsg ← receive_from turns fd (count * 4 + 1) []
      calculate junk fd count opmsg)
          env t
        ≡ (done (some tt), close fd ∷ write fd (le32 v) ∷ u))
unfolding serve calculate answer_with
answer-calc turns junk count v fd chunks env t d h e =
    elim (Option-cases (receive (count * 4 + 1) [] chunks)) [
      | inl r ↦ absurd (none≢some (rw (serve, r) at e))
      | inr (m, r) ↦
          (let (u, run_of) =
              receive_from-receive turns fd (count * 4 + 1) [] m chunks env t d h r in
            (u, rw (run_of, rw (serve, r) at e) refl))
    ]
  where
    none≢some : {A : Type 0} {a : A} → none ≡ some a → ⊥
    none≢some z = ground arith

-- A client's message, with at most 255 numbers and an operator for which the calculator has a result `v`,
-- reaches the server: its first byte, and then the rest in any parts that are not empty, as the server
-- asks for them. Then the turn for this client ends (with a turn of the reading loop for each part): the
-- last calls of the server send the four bytes of `v`, the result for the numbers of the client, and
-- close the connection.
pub serve_client-answers :
    (turns junk op count v : ℕ) (serv_sock fd : ℤ) (nums : List ℕ) (chunks : List (List ℕ))
    (env : Env) (t : List Call)
    → length nums < 256
    → All (λ x. x < 2 ^ 32) nums
    → NonEmpty chunks
    → message nums op ≡ count ∷ concat chunks
    → calc junk nums op ≡ some v
    → (env t (accept serv_sock)).ret ≡ fd
    → (env (accept serv_sock ∷ t) (read fd 1)).ret ≡ pos 1
    → (env (accept serv_sock ∷ t) (read fd 1)).out ≡ count ∷ []
    → Delivers env fd chunks (read fd 1 ∷ accept serv_sock ∷ t)
    → length chunks ≤ turns
    → (u : List Call) × (serve_client turns junk serv_sock env t
        ≡ (done (some tt), close fd ∷ write fd (le32 v) ∷ u))
unfolding serve_client
serve_client-answers turns junk op count v serv_sock fd nums chunks env t n small c e result acc ret
      out d h =
    let (u, r) =
      answer-calc turns junk count v fd chunks env (read fd 1 ∷ accept serv_sock ∷ t) d h
        (serve-message junk op count nums chunks n small c e ∙ result) in
    (u, rw (acc, ret, out) r)
