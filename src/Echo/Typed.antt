-- ===== src/Echo/Typed.antt =====
-- What src/echo-client.c sends of the lines that are typed, and prints of the answers.
use socketlab.Base.{
  concat, append-nil, append_assoc, leb, bytes_eq, ℕ, zero, suc, ◌-◌, ◌<◌, ◌≡◌, ◌≢◌, refl, sym, ap,
  ◌∙◌, List, [], ◌∷◌, ◌++◌, some, true, false, arith, map, length, length-append, take, take_all,
  take-append, All, All-append, ◌==◌, ◌⊎◌, inl, inr, htons, u16,
}
use socketlab.Base.Int.{ℤ, pos, is_minus_one}
use socketlab.Sys.{Call, socket, connect, inet_addr, fgets, read, write, close, inet, Env, done}
use socketlab.Ft.Buffer.{c_string-name}
use socketlab.Net.SockIf.{af_inet}
use socketlab.Net.Common.{sock_stream}
use socketlab.Echo.All.{written}
use socketlab.Echo.Client.{
  client_loop, client_main, typed, without_last, is_quit, is_empty_line, address_text,
}

pub record Exchange : Type 0 where
  pub text : List ℕ
  pub answer : List ℕ

-- A line that is sent: not empty, not "q" or "Q", and without a zero.
abbrev pub IsLine : List ℕ → Type 0
IsLine text = (0 < length text) × All (λ b. b ≢ 0) text × (is_quit text ≡ false)

-- The input ends, or the line "q" is typed.
abbrev Leaves : Env → List Call → Type 0
Leaves env t =
    ((env t (fgets 1024)).ret ≡ pos 0)
    ⊎ (((env t (fgets 1024)).ret ≡ pos 1) × ((env t (fgets 1024)).out ≡ 113 ∷ 10 ∷ []))

-- After the calls `t`, these lines are typed, each is answered, and the user leaves. An answer has no
-- zero, and leaves room for one in the buffer.
abbrev pub Exchanges : Env → ℤ → List Exchange → List Call → Type 0
Exchanges env sock [] t = Leaves env t
Exchanges env sock (e ∷ es) t =
    ((env t (fgets 1024)).ret ≡ pos 1)
    × ((env t (fgets 1024)).out ≡ e.text ++ (10 ∷ []))
    × IsLine e.text
    × ((env (write sock e.text ∷ fgets 1024 ∷ t) (read sock 1024)).ret ≡ pos (length e.answer))
    × ((env (write sock e.text ∷ fgets 1024 ∷ t) (read sock 1024)).out ≡ e.answer)
    × (length e.answer < 1024)
    × All (λ b. b ≢ 0) e.answer
    × Exchanges env sock es (read sock 1024 ∷ write sock e.text ∷ fgets 1024 ∷ t)

-- The calls, latest first.
abbrev pub exchanging : ℤ → List Exchange → List Call → List Call
exchanging sock [] t = fgets 1024 ∷ t
exchanging sock (e ∷ es) t =
    exchanging sock es (read sock 1024 ∷ write sock e.text ∷ fgets 1024 ∷ t)

module _ (text : List ℕ) (h : IsLine text) where
  pub line_size : length (text ++ (10 ∷ [])) ≡ suc (length text)
  line_size = omega (arith, length-append text (10 ∷ []))

  typed_line : typed (text ++ (10 ∷ [])) ≡ text ++ (10 ∷ [])
  typed_line =
      c_string-name (text ++ (10 ∷ []))
        (All-append (λ b. b ≢ 0) text (10 ∷ []) h.1 ((λ e. absurd (omega arith)), tt))

  not_nothing : (length (text ++ (10 ∷ [])) == 0) ≡ false
  not_nothing = ground (arith, line_size)

  pub not_empty : is_empty_line (text ++ (10 ∷ [])) ≡ false
  not_empty = ground (arith, line_size, h.0)

  sent_text : without_last (text ++ (10 ∷ [])) ≡ text
  sent_text = ap (λ n. take n (text ++ (10 ∷ []))) size ∙ take-append text (10 ∷ [])
    where
      size : length (text ++ (10 ∷ [])) - 1 ≡ length text
      size = omega (arith, line_size)

client_loop_ends :
    (turns : ℕ) (sock : ℤ) (env : Env) (t : List Call)
    → Leaves env t
    → client_loop (suc turns) sock env t ≡ (done (some []), fgets 1024 ∷ t)
unfolding client_loop bytes_eq
client_loop_ends turns sock env t (inl ended) = rw ended refl
client_loop_ends turns sock env t (inr (ret, out)) = rw (ret, out) refl

client_loop_talks :
    (turns : ℕ) (sock : ℤ) (es : List Exchange) (env : Env) (t : List Call)
    → Exchanges env sock es t
    → length es < turns
    → client_loop turns sock env t ≡ (done (some (map (λ e. e.answer) es)), exchanging sock es t)
unfolding client_loop
client_loop_talks zero sock es env t h enough = absurd (omega arith)
client_loop_talks (suc turns) sock [] env t h enough = client_loop_ends turns sock env t h
client_loop_talks (suc turns) sock (e ∷ es) env t (ret, out, v, got, answer, fits, clean, rest)
      enough =
    rw
      (
        ret,
        out,
        typed_line e.text v,
        not_nothing e.text v,
        not_empty e.text v,
        sent_text e.text v,
        v.2,
        got,
        answer,
        stored,
        client_loop_talks turns sock es env (read sock 1024 ∷ write sock e.text ∷ fgets 1024 ∷ t)
            rest (omega arith),
        take_all (length e.answer) e.answer (omega arith),
        c_string-name e.answer clean,
      )
      refl
  where
    stored : leb (suc (length e.answer)) 1024 ≡ true
    stored = ground arith

written-exchanging :
    (sock : ℕ) (es : List Exchange) (t : List Call)
    → written (pos sock) (exchanging (pos sock) es t)
      ≡ written (pos sock) t ++ concat (map (λ e. e.text) es)
unfolding written
written-exchanging sock [] t = sym (append-nil (written (pos sock) t))
written-exchanging sock (e ∷ es) t =
    written-exchanging sock es (read (pos sock) 1024 ∷ write (pos sock) e.text ∷ fgets 1024 ∷ t)
    ∙ ap (λ s. s ++ concat (map (λ e. e.text) es)) (ground arith)
    ∙ append_assoc (written (pos sock) t) e.text (concat (map (λ e. e.text) es))

-- The socket, the address and the connection.
abbrev pub connecting : ℤ → List ℕ → (port s_addr : ℕ) → List Call → List Call
connecting sock ip port s_addr t =
    connect sock (inet af_inet (htons (u16 port)) s_addr)
    ∷ inet_addr (address_text ip)
    ∷ socket af_inet sock_stream 0
    ∷ t

abbrev pub Connects : Env → ℤ → List ℕ → (port s_addr : ℕ) → List Call → Type 0
Connects env sock ip port s_addr t =
    ((env t (socket af_inet sock_stream 0)).ret ≡ sock)
    × (is_minus_one sock ≡ false)
    × ((env (socket af_inet sock_stream 0 ∷ t) (inet_addr (address_text ip))).ret ≡ pos s_addr)
    × (is_minus_one
          (env (inet_addr (address_text ip) ∷ socket af_inet sock_stream 0 ∷ t)
            (connect sock (inet af_inet (htons (u16 port)) s_addr))).ret
        ≡ false)

-- When the connection succeeds, lines are typed and each is answered, and then "q" is typed or the
-- input ends, echo-client ends (with a turn of its loop for each line and one more). It has sent the
-- lines without their ends, in order, has printed the answers, and has closed the socket. A line is
-- not empty, and it and its answer have no zero; an answer has fewer than 1024 bytes.
pub client_main_talks :
    (turns sock port s_addr : ℕ) (ip : List ℕ) (es : List Exchange) (env : Env) (t : List Call)
    → Connects env (pos sock) ip port s_addr t
    → Exchanges env (pos sock) es (connecting (pos sock) ip port s_addr t)
    → length es < turns
    → let calls =
        close (pos sock) ∷ exchanging (pos sock) es (connecting (pos sock) ip port s_addr t) in
      (client_main turns ip port env t ≡ (done (some (map (λ e. e.answer) es)), calls))
      × (written (pos sock) calls ≡ written (pos sock) t ++ concat (map (λ e. e.text) es))
unfolding client_main written
client_main_talks turns sock port s_addr ip es env t (opened, good, found, connected) h enough = (
  rw
      (
        opened,
        found,
        connected,
        client_loop_talks turns (pos sock) es env (connecting (pos sock) ip port s_addr t) h enough,
      )
      refl,
  written-exchanging sock es (connecting (pos sock) ip port s_addr t),
)
