-- ===== src/Echo/Udp/Lines.antt =====
-- What the client of src/uecho-client.c sends of the lines that are typed, and prints of the answers.
use socketlab.Base.{
  replicate, htons, ℕ, zero, suc, ◌+◌, ◌-◌, ◌≤◌, ◌<◌, ◌≡◌, ◌≢◌, refl, sym, ap, ap₂, ◌∙◌, List, [],
  ◌∷◌, ◌++◌, some, true, false, arith, map, leb, length, length-append, length-drop, append_assoc,
  take, drop, take_all, take-append, All, All-append, ◌==◌, set, bytes_eq,
}
use socketlab.Base.Int.{is_zero, ℤ, pos}
use socketlab.Sys.{
  Call, Addr, inet, socket, gethostbyname, close, fgets, sendto, recvfrom, Env, done, filled,
}
use socketlab.Ft.{c_string}
use socketlab.Ft.Buffer.{terminated, set-append}
use socketlab.Echo.Typed.{Exchange, IsLine, line_size, not_empty}
use socketlab.Net.SockIf.{af_inet}
use socketlab.Net.Common.{make_socket, make_sockaddr}
use socketlab.Echo.Udp.{sock_dgram, loopback, udp_client, udp_client_loop}

length-set : (xs : List ℕ) (i v : ℕ) → length (set xs i v) ≡ length xs
length-set [] i v = refl
length-set (x ∷ xs) zero v = refl
length-set (x ∷ xs) (suc i) v = ap suc (length-set xs i v)

c_string_ended : (xs rest : List ℕ) → All (λ b. b ≢ 0) xs → c_string (xs ++ (0 ∷ rest)) ≡ xs
c_string_ended [] rest h = refl
c_string_ended (x ∷ xs) rest h = ground (arith, c_string_ended xs rest h.1)

length-filled : (xs old : List ℕ) → length xs ≤ length old → length (filled xs old) ≡ length old
length-filled xs old h =
    omega (arith, length-append xs (drop (length xs) old), length-drop (length xs) old)

module _ (text msg : List ℕ) (h : IsLine text) where
  -- `msg` after `fgets`, and after its line end is overwritten; behind that, what was there.
  abbrev behind : List ℕ
  behind = drop (length ((text ++ (10 ∷ [])) ++ (0 ∷ []))) msg

  abbrev after_line : List ℕ
  after_line = filled ((text ++ (10 ∷ [])) ++ (0 ∷ [])) msg

  after_line_parts : after_line ≡ text ++ (10 ∷ 0 ∷ behind)
  after_line_parts =
      append_assoc (text ++ (10 ∷ [])) (0 ∷ []) behind ∙ append_assoc text (10 ∷ []) (0 ∷ behind)

  typed_line : c_string after_line ≡ text ++ (10 ∷ [])
  typed_line =
      ap c_string (append_assoc (text ++ (10 ∷ [])) (0 ∷ []) behind)
      ∙ c_string_ended (text ++ (10 ∷ [])) behind
          (All-append (λ b. b ≢ 0) text (10 ∷ []) h.1 ((λ e. absurd (omega arith)), tt))

  ended : set after_line (length (text ++ (10 ∷ [])) - 1) 0 ≡ text ++ (0 ∷ 0 ∷ behind)
  ended = ap₂ (λ m i. set m i 0) after_line_parts size ∙ set-append text (0 ∷ behind) 10 0
    where
      size : length (text ++ (10 ∷ [])) - 1 ≡ length text
      size = omega (arith, line_size text h)

  ended_text : c_string (set after_line (length (text ++ (10 ∷ [])) - 1) 0) ≡ text
  ended_text = ap c_string ended ∙ c_string_ended text (0 ∷ behind) h.1

  sent_text :
      take (length (text ++ (10 ∷ []))) (set after_line (length (text ++ (10 ∷ [])) - 1) 0)
      ≡ text ++ (0 ∷ [])
  sent_text =
      ap₂ take size (ended ∙ sym (append_assoc text (0 ∷ []) (0 ∷ behind)))
      ∙ take-append (text ++ (0 ∷ [])) (0 ∷ behind)
    where
      size : length (text ++ (10 ∷ [])) ≡ length (text ++ (0 ∷ []))
      size = omega (arith, length-append text (10 ∷ []), length-append text (0 ∷ []))

  after_line-length : length text + 2 ≤ length msg → length after_line ≡ length msg
  after_line-length fits =
      length-filled ((text ++ (10 ∷ [])) ++ (0 ∷ [])) msg
        (omega (arith, length-append (text ++ (10 ∷ [])) (0 ∷ []), length-append text (10 ∷ [])))

-- After the calls `t`, these lines are typed, each is answered, and then "q" is typed. A line, its end
-- and a zero fit `msg`.
abbrev pub Talks : Env → ℤ → Addr → List Exchange → List Call → Type 0
Talks env sock addr [] t =
    ((env t (fgets 64)).ret ≡ pos 1) × ((env t (fgets 64)).out ≡ 113 ∷ 10 ∷ [])
Talks env sock addr (e ∷ es) t =
    ((env t (fgets 64)).ret ≡ pos 1)
    × ((env t (fgets 64)).out ≡ e.text ++ (10 ∷ []))
    × IsLine e.text
    × (length e.text + 2 ≤ 64)
    × ((env (sendto sock (e.text ++ (0 ∷ [])) addr ∷ fgets 64 ∷ t) (recvfrom sock 64)).ret
        ≡ pos (length e.answer))
    × ((env (sendto sock (e.text ++ (0 ∷ [])) addr ∷ fgets 64 ∷ t) (recvfrom sock 64)).out
        ≡ e.answer)
    × (length e.answer < 64)
    × All (λ b. b ≢ 0) e.answer
    × Talks env sock addr es
        (recvfrom sock 64 ∷ sendto sock (e.text ++ (0 ∷ [])) addr ∷ fgets 64 ∷ t)

-- The calls, latest first: each line goes out with a zero in place of its end.
abbrev pub talking : ℤ → Addr → List Exchange → List Call → List Call
talking sock addr [] t = fgets 64 ∷ t
talking sock addr (e ∷ es) t =
    talking sock addr es (recvfrom sock 64 ∷ sendto sock (e.text ++ (0 ∷ [])) addr ∷ fgets 64 ∷ t)

udp_client_loop_ends :
    (turns : ℕ) (sock : ℤ) (addr : Addr) (msg : List ℕ) (env : Env) (t : List Call)
    → Talks env sock addr [] t
    → udp_client_loop (suc turns) sock addr msg env t ≡ (done (some []), fgets 64 ∷ t)
unfolding udp_client_loop bytes_eq
udp_client_loop_ends turns sock addr msg env t (ret, out) = rw (ret, out) refl

-- What `msg` holds after an answer.
module _ (answer msg : List ℕ) (fits : length answer < length msg)
    (clean : All (λ b. b ≢ 0) answer) where
  abbrev after_answer : List ℕ
  after_answer = set (filled answer msg) (length answer) 0

  answer_text : c_string after_answer ≡ answer
  answer_text =
      let (rest, e) = terminated answer msg fits in ap c_string e ∙ c_string_ended answer rest clean

  after_answer-length : length after_answer ≡ length msg
  after_answer-length =
      length-set (filled answer msg) (length answer) 0 ∙ length-filled answer msg (omega arith)

udp_client_loop_prints :
    (turns : ℕ) (sock : ℤ) (addr : Addr) (msg : List ℕ) (es : List Exchange) (env : Env)
    (t : List Call)
    → Talks env sock addr es t
    → length msg ≡ 64
    → length es < turns
    → udp_client_loop turns sock addr msg env t
      ≡ (done (some (map (λ e. e.answer) es)), talking sock addr es t)
unfolding udp_client_loop
udp_client_loop_prints zero sock addr msg es env t h size enough = absurd (omega arith)
udp_client_loop_prints (suc turns) sock addr msg [] env t h size enough =
    udp_client_loop_ends turns sock addr msg env t h
udp_client_loop_prints (suc turns) sock addr msg (e ∷ es) env t
      (ret, out, v, room, got, answer, fits, clean, rest) size enough =
    rw
      (
        ret,
        out,
        typed_line e.text msg v,
        not_nothing,
        not_empty e.text v,
        ended_text e.text msg v,
        v.2,
        sent_text e.text msg v,
        got,
        answer,
        stored,
        take_all (length e.answer) e.answer (omega arith),
        udp_client_loop_prints turns sock addr (after_answer e.answer msg2 short clean) es env
            (recvfrom sock 64 ∷ sendto sock (e.text ++ (0 ∷ [])) addr ∷ fgets 64 ∷ t) rest
            (after_answer-length e.answer msg2 short clean ∙ size2) (omega arith),
        answer_text e.answer msg2 short clean,
      )
      refl
  where
    msg2 : List ℕ
    msg2 = set (after_line e.text msg v) (length (e.text ++ (10 ∷ [])) - 1) 0

    not_nothing : (length (e.text ++ (10 ∷ [])) == 0) ≡ false
    not_nothing = ground (arith, line_size e.text v)

    stored : leb (suc (length e.answer)) 64 ≡ true
    stored = ground arith

    size2 : length msg2 ≡ 64
    size2 =
        length-set (after_line e.text msg v) (length (e.text ++ (10 ∷ [])) - 1) 0
        ∙ after_line-length e.text msg v (omega arith)
        ∙ size

    short : length e.answer < length msg2
    short = omega (arith, size2)

-- 127.0.0.1, port 9000
abbrev pub server_addr : Addr
server_addr = inet af_inet (htons 9000) 0x0100007f

-- When the socket can be opened and the lookup of 127.0.0.1 gives an entry with its four bytes, lines
-- are typed and each is answered, and then "q" is typed, uecho-client ends (with a turn of its loop for
-- each line and one more). It has sent each line, with a zero in place of its end, to
-- port 9000 of 127.0.0.1, has printed the answers, in order, and has closed the socket. A line is not
-- empty and has at most 62 bytes, an answer at most 63, and neither has a zero.
pub udp_client_prints :
    (turns sock : ℕ) (es : List Exchange) (env : Env) (t : List Call)
    → (env t (socket af_inet sock_dgram 0)).ret ≡ pos sock
    → is_zero (env (socket af_inet sock_dgram 0 ∷ t) (gethostbyname loopback)).ret ≡ false
    → (env (socket af_inet sock_dgram 0 ∷ t) (gethostbyname loopback)).out ≡ 127 ∷ 0 ∷ 0 ∷ 1 ∷ []
    → Talks env (pos sock) server_addr es (gethostbyname loopback ∷ socket af_inet sock_dgram 0 ∷ t)
    → length es < turns
    → udp_client turns env t ≡ (
      done (some (map (λ e. e.answer) es)),
      close (pos sock)
          ∷ talking
              (pos sock)
              server_addr
              es
              (gethostbyname loopback ∷ socket af_inet sock_dgram 0 ∷ t),
    )
unfolding udp_client make_socket make_sockaddr
udp_client_prints turns sock es env t opened found address h enough =
    rw
      (
        opened,
        found,
        address,
        udp_client_loop_prints turns (pos sock) server_addr (replicate 64 0) es env
            (gethostbyname loopback ∷ socket af_inet sock_dgram 0 ∷ t) h refl enough,
      )
      refl
