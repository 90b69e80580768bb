-- ===== src/Calc/Tests.antt =====
-- The calculator at concrete inputs.
use socketlab.Base.{ℕ, ◌≡◌, refl, List, [], ◌∷◌, some, arith, length, le32}
use socketlab.Base.Int.{pos}
use socketlab.Sys.{
  Call, Reply, socket, connect, inet_addr, scanf_int, scanf_char, accept, read, write, close, Env,
  done,
}
use socketlab.Calc.{calc, add, multi, message, ints_bytes}
use socketlab.Echo.Typed.{connecting}
use socketlab.Echo.Udp.{loopback}
use socketlab.Calc.Client.{op_client}
use socketlab.Calc.Asks.{scanning, asking, op_client-asks}
use socketlab.Calc.Server.{serve_client, serve_client-answers}

-- 2 * 3 comes out as 12.
multi_run : calc 0 (2 ∷ 3 ∷ []) 42 ≡ some 12
unfolding calc multi
multi_run = refl

-- The numbers 7 and 300 and a plus, in three parts.
abbrev parts : List (List ℕ)
parts = (7 ∷ 0 ∷ []) ∷ (0 ∷ 0 ∷ 44 ∷ 1 ∷ 0 ∷ []) ∷ (0 ∷ 43 ∷ []) ∷ []

message_run : message (7 ∷ 300 ∷ []) 43 ≡ 2 ∷ 7 ∷ 0 ∷ 0 ∷ 0 ∷ 44 ∷ 1 ∷ 0 ∷ 0 ∷ 43 ∷ []
unfolding message ints_bytes
message_run = refl

abbrev reply : List ℕ → Reply
reply out = record { ret = pos (length out); out = out; errno = 0 }

-- The first byte, and then the parts, by the number of calls that were made before.
abbrev client : Env
client t (accept fd) = record { ret = pos 5; out = []; errno = 0 }
client (accept fd ∷ t) (read f n) = reply (2 ∷ [])
client (read f1 n1 ∷ accept fd ∷ t) (read f n) = reply (7 ∷ 0 ∷ [])
client (read f2 n2 ∷ read f1 n1 ∷ accept fd ∷ t) (read f n) = reply (0 ∷ 0 ∷ 44 ∷ 1 ∷ 0 ∷ [])
client t c = reply (0 ∷ 43 ∷ [])

sum_run : calc 0 (7 ∷ 300 ∷ []) 43 ≡ some 307
unfolding calc add
sum_run = refl

serve_client-answers_example :
    (u : List Call) × (serve_client 3 0 (pos 4) client []
      ≡ (done (some tt), close (pos 5) ∷ write (pos 5) (le32 307) ∷ u))
serve_client-answers_example =
    serve_client-answers 3 0 43 2 307 (pos 4) (pos 5) (7 ∷ 300 ∷ []) parts client [] (omega arith)
      (omega arith) (omega arith) message_run sum_run refl refl refl
      (refl, refl, (refl, refl, (refl, refl, tt))) (omega arith)

-- 2, 7, 300 and "+" are typed, and the server answers 307.
abbrev asker : Env
asker (connect s a ∷ t) scanf_int = record { ret = pos 1; out = le32 2; errno = 0 }
asker (scanf_int ∷ connect s a ∷ t) scanf_int = record { ret = pos 1; out = le32 7; errno = 0 }
asker t scanf_int = record { ret = pos 1; out = le32 300; errno = 0 }
asker t scanf_char = record { ret = pos 1; out = 43 ∷ []; errno = 0 }
asker t (read s n) = reply (le32 307)
asker t (socket af type protocol) = record { ret = pos 3; out = []; errno = 0 }
asker t (inet_addr text) = record { ret = pos 0x0100007f; out = []; errno = 0 }
asker t c = reply []

op_client-asks_example : op_client [] [] (0 ∷ []) loopback 9000 asker [] ≡ (
  done 307,
  asking
      (pos 3)
      (7 ∷ 300 ∷ [])
      43
      (scanning (2 ∷ 7 ∷ 300 ∷ []) (connecting (pos 3) loopback 9000 0x0100007f [])),
)
op_client-asks_example =
    op_client-asks 3 9000 0x0100007f 43 307 (7 ∷ 300 ∷ []) [] [] loopback 0 [] asker []
      (refl, refl, refl, refl) (refl, refl, (refl, refl, (refl, refl, tt))) (refl, refl, refl, refl)
      (omega arith) (omega arith)
