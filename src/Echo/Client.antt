-- ===== src/Echo/Client.antt =====
-- src/echo-client.c: a client of the echo servers, whose lines are typed. What `gets` and `read`
-- bring is bytes; the result of a run is what the client prints of the server's answers.
use socketlab.Base.{
  ℕ, zero, suc, ◌-◌, List, [], ◌∷◌, Option, none, some, Bool, false, ◌==◌, ◌&&◌, ◌||◌, leb,
  if◌then◌else◌, length, take, get_or, htons, u16, bytes_eq,
}
use mathlib.Core.Option
use socketlab.Base.Int.{ℤ, is_neg, is_minus_one, is_zero, to_nat}
use socketlab.Sys.{
  Sys, socket, connect, inet_addr, fgets, read, write, close, inet, pure, exit, fault, call, ◌>>=◌,
  ◌>>◌, when◌run◌otherwise◌,
}
use socketlab.Ft.{c_string}
use socketlab.Net.SockIf.{af_inet}
use socketlab.Net.Common.{sock_stream}
use socketlab.Echo.{if_over}

-- `none`: the client still talks.
abbrev pub Talk : Type 0
Talk = Sys (Option (List (List ℕ)))

-- "q" and "Q"
abbrev pub is_quit : List ℕ → Bool
is_quit text = bytes_eq text (113 ∷ []) || bytes_eq text (81 ∷ [])

-- `str_len - 1 == 0 && msg[0] == '\n'`
abbrev pub is_empty_line : List ℕ → Bool
is_empty_line line = (length line == 1) && (get_or line 0 0 == 10)

-- A line as it was typed, and what is left when its last byte is overwritten.
abbrev pub typed : List ℕ → List ℕ
typed out = c_string out

abbrev pub without_last : List ℕ → List ℕ
without_last line = take (length line - 1) line

-- `msg[str_len] = 0` for what `read` returns, and what is printed then.
abbrev pub is_stored : ℤ → ℕ → Bool
is_stored n size = if is_neg n then false else leb (suc (to_nat n)) size

abbrev pub printed_before : List ℕ → Option (List (List ℕ)) → Option (List (List ℕ))
printed_before text = Option.map (λ texts. text ∷ texts)

-- The loop of `main`.
unfoldable pub client_loop : ℕ → ℤ → Talk
client_loop zero sock = pure none
client_loop (suc turns) sock = do
  l ← call (fgets 1024)
  when is_zero l.ret
      run pure (some [])
      otherwise (when length (typed l.out) == 0
          run fault
          otherwise (when is_empty_line (typed l.out)
              run client_loop turns sock
              otherwise (when is_quit (without_last (typed l.out)) run pure (some []) otherwise (do
                call (write sock (without_last (typed l.out)))
                r ← call (read sock 1024)
                when is_stored r.ret 1024
                    run (do
                      more ← client_loop turns sock
                      pure (printed_before (c_string (take (to_nat r.ret) r.out)) more))
                    otherwise fault))))

-- "localhost", for which the code takes "127.0.0.1".
abbrev pub address_text : List ℕ → List ℕ
address_text ip =
    if bytes_eq ip (108 ∷ 111 ∷ 99 ∷ 97 ∷ 108 ∷ 104 ∷ 111 ∷ 115 ∷ 116 ∷ [])
    then 49 ∷ 50 ∷ 55 ∷ 46 ∷ 48 ∷ 46 ∷ 48 ∷ 46 ∷ 49 ∷ []
    else ip

-- `main`, for an address and a port.
unfoldable pub client_main : (turns : ℕ) → (ip : List ℕ) → (port : ℕ) → Talk
client_main turns ip port = do
  s ← call (socket af_inet sock_stream 0)
  when is_minus_one s.ret run exit 1 otherwise (do
    a ← call (inet_addr (address_text ip))
    c ← call (connect s.ret (inet af_inet (htons (u16 port)) (to_nat a.ret)))
    when is_minus_one c.ret run exit 1 otherwise (do
      texts ← client_loop turns s.ret
      if_over texts (do call (close s.ret); pure texts)))
