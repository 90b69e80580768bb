-- ===== src/Ft/Client.antt =====
-- src/ft/ft-client.c: the commands that send a request. The result of a command is the value it
-- returns and what it prints of the server's answer; reports on its progress are left out.
use socketlab.Base.{
  ℕ, zero, suc, ◌+◌, ◌-◌, List, [], ◌∷◌, ◌++◌, Option, none, some, Bool, true, false, ◌==◌, ltb,
  leb, if◌then◌else◌, length, take, drop, get_or, replicate, htonl, le32,
}
use mathlib.Core.Option
use socketlab.Base.Int.{ℤ, pos, negsuc, is_neg, is_minus_one, is_zero, to_nat}
use socketlab.Sys.{
  Sys, send, recv, close, fopen, fwrite, fclose, pure, exit, fault, call, ◌>>=◌, ◌>>◌,
  when◌run◌otherwise◌, filled,
}
use socketlab.Net.Common.{tcp_connected, get_tcp_info}
use socketlab.Ft

-- The value that a command returns, and what it has printed; `none` as in the parent.
abbrev pub Command : Type 0
Command = Sys (Option (ℤ × List ℕ))

-- `memset(buf, 0, BUF_SIZE)`
abbrev pub blank : List ℕ
blank = replicate Ft.buf_size 0

-- A request with its argument, in a whole buffer; `strncpy` leaves room for nothing else.
unfoldable pub request : ℕ → List ℕ → List ℕ
request type args = take Ft.buf_size (type ∷ (args ++ blank))

-- The bytes before END, and whether there is one.
unfoldable pub before_end : List ℕ → List ℕ × Bool
before_end [] = ([], false)
before_end (c ∷ cs) =
    let (text, over) = before_end cs in if c == Ft.end then ([], true) else (c ∷ text, over)

-- PRINT_RESPONSE_BODY. `printed` is what was printed before.
unfoldable pub print_body : ℕ → ℤ → List ℕ → Command
print_body zero fd printed = pure none
print_body (suc turns) fd printed = do
  r ← call (recv fd Ft.buf_size)
  let (text, over) = before_end (take (to_nat r.ret) r.out)
  when is_minus_one r.ret
      run exit 1
      otherwise (when over
          run pure (some (pos 0, printed ++ (text ++ (10 ∷ []))))
          otherwise print_body turns fd (printed ++ text))

-- CONNECT_CHECK, and a command behind it.
unfoldable pub when_connected : ℤ → Command → Command
when_connected fd m = do
  c ← tcp_connected fd
  when c == 0 run pure (some (negsuc 0, [])) otherwise m

-- `args` is a null pointer if there are none.
unfoldable cmd_ls : ℕ → ℤ → Option (List ℕ) → Command
cmd_ls turns fd args = when_connected fd (do
  get_tcp_info fd
  call (send fd (request Ft.ls (Option.get_or args [])))
  print_body turns fd [])

unfoldable cmd_pwd : ℕ → ℤ → Command
cmd_pwd turns fd = when_connected fd (do call (send fd (Ft.pwd ∷ [])); print_body turns fd [])

unfoldable cmd_cd : ℕ → ℤ → Option (List ℕ) → Command
cmd_cd turns fd args =
    when_connected fd
      (do call (send fd (request Ft.cd (Option.get_or args []))); print_body turns fd [])

-- `recv_file`, with the `recv_len` bytes of the answer that are in `buf`. A count below nine wraps.
unfoldable pub recv_file : ℕ → ℤ → List ℕ → (filesize recv_len : ℕ) → List ℕ → Sys (Option (List ℕ))
recv_file turns fd filename filesize recv_len buf =
    when leb 9 recv_len
    run (do
      fp ← call (fopen filename true)
      when is_zero fp.ret run fault otherwise (do
        w ← call (fwrite fp.ret (take (recv_len - 9) (drop 9 buf)))
        stored ← Ft.store_rest (λ b. blank) turns fd fp.ret filesize (to_nat w.ret) buf
        Ft.if_over stored λ b. (do call (fclose fp.ret); pure (some b))))
    otherwise fault

-- The part of `cmd_get` behind the request: an error, whose text is printed, or the file.
unfoldable pub get_answer : ℕ → ℤ → List ℕ → ℤ → List ℕ → Command
get_answer turns fd filename n buf =
    when get_or buf 0 0 == Ft.error
    run pure (some (negsuc 0, Ft.c_string (drop 1 buf) ++ (10 ∷ [])))
    otherwise (when is_neg n run fault otherwise (do
      stored ← recv_file turns fd filename (Ft.size_at (drop 1 buf)) (to_nat n) buf
      pure (Option.map (λ b. (pos 0, [])) stored)))

-- `strcpy` needs the argument and its zero to fit behind the first byte.
unfoldable pub cmd_get : ℕ → ℤ → Option (List ℕ) → Command
cmd_get turns fd none = when_connected fd (pure (some (pos 0, [])))
cmd_get turns fd (some args) = when_connected fd (
    when ltb (1 + length args) Ft.buf_size
    run (do
      call (send fd (request Ft.get args))
      r ← call (recv fd Ft.buf_size)
      get_answer turns fd args r.ret (filled r.out blank))
    otherwise fault)

-- What `cmd_put` sends before the file.
unfoldable pub put_request : List ℕ → ℕ → List ℕ
put_request filename fsize =
    Ft.put ∷ (Ft.size_bytes fsize ++ (le32 (htonl (length filename)) ++ filename))

-- The request must leave a zero behind the name, which is printed.
unfoldable pub put_file : ℕ → ℤ → List ℕ → Command
put_file turns fd filename = do
  fsize ← Ft.get_file_size filename
  when leb Ft.buf_size (13 + length filename) run fault otherwise (do
    call (send fd (put_request filename fsize))
    fp ← call (fopen filename false)
    when is_zero fp.ret run fault otherwise (do
      over ← Ft.send_file turns fd fp.ret
      Ft.if_over over λ u. (do call (fclose fp.ret); call (recv fd 1); pure (some (pos 0, [])))))

-- `strtok` goes on behind the command, where `args` begins too.
unfoldable pub put_token : ℕ → ℤ → Option (List ℕ × List ℕ) → Command
put_token turns fd none = fault
put_token turns fd (some (filename, rest)) = put_file turns fd filename

unfoldable pub cmd_put : ℕ → ℤ → Option (List ℕ) → Command
cmd_put turns fd none = when_connected fd (pure (some (negsuc 0, [])))
cmd_put turns fd (some args) = when_connected fd (put_token turns fd (Ft.strtok args))

unfoldable cmd_exit : ℤ → Command
cmd_exit fd = do call (send fd (request Ft.exit_request [])); call (close fd); exit 0
