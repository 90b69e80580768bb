-- ===== src/Ft/Server.antt =====
-- src/ft/ft-server.c: the answers to the requests, and one turn of a session.
use socketlab.Base.{
  ℕ, zero, suc, ◌+◌, ◌-◌, List, [], ◌∷◌, ◌++◌, Option, none, some, true, false, ◌==◌, ltb, leb,
  ◌&&◌, if◌then◌else◌, length, take, drop, set, get_or, htonl,
}
use mathlib.Core.Option
use socketlab.Base.Int.{ℤ, is_neg, is_minus_one, is_zero, to_nat}
use socketlab.Sys.{
  Sys, send, recv, close, access, fopen, fwrite, fclose, opendir, readdir, closedir, chdir, getcwd,
  pure, exit, fault, call, ◌>>=◌, ◌>>◌, when◌run◌otherwise◌, filled,
}
use socketlab.Netpackets.Ipv4.{long_at}
use socketlab.Ft

-- The path in `args`, and the memory from there on after the call of `strtok`, if there is one.
unfoldable pub path_arg : List ℕ → Option (List ℕ × List ℕ)
path_arg args = if get_or args 0 0 == 0 then some (46 ∷ [], args) else Ft.strtok args

-- "open dir `", "cd `", "get `" and "` failed: "
abbrev open_dir : List ℕ
open_dir = 111 ∷ 112 ∷ 101 ∷ 110 ∷ 32 ∷ 100 ∷ 105 ∷ 114 ∷ 32 ∷ 96 ∷ []

abbrev cd_to : List ℕ
cd_to = 99 ∷ 100 ∷ 32 ∷ 96 ∷ []

abbrev get_of : List ℕ
get_of = 103 ∷ 101 ∷ 116 ∷ 32 ∷ 96 ∷ []

abbrev failed : List ℕ
failed = 96 ∷ 32 ∷ 102 ∷ 97 ∷ 105 ∷ 108 ∷ 101 ∷ 100 ∷ 58 ∷ 32 ∷ []

-- `sprintf` into `msg` behind its first `skip` bytes, and `send` of the whole. The text and its zero
-- must fit.
unfoldable pub send_msg : ℤ → List ℕ → List ℕ → Sys ℤ
send_msg fd head msg_text =
    when ltb (length head + length msg_text) Ft.buf_size
    run (do r ← call (send fd (head ++ msg_text)); pure r.ret)
    otherwise fault

-- `buf[0] = END`, sent.
unfoldable pub send_end : ℤ → List ℕ → Sys (List ℕ)
send_end fd buf = do call (send fd (Ft.end ∷ [])); pure (set buf 0 Ft.end)

-- The loop over a directory, and its end.
unfoldable pub list_dir : ℕ → ℤ → ℤ → List ℕ → Sys (Option (List ℕ))
list_dir zero fd dir buf = pure none
list_dir (suc turns) fd dir buf = do
  r ← call (readdir dir)
  let name = Ft.c_string r.out
  when is_zero r.ret
      run (do next ← send_end fd buf; call (closedir dir); pure (some next))
      otherwise (when get_or name 0 0 == 46 run list_dir turns fd dir buf otherwise (do
        call (send fd (name ++ (10 ∷ [])))
        list_dir turns fd dir (filled (name ++ (10 ∷ 0 ∷ [])) buf)))

-- Each answer is given the C library's texts for errors, the socket and `buf`, whose first byte is the
-- request, and returns what is in `buf` then.
unfoldable pub ls_of : (ℕ → List ℕ) → ℕ → ℤ → ℕ → Option (List ℕ × List ℕ) → Sys (Option (List ℕ))
ls_of strerror turns fd head none = fault
ls_of strerror turns fd head (some (path, rest)) = do
  d ← call (opendir path)
  when is_zero d.ret
      run (do
        send_msg fd [] (open_dir ++ (path ++ (failed ++ strerror d.errno)))
        call (send fd (Ft.end ∷ []))
        pure (some (head ∷ rest)))
      otherwise list_dir turns fd d.ret (head ∷ rest)

unfoldable pub response_ls : (ℕ → List ℕ) → ℕ → ℤ → List ℕ → Sys (Option (List ℕ))
response_ls strerror turns fd buf = ls_of strerror turns fd (get_or buf 0 0) (path_arg (drop 1 buf))

-- `getcwd(NULL, 0)` returns a string, or a null pointer for `strlen`.
unfoldable pub response_pwd : ℤ → List ℕ → Sys (Option (List ℕ))
response_pwd fd buf = do
  c ← call getcwd
  when is_zero c.ret
      run fault
      otherwise (do call (send fd (Ft.c_string c.out)); next ← send_end fd buf; pure (some next))

unfoldable pub cd_of : (ℕ → List ℕ) → ℤ → ℕ → Option (List ℕ × List ℕ) → Sys (Option (List ℕ))
cd_of strerror fd head none = fault
cd_of strerror fd head (some (path, rest)) = do
  c ← call (chdir path)
  when is_minus_one c.ret
      run (do
        send_msg fd [] (cd_to ++ (path ++ (failed ++ (strerror c.errno ++ (10 ∷ [])))))
        response_pwd fd (head ∷ rest))
      otherwise response_pwd fd (head ∷ rest)

unfoldable pub response_cd : (ℕ → List ℕ) → ℤ → List ℕ → Sys (Option (List ℕ))
response_cd strerror fd buf = cd_of strerror fd (get_or buf 0 0) (path_arg (drop 1 buf))

-- The file once `access` has found it.
unfoldable pub send_found : ℕ → ℤ → List ℕ → List ℕ → Sys (Option (List ℕ))
send_found turns fd filename buf = do
  fsize ← Ft.get_file_size filename
  call (send fd (Ft.data_follows ∷ Ft.size_bytes fsize))
  fp ← call (fopen filename false)
  when is_zero fp.ret run fault otherwise (do
    over ← Ft.send_file turns fd fp.ret
    call (fclose fp.ret)
    pure (Option.map (λ u. buf) over))

unfoldable pub get_of_name :
    (ℕ → List ℕ) → ℕ → ℤ → ℕ → Option (List ℕ × List ℕ) → Sys (Option (List ℕ))
get_of_name strerror turns fd head none = fault
get_of_name strerror turns fd head (some (filename, rest)) = do
  a ← call (access filename)
  when is_minus_one a.ret
      run (do
        send_msg fd (Ft.error ∷ []) (get_of ++ (filename ++ (failed ++ strerror a.errno)))
        pure (some (head ∷ rest)))
      otherwise send_found turns fd filename (head ∷ rest)

unfoldable pub response_get : (ℕ → List ℕ) → ℕ → ℤ → List ℕ → Sys (Option (List ℕ))
response_get strerror turns fd buf =
    get_of_name strerror turns fd (get_or buf 0 0) (Ft.strtok (drop 1 buf))

-- Where the file's bytes begin in `buf`.
unfoldable pub put_offset : List ℕ → ℕ
put_offset buf = 13 + htonl (long_at (drop 9 buf))

-- `n` bytes of `buf` were received. The file's name has its length from the client, and must end within
-- the 256 bytes of `filename`.
unfoldable pub response_put : ℕ → ℤ → ℕ → List ℕ → Sys (Option (List ℕ))
response_put turns fd n buf =
    let offset = put_offset buf in
    let filename = Ft.c_string (take (offset - 13) (drop 13 buf)) in
    when ltb offset (13 + 256) && leb offset n
    run (do
      fp ← call (fopen filename true)
      when is_zero fp.ret run fault otherwise (do
        w ← call (fwrite fp.ret (take (n - offset) (drop offset buf)))
        stored ← Ft.store_rest (λ b. b) turns fd fp.ret (Ft.size_at (drop 1 buf)) (to_nat w.ret) buf
        Ft.if_over stored λ b. (do call (fclose fp.ret); next ← send_end fd b; pure (some next))))
    otherwise fault

-- `thrd_exit` ends the session.
unfoldable pub response_exit : ℤ → Sys (Option (List ℕ))
response_exit fd = do call (close fd); exit 0

-- The `switch`, on a request of `n` bytes. `ft_request_str` has seven texts.
unfoldable pub answer : (ℕ → List ℕ) → ℕ → ℤ → ℕ → List ℕ → Sys (Option (List ℕ))
answer strerror turns fd n buf =
    let request = get_or buf 0 0 in
    when ltb request 7
    run (when request == Ft.ls
        run response_ls strerror turns fd buf
        otherwise (when request == Ft.pwd
            run response_pwd fd buf
            otherwise (when request == Ft.cd
                run response_cd strerror fd buf
                otherwise (when request == Ft.get
                    run response_get strerror turns fd buf
                    otherwise (when request == Ft.put
                        run response_put turns fd n buf
                        otherwise (when request == Ft.exit_request
                            run response_exit fd
                            otherwise pure (some buf)))))))
    otherwise fault

-- A turn of the loop of `session`, which stores a zero behind what it received.
unfoldable pub turn : (ℕ → List ℕ) → ℕ → ℤ → List ℕ → Sys (Option (List ℕ))
turn strerror turns fd buf = do
  r ← call (recv fd Ft.buf_size)
  when is_neg r.ret
      run fault
      otherwise (when ltb (to_nat r.ret) Ft.buf_size
          run answer strerror turns fd (to_nat r.ret) (set (filled r.out buf) (to_nat r.ret) 0)
          otherwise fault)
