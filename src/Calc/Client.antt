-- ===== src/Calc/Client.antt =====
-- src/op-client.c: the client of the calculator, as a run. What `scanf` reads is the answer of a call:
-- the count of conversions and the bytes that it stores.
use socketlab.Base.{
  ℕ, zero, suc, ◌+◌, ◌*◌, ◌^◌, List, [], ◌∷◌, ◌++◌, ltb, leb, if◌then◌else◌, length, take, drop,
  htons, u16, u8,
}
use socketlab.Base.Int.{ℤ, is_minus_one, to_nat}
use socketlab.Sys.{
  Sys, Reply, socket, connect, inet_addr, scanf_int, scanf_char, read, write, close, inet, pure,
  exit, fault, call, ◌>>=◌, ◌>>◌, when◌run◌otherwise◌, filled,
}
use socketlab.Netpackets.Ipv4.{long_at}
use socketlab.Net.SockIf.{af_inet}
use socketlab.Net.Common.{sock_stream}
use socketlab.Echo.Client.{address_text}
use socketlab.Calc.{buf_size}

abbrev pub store_bytes : ℕ → List ℕ → List ℕ → List ℕ
store_bytes offset bytes memory =
    take offset memory ++ (bytes ++ drop (offset + length bytes) memory)

-- What `scanf` leaves at the place that it is given.
abbrev pub scanned : Reply → List ℕ → List ℕ
scanned r old = if leb 1 (to_nat r.ret) then r.out else old

-- The loop over the operands: `left` are to come, and the next one goes to `offset`.
unfoldable pub read_operands : (left offset : ℕ) → List ℕ → Sys (List ℕ)
read_operands zero offset opmsg = pure opmsg
read_operands (suc left) offset opmsg = do
  r ← call scanf_int
  when leb (offset + 4) buf_size
      run read_operands left (offset + 4)
          (store_bytes offset (scanned r (take 4 (drop offset opmsg))) opmsg)
      otherwise fault

-- The operator behind the operands, the request and the answer. `result` is what the variable holds
-- before it is read.
unfoldable pub ask_result : ℤ → ℕ → List ℕ → List ℕ → Sys ℕ
ask_result sock opnd_cnt result opmsg = do
  r ← call scanf_char
  when ltb (opnd_cnt * 4 + 1) buf_size
      run (do
        call (
            write sock (
              take (opnd_cnt * 4 + 2) (
                store_bytes (opnd_cnt * 4 + 1) (scanned r (take 1 (drop (opnd_cnt * 4 + 1) opmsg)))
                  opmsg)))
        a ← call (read sock 4)
        call (close sock)
        pure (long_at (filled (take (to_nat a.ret) a.out) result)))
      otherwise fault

-- The input of `main`, with the variables that are not initialised; `opmsg + opnd_cnt * sizeof(int)` is
-- outside the array for a negative count.
unfoldable pub calculate_at : ℤ → (opnd_cnt : ℕ) → (result opmsg : List ℕ) → Sys ℕ
calculate_at sock opnd_cnt result opmsg = when leb (2 ^ 31) opnd_cnt run fault otherwise (do
  filled_in ← read_operands opnd_cnt 1 (store_bytes 0 (u8 opnd_cnt ∷ []) opmsg)
  ask_result sock opnd_cnt result filled_in)

-- `main`, for an address and a port: what it prints as the result.
unfoldable pub op_client :
    (count_junk result_junk opmsg : List ℕ) → (ip : List ℕ) → (port : ℕ) → Sys ℕ
op_client count_junk result_junk opmsg ip port = do
  s ← call (socket af_inet sock_stream 0)
  when is_minus_one s.ret run exit 1 otherwise (do
    a ← call (inet_addr (address_text ip))
    c ← call (connect s.ret (inet af_inet (htons (u16 port)) (to_nat a.ret)))
    when is_minus_one c.ret run exit 1 otherwise (do
      r ← call scanf_int
      calculate_at s.ret (long_at (scanned r count_junk)) result_junk opmsg))
