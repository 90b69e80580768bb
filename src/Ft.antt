-- ===== src/Ft.antt =====
-- src/ft: file transfer. The types of requests, and what the server and the client share. A
-- null pointer that the C library does not take, a store outside a buffer and an index outside a
-- table are faults. Loops that last as long as the peer or a file does are given a number of turns:
-- `none` says that they were not over by then.
pub mod Server
pub mod Client
pub mod Stored
pub mod Put
pub mod Buffer
pub mod Sent
pub mod Get
pub mod Download
pub mod Listing
pub mod Upload
mod Tests
use socketlab.Base.{
  ℕ, zero, suc, ◌+◌, List, [], ◌∷◌, Option, none, some, ◌==◌, ◌*◌, ◌^◌, ltb, if◌then◌else◌, take,
  drop, htonl, le32, ◌++◌,
}
use mathlib.Core.Option
use socketlab.Base.Int.{ℤ, is_neg, is_zero, to_nat}
use socketlab.Sys.{
  Sys, Call, recv, send, fread, fwrite, stat, pure, fault, call, ◌>>=◌, ◌>>◌, when◌run◌otherwise◌,
  filled,
}
use socketlab.Netpackets.Ipv4.{long_at}

-- `enum ft_request_type`, as bytes
abbrev pub error : ℕ
error = 255

abbrev pub data_follows : ℕ
data_follows = 0

abbrev pub ls : ℕ
ls = 1

abbrev pub pwd : ℕ
pwd = 2

abbrev pub cd : ℕ
cd = 3

abbrev pub get : ℕ
get = 4

abbrev pub put : ℕ
put = 5

abbrev pub exit_request : ℕ
exit_request = 6

abbrev pub end : ℕ
end = 127

abbrev pub buf_size : ℕ
buf_size = 1024

-- The string that begins at a pointer, without its zero.
abbrev pub c_string : List ℕ → List ℕ
c_string [] = []
c_string (c ∷ cs) = if c == 0 then [] else c ∷ c_string cs

-- A token up to a space or the end of the string, and the memory once `strtok` has ended it.
unfoldable pub end_token : List ℕ → List ℕ × List ℕ
end_token [] = ([], [])
end_token (c ∷ cs) =
    let (word, rest) = end_token cs in
    if c == 0 then ([], c ∷ cs) else if c == 32 then ([], 0 ∷ cs) else (c ∷ word, c ∷ rest)

-- `strtok(s, " ")`: the first token and the memory after the call, or a null pointer.
unfoldable pub strtok : List ℕ → Option (List ℕ × List ℕ)
strtok [] = none
strtok (c ∷ cs) =
    let later = strtok cs in
    if c == 32
    then Option.map (λ found. (found.0, c ∷ found.1)) later
    else if c == 0
    then none
    else some (end_token (c ∷ cs))

-- `get_file_size`: `st_size`, which has eight bytes
unfoldable pub get_file_size : List ℕ → Sys ℕ
get_file_size filename = do
  r ← call (stat filename)
  when is_zero r.ret run pure (long_at r.out + long_at (drop 4 r.out) * 2 ^ 32) otherwise pure 0

-- A `long` that holds the `htonl` of a size, in memory; and what `ntohl` reads from one.
abbrev pub size_bytes : ℕ → List ℕ
size_bytes size = le32 (htonl size) ++ (0 ∷ 0 ∷ 0 ∷ 0 ∷ [])

abbrev pub size_at : List ℕ → ℕ
size_at p = htonl (long_at p)

-- What follows a loop, if the loop is over.
abbrev pub if_over : {A B : Type 0} → Option A → (A → Sys (Option B)) → Sys (Option B)
if_over none k = pure none
if_over (some a) k = k a

-- The blocks of a file, each sent as it was read.
unfoldable pub send_file : ℕ → ℤ → ℤ → Sys (Option Unit)
send_file zero fd fp = pure none
send_file (suc turns) fd fp = do
  r ← call (fread fp buf_size)
  when is_zero r.ret
      run pure (some tt)
      otherwise (do call (send fd (take (to_nat r.ret) r.out)); send_file turns fd fp)

-- The rest of a file, received and stored, where `t` bytes of `fsize` are. `clear` is what happens to
-- the buffer before each call of `recv`. (A `recv` that fails makes `fwrite` read far past the buffer.)
unfoldable pub store_rest :
    (List ℕ → List ℕ) → ℕ → ℤ → ℤ → (fsize t : ℕ) → List ℕ → Sys (Option (List ℕ))
store_rest clear zero fd fp fsize t buf = pure (if ltb t fsize then none else some buf)
store_rest clear (suc turns) fd fp fsize t buf =
    when ltb t fsize
    run (do
      r ← call (recv fd buf_size)
      let next = filled r.out (clear buf)
      when is_neg r.ret run fault otherwise (do
        call (fwrite fp (take (to_nat r.ret) next))
        store_rest clear turns fd fp fsize (t + to_nat r.ret) next))
    otherwise pure (some buf)
