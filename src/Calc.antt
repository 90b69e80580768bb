-- ===== src/Calc.antt =====
-- src/op-server.c and src/op-client.c: a server that calculates, and the message of its client. A
-- value of `int` is its 32-bit pattern; `int` arithmetic wraps, as the machine does it.
pub mod Client
pub mod Asks
pub mod Message
pub mod Operators
pub mod Server
mod Tests
use socketlab.Base.{
  ℕ, zero, suc, ◌+◌, ◌-◌, ◌*◌, ◌%◌, ◌^◌, List, [], ◌∷◌, ◌++◌, Option, none, some, Bool, ◌==◌, leb,
  if◌then◌else◌, u8, u32, length, take, drop, get_or, le32,
}
use socketlab.Netpackets.Ipv4.{long_at}

-- BUF_SIZE
abbrev pub buf_size : ℕ
buf_size = 1024

abbrev pub add_from : ℕ → List ℕ → ℕ
add_from result [] = result
add_from result (x ∷ nums) = add_from (u32 (result + x)) nums

abbrev pub sub_from : ℕ → List ℕ → ℕ
sub_from result [] = result
sub_from result (x ∷ nums) = sub_from (u32 (result + 2 ^ 32 - x)) nums

abbrev pub multi_from : ℕ → List ℕ → ℕ
multi_from result [] = result
multi_from result (x ∷ nums) = multi_from (u32 (result * x)) nums

-- `nums[0]`, then the loop from `i = 1`; without a number, `nums[0]` is `junk`.
unfoldable pub add : ℕ → List ℕ → ℕ
add junk [] = junk
add junk (x ∷ nums) = add_from x nums

unfoldable pub sub : ℕ → List ℕ → ℕ
sub junk [] = junk
sub junk (x ∷ nums) = sub_from x nums

-- Here the loop begins at `i = 0`.
unfoldable pub multi : ℕ → List ℕ → ℕ
multi junk [] = junk
multi junk (x ∷ nums) = multi_from x (x ∷ nums)

-- `calc`; `none` is a call through an entry of `func` that was not set, or outside of it.
unfoldable pub calc : ℕ → List ℕ → ℕ → Option ℕ
calc junk nums op =
    if op == 42
    then some (multi junk nums)
    else if op == 43
    then some (add junk nums)
    else if op == 45
    then some (sub junk nums)
    else none

-- The first `n` values of an array of `int` in memory.
unfoldable pub ints_at : ℕ → List ℕ → List ℕ
ints_at zero p = []
ints_at (suc n) p = long_at p ∷ ints_at n (drop 4 p)

unfoldable pub ints_bytes : List ℕ → List ℕ
ints_bytes [] = []
ints_bytes (x ∷ nums) = le32 x ++ ints_bytes nums

-- What `op-client` puts in `opmsg` and writes: the count, the numbers and the operator.
unfoldable pub message : List ℕ → ℕ → List ℕ
message nums op = u8 (length nums) ∷ (ints_bytes nums ++ (op ∷ []))

-- The loop of the server, on what the calls of `read` return, in order: the bytes in `opmsg` when at
-- least `need` have arrived. `none`: a write past the buffer, or a wait for more.
unfoldable pub receive : ℕ → List ℕ → List (List ℕ) → Option (List ℕ)
receive need got [] = if leb need (length got) then some got else none
receive need got (chunk ∷ chunks) =
    let rest = receive need (got ++ chunk) chunks in
    if leb need (length got)
    then some got
    else if leb (length got + length chunk) buf_size
    then rest
    else none

-- A connection: the byte that the first `read` returns, then the loop and the calculation.
unfoldable pub serve : ℕ → ℕ → List (List ℕ) → Option ℕ
serve junk opnd_cnt chunks = elim (receive (opnd_cnt * 4 + 1) [] chunks) [
  | none ↦ none
  | some opmsg ↦ calc junk (ints_at opnd_cnt opmsg) (get_or opmsg (length opmsg - 1) 0)
]
