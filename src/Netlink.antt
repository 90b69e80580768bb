-- ===== src/Netlink.antt =====
-- src/nl_get_ipaddr.c: the addresses of the interfaces, as the kernel lists them through a netlink
-- socket. The tests and steps NLMSG_OK, NLMSG_NEXT, RTA_OK and RTA_NEXT, the constants, and the
-- layout of a message are those of linux/netlink.h, linux/rtnetlink.h and linux/if_addr.h.
pub mod Message
pub mod Walk
pub mod Datagram
pub mod Dump
pub mod Turns
pub mod Errors
pub mod Tests
use socketlab.Base.{
  ℕ, zero, suc, ◌+◌, ◌-◌, ◌*◌, ◌/◌, ◌%◌, List, [], ◌∷◌, ◌++◌, Option, none, some, Bool, true, false,
  ◌&&◌, ◌||◌, if◌then◌else◌, ◌==◌, leb, get_or, take, drop, replicate, le16, le32,
}
use socketlab.Base.Int.{ℤ, is_neg, to_nat}
use socketlab.Sys.{
  Sys, Call, socket, bind, close, sendto, recvmsg, getpid, perror, netlink, pure, exit, call, ◌>>=◌,
  ◌>>◌, when◌run◌otherwise◌, filled,
}

-- A field of a structure in memory.
abbrev pub u16_at : ℕ → List ℕ → ℕ
u16_at i memory = get_or memory i 0 + get_or memory (i + 1) 0 * 256

abbrev pub u32_at : ℕ → List ℕ → ℕ
u32_at i memory = u16_at i memory + u16_at (i + 2) memory * 65536

-- NLMSG_ALIGN and RTA_ALIGN.
abbrev pub aligned : ℕ → ℕ
aligned len = (len + 3) / 4 * 4

-- The names of the types, up to the constant that follows the last one in the table, at `ifa_max`.
-- A type for which the table has no name gives a null pointer.
abbrev pub rta_type_strs : List (Option (List ℕ))
rta_type_strs =
    some (73 ∷ 70 ∷ 65 ∷ 95 ∷ 85 ∷ 78 ∷ 83 ∷ 80 ∷ 69 ∷ 67 ∷ [])
    ∷ some (73 ∷ 70 ∷ 65 ∷ 95 ∷ 65 ∷ 68 ∷ 68 ∷ 82 ∷ 69 ∷ 83 ∷ 83 ∷ [])
    ∷ some (73 ∷ 70 ∷ 65 ∷ 95 ∷ 76 ∷ 79 ∷ 67 ∷ 65 ∷ 76 ∷ [])
    ∷ some (73 ∷ 70 ∷ 65 ∷ 95 ∷ 76 ∷ 65 ∷ 66 ∷ 69 ∷ 76 ∷ [])
    ∷ some (73 ∷ 70 ∷ 65 ∷ 95 ∷ 66 ∷ 82 ∷ 79 ∷ 65 ∷ 68 ∷ 67 ∷ 65 ∷ 83 ∷ 84 ∷ [])
    ∷ some (73 ∷ 70 ∷ 65 ∷ 95 ∷ 65 ∷ 78 ∷ 89 ∷ 67 ∷ 65 ∷ 83 ∷ 84 ∷ [])
    ∷ some (73 ∷ 70 ∷ 65 ∷ 95 ∷ 67 ∷ 65 ∷ 67 ∷ 72 ∷ 69 ∷ 73 ∷ 78 ∷ 70 ∷ 79 ∷ [])
    ∷ some (73 ∷ 70 ∷ 65 ∷ 95 ∷ 77 ∷ 85 ∷ 76 ∷ 84 ∷ 73 ∷ 67 ∷ 65 ∷ 83 ∷ 84 ∷ [])
    ∷ some (73 ∷ 70 ∷ 65 ∷ 95 ∷ 70 ∷ 76 ∷ 65 ∷ 71 ∷ 83 ∷ [])
    ∷ some (73 ∷ 70 ∷ 65 ∷ 95 ∷ 82 ∷ 84 ∷ 95 ∷ 80 ∷ 82 ∷ 73 ∷ 79 ∷ 82 ∷ 73 ∷ 84 ∷ 89 ∷ [])
    ∷ some (
        73 ∷ 70 ∷ 65 ∷ 95 ∷ 84 ∷ 65 ∷ 82 ∷ 71 ∷ 69 ∷ 84 ∷ 95 ∷ 78 ∷ 69 ∷ 84 ∷ 78 ∷ 83 ∷ 73 ∷ 68
        ∷ [])
    ∷ []

unfoldable pub rta_type_str : ℕ → ℕ → Option (List ℕ)
rta_type_str ifa_max type = if leb ifa_max type then some [] else get_or rta_type_strs type none

-- A line that is logged about an address: the interface by its index, the type of the address, and the family and the
-- bytes that `inet_ntop` is given.
pub record Line : Type 0 where
  pub ifa_index : ℕ
  pub rta_type : ℕ
  pub ifa_family : ℕ
  pub address : List ℕ

-- The bytes that `inet_ntop` reads for AF_INET and AF_INET6; it fails for another family.
abbrev pub address_size : ℕ → ℕ
address_size family = if family == 2 then 4 else (if family == 10 then 16 else 0)

-- The attributes IFA_ADDRESS and IFA_BROADCAST.
abbrev pub is_listed : ℕ → Bool
is_listed type = (type == 1) || (type == 4)

abbrev pub rta_ok : List ℕ → ℕ → Bool
rta_ok rta len = leb 4 len && leb 4 (u16_at 0 rta) && leb (u16_at 0 rta) len

abbrev pub listed_before : Option (List Line) → Option (List Line) → Option (List Line)
listed_before none more = none
listed_before (some lines) none = none
listed_before (some lines) (some more) = some (lines ++ more)

-- The loop over the attributes of a message, from `rta` on; `len` is 0 where the code's is negative.
-- `none` says that the loop was not over within its turns.
unfoldable pub attributes : ℕ → (family index : ℕ) → List ℕ → ℕ → Option (List Line)
attributes zero family index rta len = if rta_ok rta len then none else some []
attributes (suc turns) family index rta len =
    let rest =
      attributes turns family index (drop (aligned (u16_at 0 rta)) rta)
        (len - aligned (u16_at 0 rta)) in
    if rta_ok rta len
    then (if is_listed (u16_at 2 rta)
        then listed_before
            (some (
              record {
                ifa_index = index;
                rta_type = u16_at 2 rta;
                ifa_family = family;
                address = take (address_size family) (drop 4 rta);
              }
              ∷ []))
            rest
        else rest)
    else some []

-- A message of type RTM_NEWADDR, after its header: `struct ifaddrmsg` and the attributes. An attribute
-- has at least four bytes, so the loop has a turn for each byte.
unfoldable pub new_addr : List ℕ → ℕ → Option (List Line)
new_addr ifa len = attributes len (get_or ifa 0 0) (u32_at 4 ifa) (drop 8 ifa) len

abbrev pub nlmsg_ok : List ℕ → ℕ → Bool
nlmsg_ok nh n = leb 16 n && leb 16 (u32_at 0 nh) && leb (u32_at 0 nh) n

-- The loop over the messages of a datagram, which an error ends. `none` says that the loop was not over
-- within its turns.
unfoldable pub messages : ℕ → List ℕ → ℕ → Option (List Line)
messages zero nh n = if nlmsg_ok nh n then none else some []
messages (suc turns) nh n =
    let rest = messages turns (drop (aligned (u32_at 0 nh)) nh) (n - aligned (u32_at 0 nh)) in
    if nlmsg_ok nh n
    then (if u16_at 4 nh == 2
        then some []
        else (if u16_at 4 nh == 20
            then listed_before (new_addr (drop 16 nh) (u32_at 0 nh - 24)) rest
            else rest))
    else some []

abbrev pub buf_size : ℕ
buf_size = 8192

-- From `try_recv` on, watched for a number of turns: `none` says that the program still waits for a
-- message of type NLMSG_DONE at the beginning of a datagram. A message has at least 16 bytes, so the
-- loop over the messages has a turn for each byte.
unfoldable pub receive_dump : ℕ → ℤ → List ℕ → Sys (Option (List Line))
receive_dump zero sock buf = pure none
receive_dump (suc turns) sock buf = do
  r ← call (recvmsg sock buf_size)
  when is_neg r.ret
      run (do call perror; call (close sock); exit 1)
      otherwise (let received = filled (take buf_size r.out) buf in
          when u16_at 4 received == 3 run pure (some []) otherwise (do
            rest ← receive_dump turns sock received
            pure (listed_before (messages (to_nat r.ret) received (to_nat r.ret)) rest)))

-- The request: a header, and `struct ifaddrmsg` for every family.
unfoldable pub dump_request : ℕ → List ℕ
dump_request pid = le32 24 ++ (le16 22 ++ (le16 0x301 ++ (le32 0 ++ (le32 pid ++ replicate 8 0))))

-- `main`. Of the log it has the lines about addresses, which are logged at the level INFO; the lines that
-- report the steps of the program at this level (the socket, the request, the bytes received, an error
-- and the end of the dump), and all at DEBUG, are left out.
unfoldable pub nl_get_ipaddr : ℕ → Sys (Option (List Line))
nl_get_ipaddr turns = do
  s ← call (socket 16 3 0)
  when is_neg s.ret run (do call perror; exit 1) otherwise (do
    own ← call getpid
    b ← call (bind s.ret (netlink 16 (to_nat own.ret) 0))
    when is_neg b.ret run (do call perror; call (close s.ret); exit 1) otherwise (do
      again ← call getpid
      sent ← call (sendto s.ret (dump_request (to_nat again.ret)) (netlink 16 0 0))
      when is_neg sent.ret
          run (do call perror; call (close s.ret); exit 1)
          otherwise receive_dump turns s.ret (replicate buf_size 0)))
