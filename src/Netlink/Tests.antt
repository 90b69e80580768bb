-- ===== src/Netlink/Tests.antt =====
-- The addresses of a loopback interface and of eth0.
use socketlab.Base.{ℕ, ◌≡◌, refl, List, [], ◌∷◌, drop, length, some, arith, All}
use socketlab.Base.Int.{pos}
use socketlab.Sys.{Reply, Env, socket, sendto, recvmsg, getpid, done}
use socketlab.Sys.Files.{open_fds}
use socketlab.Netlink.{Line, messages, attributes, new_addr, nl_get_ipaddr, rta_type_str}
use socketlab.Netlink.Message.{Attribute, Message, Header, address, with_header, IsMessage}
use socketlab.Netlink.Datagram.{datagram}
use socketlab.Netlink.Dump.{receiving, asked, nl_get_ipaddr-lists}
use socketlab.Netlink.Turns.{walk_ends}
use socketlab.Netlink.Errors.{Closes, nl_get_ipaddr-Closes}

abbrev header : Header
header = record { flags = 2; seq = 0; pid = 77 }

abbrev localhost : List ℕ
localhost = 127 ∷ 0 ∷ 0 ∷ 1 ∷ []

abbrev own : List ℕ
own = 192 ∷ 168 ∷ 1 ∷ 7 ∷ []

abbrev everyone : List ℕ
everyone = 192 ∷ 168 ∷ 1 ∷ 255 ∷ []

abbrev attribute : ℕ → List ℕ → Attribute
attribute type payload = record { type = type; payload = payload }

-- The label "lo" with its end is three bytes, so a byte of padding follows.
abbrev lo : Message
lo =
    address 2 8 128 254 1
      (attribute 1 localhost ∷ attribute 2 localhost ∷ attribute 3 (108 ∷ 111 ∷ 0 ∷ []) ∷ [])

abbrev eth0 : Message
eth0 = address 2 24 128 0 2 (attribute 1 own ∷ attribute 4 everyone ∷ [])

abbrev answer : List Message
answer = lo ∷ eth0 ∷ []

abbrev line : ℕ → ℕ → List ℕ → Line
line index type bytes = record {
  ifa_index = index;
  rta_type = type;
  ifa_family = 2;
  address = bytes;
}

abbrev answer_lines : List Line
answer_lines = line 1 1 localhost ∷ line 2 1 own ∷ line 2 4 everyone ∷ []

messages_run :
    messages
      (length (datagram header answer))
      (datagram header answer)
      (length (datagram header answer))
    ≡ some answer_lines
unfolding messages new_addr attributes
messages_run = refl

broadcast_name :
    rta_type_str 12 4 ≡ some (73 ∷ 70 ∷ 65 ∷ 95 ∷ 66 ∷ 82 ∷ 79 ∷ 65 ∷ 68 ∷ 67 ∷ 65 ∷ 83 ∷ 84 ∷ [])
unfolding rta_type_str
broadcast_name = refl

abbrev reply : ℕ → List ℕ → Reply
reply ret out = record { ret = pos ret; out = out; errno = 0 }

abbrev datagram_reply : List ℕ → Reply
datagram_reply bytes = reply (length bytes) bytes

-- The status of the dump.
abbrev status : List ℕ
status = 0 ∷ 0 ∷ 0 ∷ 0 ∷ []

abbrev kernel : Env
kernel t (socket family type protocol) = reply 5 []
kernel t getpid = reply 77 []
kernel (sendto s bytes a ∷ t) (recvmsg sock n) = datagram_reply (datagram header answer)
kernel t (recvmsg sock n) = datagram_reply (with_header 3 header status)
kernel t c = reply 0 []

answer-IsMessage : All IsMessage answer
answer-IsMessage = (
  (
    omega arith,
    (
      (omega arith, omega arith, λ e. refl),
      (
        (omega arith, omega arith, λ e. absurd cc),
        ((omega arith, omega arith, λ e. absurd cc), tt),
      ),
    ),
    omega arith,
  ),
  (
    (
      omega arith,
      ((omega arith, omega arith, λ e. refl), ((omega arith, omega arith, λ e. refl), tt)),
      omega arith,
    ),
    tt,
  ),
)

nl_get_ipaddr-lists_example :
    nl_get_ipaddr 2 kernel []
    ≡ (done (some answer_lines), receiving (pos 5) (answer ∷ []) (asked (pos 5) 77 []))
nl_get_ipaddr-lists_example =
    nl_get_ipaddr-lists 2 5 77 header (answer ∷ []) status kernel [] (refl, refl, refl, refl, refl)
      (
        refl,
        refl,
        (omega arith, (λ e. absurd (omega arith)), answer-IsMessage, omega arith),
        (refl, refl),
      )
      (omega arith)

-- All the bytes of the answer, and the attributes of the loopback interface.
walk_ends_example :
    ((lines : List Line) × (messages 88 (datagram header answer) 88 ≡ some lines)
      × (messages 99 (datagram header answer) 88 ≡ some lines))
    × ((lines : List Line) × (attributes 28 2 1 (drop 24 (datagram header answer)) 28 ≡ some lines)
        × (attributes 70 2 1 (drop 24 (datagram header answer)) 28 ≡ some lines))
walk_ends_example =
    walk_ends 2 1 88 28 99 70 (datagram header answer) (drop 24 (datagram header answer))
      (omega arith) (omega arith)

nl_get_ipaddr-Closes_example : Closes kernel [] (pos 5) (nl_get_ipaddr 2 kernel [])
unfolding open_fds
nl_get_ipaddr-Closes_example = nl_get_ipaddr-Closes 2 kernel []
