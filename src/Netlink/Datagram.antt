-- ===== src/Netlink/Datagram.antt =====
-- The loop of src/nl_get_ipaddr.c over the messages of a datagram.
use socketlab.Base.{
  ℕ, zero, suc, ◌+◌, ◌-◌, ◌^◌, ◌≤◌, ◌<◌, ◌≡◌, ◌≢◌, refl, sym, ap, ap₂, ◌∙◌, List, [], ◌∷◌, ◌++◌,
  Option, none, some, length, drop, concat, map, All, if◌then◌else◌, true, false, ◌&&◌, ◌==◌, leb,
  arith, false, length-append, length-replicate, drop-append, append_assoc,
}
use socketlab.Netlink.{u16_at, u32_at, aligned, Line, attributes, listed_before, new_addr, messages}
use socketlab.Netlink.Message.{
  Message, Header, Attribute, address, other, padding, attributes_bytes, with_header, body, type_of,
  message_bytes, attribute_lines, message_lines, IsMessage, IsAttribute,
}
use socketlab.Netlink.Walk.{attributes-lines}

abbrev pub datagram : Header → List Message → List ℕ
datagram h ms = concat (map (message_bytes h) ms)

abbrev pub lines : List Message → List Line
lines ms = concat (map message_lines ms)

-- The first message, its fields, and the step to the next one.
module _ (type : ℕ) (h : Header) (content rest : List ℕ) where
  abbrev nh : List ℕ
  nh = with_header type h content ++ rest

  length-with_header : length (with_header type h content) ≡ aligned (16 + length content)
  length-with_header = omega (
    arith,
    length-append content (padding (16 + length content)),
    length-replicate {A = ℕ} (aligned (16 + length content) - (16 + length content)) 0,
  )

  nlmsg_len : 16 + length content < 2 ^ 32 → u32_at 0 nh ≡ 16 + length content
  nlmsg_len short = omega arith

  pub nlmsg_type : type < 2 ^ 16 → u16_at 4 nh ≡ type
  nlmsg_type short = omega arith

  nlmsg_data : drop 16 nh ≡ content ++ (padding (16 + length content) ++ rest)
  nlmsg_data = append_assoc content (padding (16 + length content)) rest

  nlmsg_next : drop (aligned (16 + length content)) nh ≡ rest
  nlmsg_next =
      ap (λ n. drop n nh) (sym length-with_header) ∙ drop-append (with_header type h content) rest

-- A turn of the loop, for a message with this length and type.
abbrev message_turn : ℕ → List ℕ → ℕ → (nlmsg_len type : ℕ) → Option (List Line)
message_turn turns nh n nlmsg_len type =
    let rest = messages turns (drop (aligned nlmsg_len) nh) (n - aligned nlmsg_len) in
    if leb 16 n && leb 16 nlmsg_len && leb nlmsg_len n
    then (if type == 2
        then some []
        else (if type == 20
            then listed_before (new_addr (drop 16 nh) (nlmsg_len - 24)) rest
            else rest))
    else some []

-- A message of which NLMSG_OK holds.
message_turn_ok :
    (turns type len : ℕ) (h : Header) (content rest : List ℕ)
    → type < 2 ^ 16
    → 16 + length content < 2 ^ 32
    → messages
        (suc turns)
        (with_header type h content ++ rest)
        (aligned (16 + length content) + len)
      ≡ (if type == 2
          then some []
          else (if type == 20
              then listed_before
                  (new_addr
                    (content ++ (padding (16 + length content) ++ rest))
                    (length content - 8))
                  (messages turns rest len)
              else messages turns rest len))
unfolding messages
message_turn_ok turns type len h content rest ht hl =
    ap₂ (message_turn turns (nh type h content rest) (aligned (16 + length content) + len))
      (nlmsg_len type h content rest hl) (nlmsg_type type h content rest ht)
    ∙ rw (nlmsg_next type h content rest, nlmsg_data type h content rest, over, room, ok) refl
  where
    over : aligned (16 + length content) + len - aligned (16 + length content) ≡ len
    over = omega arith

    room : 16 + length content - 24 ≡ length content - 8
    room = omega arith

    ok :
        leb 16 (aligned (16 + length content) + len)
          && leb 16 (16 + length content)
          && leb (16 + length content) (aligned (16 + length content) + len)
        ≡ true
    ok = ground arith

new_addr-lines :
    (family prefixlen flags scope index : ℕ) (attrs : List Attribute) (rest : List ℕ)
    → index < 2 ^ 32
    → All (IsAttribute family) attrs
    → new_addr
        (body (address family prefixlen flags scope index attrs) ++ rest)
        (length (body (address family prefixlen flags scope index attrs)) - 8)
      ≡ some (attribute_lines family index attrs)
unfolding new_addr
new_addr-lines family prefixlen flags scope index attrs rest hi h =
    ap₂ (λ i n. attributes n family i (attributes_bytes attrs ++ rest) n) whole size
    ∙ attributes-lines (length (attributes_bytes attrs)) family index attrs rest h (omega arith)
  where
    whole : u32_at 4 (body (address family prefixlen flags scope index attrs) ++ rest) ≡ index
    whole = omega arith

    size :
        length (body (address family prefixlen flags scope index attrs)) - 8
        ≡ length (attributes_bytes attrs)
    size = omega arith

listed_nothing : (more : Option (List Line)) → listed_before (some []) more ≡ more
listed_nothing none = refl
listed_nothing (some more) = refl

message_step :
    (turns len : ℕ) (h : Header) (m : Message) (rest : List ℕ)
    → IsMessage m
    → messages (suc turns) (message_bytes h m ++ rest) (aligned (16 + length (body m)) + len)
      ≡ listed_before (some (message_lines m)) (messages turns rest len)
message_step turns len h (address family prefixlen flags scope index attrs) rest (hi, ha, hl) =
    message_turn_ok turns 20 len h (body (address family prefixlen flags scope index attrs)) rest
      (omega arith) (omega arith)
    ∙ ap (λ l. listed_before l (messages turns rest len))
        (new_addr-lines family prefixlen flags scope index attrs
          (padding (16 + length (body (address family prefixlen flags scope index attrs))) ++ rest)
          hi ha)
message_step turns len h (other type payload) rest (ht, not_error, not_address, hl) =
    message_turn_ok turns type len h payload rest ht hl
    ∙ rw (differs 2 not_error, differs 20 not_address)
        (sym (listed_nothing (messages turns rest len)))
  where
    differs : (n : ℕ) → type ≢ n → (type == n) ≡ false
    differs n h = ground arith

-- A datagram of messages without an error is gone through to its end, within as many turns as it has
-- bytes: the lines are those of its addresses, in order.
pub messages-lines :
    (turns : ℕ) (h : Header) (ms : List Message) (rest : List ℕ)
    → All IsMessage ms
    → length (datagram h ms) ≤ turns
    → messages turns (datagram h ms ++ rest) (length (datagram h ms)) ≡ some (lines ms)
unfolding messages
messages-lines zero h [] rest v enough = refl
messages-lines (suc turns) h [] rest v enough = refl
messages-lines zero h (m ∷ ms) rest v enough = absurd (omega arith)
messages-lines (suc turns) h (m ∷ ms) rest (vm, v) enough =
    ap₂ (messages (suc turns)) (append_assoc (message_bytes h m) (datagram h ms) rest) lengths
    ∙ message_step turns (length (datagram h ms)) h m (datagram h ms ++ rest) vm
    ∙ ap (listed_before (some (message_lines m)))
        (messages-lines turns h ms rest v (omega (arith, lengths)))
  where
    lengths :
        length (message_bytes h m ++ datagram h ms)
        ≡ aligned (16 + length (body m)) + length (datagram h ms)
    lengths =
        length-append (message_bytes h m) (datagram h ms)
        ∙ ap (λ n. n + length (datagram h ms)) (length-with_header (type_of m) h (body m) [])
