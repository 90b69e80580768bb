-- ===== src/Netlink/Message.antt =====
-- Netlink messages as the kernel builds them for src/nl_get_ipaddr.c (netlink(7), rtnetlink(7)), and
-- what the program is to log of them.
use socketlab.Base.{
  ◌≢◌, ℕ, ◌+◌, ◌-◌, ◌^◌, ◌<◌, ◌≡◌, List, [], ◌∷◌, ◌++◌, length, replicate, concat, map, All, le16,
  le32, if◌then◌else◌, true,
}
use socketlab.Netlink.{aligned, address_size, is_listed, Line}

pub record Attribute : Type 0 where
  pub type : ℕ
  pub payload : List ℕ

pub data Message : Type 0 where
  address : (family prefixlen flags scope index : ℕ) → List Attribute → Message
  other : (type : ℕ) → (payload : List ℕ) → Message

-- Zeros up to the next multiple of four.
abbrev pub padding : ℕ → List ℕ
padding len = replicate (aligned len - len) 0

abbrev pub attribute_bytes : Attribute → List ℕ
attribute_bytes a =
    le16 (4 + length a.payload) ++ (le16 a.type ++ (a.payload ++ padding (4 + length a.payload)))

abbrev pub attributes_bytes : List Attribute → List ℕ
attributes_bytes attrs = concat (map attribute_bytes attrs)

-- The fields of a header after its length and its type.
pub record Header : Type 0 where
  pub flags : ℕ
  pub seq : ℕ
  pub pid : ℕ

abbrev pub with_header : ℕ → Header → List ℕ → List ℕ
with_header type h content =
    le32 (16 + length content)
    ++ (le16 type
        ++ (le16 h.flags
            ++ (le32 h.seq ++ (le32 h.pid ++ (content ++ padding (16 + length content))))))

abbrev pub body : Message → List ℕ
body (address family prefixlen flags scope index attrs) =
    family ∷ prefixlen ∷ flags ∷ scope ∷ (le32 index ++ attributes_bytes attrs)
body (other type payload) = payload

abbrev pub type_of : Message → ℕ
type_of (address family prefixlen flags scope index attrs) = 20
type_of (other type payload) = type

abbrev pub message_bytes : Header → Message → List ℕ
message_bytes h m = with_header (type_of m) h (body m)

-- The lines for the attributes that have an address.
abbrev pub attribute_lines : (family index : ℕ) → List Attribute → List Line
attribute_lines family index [] = []
attribute_lines family index (a ∷ attrs) =
    if is_listed a.type
    then record { ifa_index = index; rta_type = a.type; ifa_family = family; address = a.payload }
      ∷ attribute_lines family index attrs
    else attribute_lines family index attrs

abbrev pub message_lines : Message → List Line
message_lines (address family prefixlen flags scope index attrs) =
    attribute_lines family index attrs
message_lines (other type payload) = []

-- An attribute fits its length field, and an address has the size of its family.
abbrev pub IsAttribute : ℕ → Attribute → Type 0
IsAttribute family a =
    (4 + length a.payload < 2 ^ 16)
    × (a.type < 2 ^ 16)
    × (is_listed a.type ≡ true → length a.payload ≡ address_size family)

-- A message fits its length field, and is neither an error nor, without the form of an address, one
-- of type RTM_NEWADDR.
abbrev pub IsMessage : Message → Type 0
IsMessage (address family prefixlen flags scope index attrs) =
    (index < 2 ^ 32)
    × All (IsAttribute family) attrs
    × (24 + length (attributes_bytes attrs) < 2 ^ 32)
IsMessage (other type payload) =
    (type < 2 ^ 16) × (type ≢ 2) × (type ≢ 20) × (16 + length payload < 2 ^ 32)
