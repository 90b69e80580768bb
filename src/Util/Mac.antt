-- ===== src/Util/Mac.antt =====
-- `mac_aton` and `mac_ntoa` of include/util.c and of lib/netpackets/src/helper.c, which have the same
-- text, with what they use of `sscanf` and `snprintf`.
pub mod RoundTrip
use socketlab.Base.{
  ℕ, zero, suc, ◌+◌, ◌-◌, ◌*◌, ◌/◌, ◌%◌, ◌^◌, List, [], ◌∷◌, ◌++◌, Option, none, some, Bool, true,
  false, ◌&&◌, ◌||◌, ◌==◌, leb, ltb, if◌then◌else◌, u8, u64, length, drop, take,
}
use socketlab.Base.Int.{ℤ, pos, negsuc}

-- The value of a hexadecimal digit.
unfoldable pub hex_value : ℕ → Option ℕ
hex_value c =
    if leb 48 c && leb c 57
    then some (c - 48)
    else if leb 97 c && leb c 102
    then some (c - 87)
    else if leb 65 c && leb c 70
    then some (c - 55)
    else none

unfoldable pub skip_space : List ℕ → List ℕ
skip_space [] = []
skip_space (c ∷ s) =
    let rest = skip_space s in if (c == 32) || (leb 9 c && leb c 13) then rest else c ∷ s

-- An optional sign; true for a minus.
unfoldable pub sign : List ℕ → Bool × List ℕ
sign [] = (false, [])
sign (c ∷ s) = if c == 45 then (true, s) else if c == 43 then (false, s) else (false, c ∷ s)

-- An optional `0x`.
unfoldable pub prefix : List ℕ → List ℕ
prefix (a ∷ b ∷ s) = if (a == 48) && ((b == 120) || (b == 88)) then s else a ∷ b ∷ s
prefix s = s

-- The digits at the start, read onto `acc`.
unfoldable pub digits : List ℕ → ℕ → ℕ × List ℕ
digits [] acc = (acc, [])
digits (c ∷ s) acc = elim (hex_value c) [ none ↦ (acc, c ∷ s) | some d ↦ digits s (acc * 16 + d) ]

-- `strtoul` stops at ULONG_MAX, and `hh` keeps the low byte.
unfoldable pub to_byte : Bool → ℕ → ℕ
to_byte minus v = if leb (2 ^ 64) v then 255 else u8 (if minus then u64 (2 ^ 64 - v) else v)

-- `%hhx`: the byte, and the text behind it; `none` without a digit.
unfoldable pub scan_digits : Bool → List ℕ → Option (ℕ × List ℕ)
scan_digits minus [] = none
scan_digits minus (c ∷ s) = elim (hex_value c) [
  | none ↦ none
  | some d ↦ let r = digits s d in some (to_byte minus r.0, r.1)
]

unfoldable pub scan_hex : List ℕ → Option (ℕ × List ℕ)
scan_hex s = let t = sign (skip_space s) in scan_digits t.0 (prefix t.1)

abbrev pub colon : List ℕ → Option (List ℕ)
colon [] = none
colon (c ∷ s) = if c == 58 then some s else none

-- The bytes that `sscanf` stores for `n` fields with colons between them.
unfoldable pub fields : ℕ → List ℕ → List ℕ
fields zero s = []
fields (suc n) s = elim (scan_hex s) [
  | none ↦ []
  | some (b, rest) ↦ b ∷ elim (colon rest) [ none ↦ [] | some t ↦ fields n t ]
]

-- The value returned, and the six bytes afterwards, of which `old` was there before.
unfoldable pub mac_aton : List ℕ → List ℕ → ℤ × List ℕ
mac_aton s old =
    let read = fields 6 s in
    (if length read == 6 then pos 0 else negsuc 0, read ++ drop (length read) old)

unfoldable pub hex_char : ℕ → ℕ
hex_char d = if ltb d 10 then 48 + d else 87 + d

-- `%02x`
unfoldable pub hex_byte : ℕ → List ℕ
hex_byte b = hex_char (b / 16) ∷ hex_char (b % 16) ∷ []

unfoldable pub join : List ℕ → List ℕ
join [] = []
join (b ∷ []) = hex_byte b
join (b ∷ mac) = hex_byte b ++ (58 ∷ join mac)

-- The first six bytes as text; it fits in the 32 bytes of the static array.
unfoldable pub mac_ntoa : List ℕ → List ℕ
mac_ntoa mac = join (take 6 mac)
