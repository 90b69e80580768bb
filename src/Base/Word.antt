-- ===== src/Base/Word.antt =====
-- C's fixed-width integers as native numbers, byte order, and the bytes of an integer in memory.
-- The host is little-endian, as are the x86-64 and ARM machines that the programs run on.
use Prim.Native.Nat.{ℕ, ◌+◌, ◌*◌, ◌/◌, ◌%◌, ◌^◌, ◌<◌}
use mathlib.Core.Path.{◌≡◌}
use mathlib.Core.List.{List, [], ◌∷◌}
use native.Mathlib.Omega.{arith}

abbrev pub u8 : ℕ → ℕ
u8 n = n % 2 ^ 8

abbrev pub u16 : ℕ → ℕ
u16 n = n % 2 ^ 16

abbrev pub u32 : ℕ → ℕ
u32 n = n % 2 ^ 32

abbrev pub u64 : ℕ → ℕ
u64 n = n % 2 ^ 64

infixl 75 ◌<<<◌ ◌>>>◌
abbrev pub ◌<<<◌ : ℕ → ℕ → ℕ
x <<< k = x * 2 ^ k

abbrev pub ◌>>>◌ : ℕ → ℕ → ℕ
x >>> k = x / 2 ^ k

-- `htons` and `ntohs`: the two bytes of a `uint16_t` change places.
unfoldable pub htons : ℕ → ℕ
htons n = n % 256 * 256 + n / 256 % 256

-- `htonl` and `ntohl`: the four bytes of a `uint32_t` are reversed.
unfoldable pub htonl : ℕ → ℕ
htonl n = n % 256 * 16777216 + n / 256 % 256 * 65536 + n / 65536 % 256 * 256 + n / 16777216 % 256

-- The bytes of a `uint16_t` and a `uint32_t` in memory, lowest first.
abbrev pub le16 : ℕ → List ℕ
le16 n = n % 256 ∷ n / 256 % 256 ∷ []

abbrev pub le32 : ℕ → List ℕ
le32 n = n % 256 ∷ n / 256 % 256 ∷ n / 65536 % 256 ∷ n / 16777216 % 256 ∷ []

-- The bytes of a number on the wire, highest first.
abbrev pub be16 : ℕ → List ℕ
be16 n = n / 256 % 256 ∷ n % 256 ∷ []

abbrev pub be32 : ℕ → List ℕ
be32 n = n / 16777216 % 256 ∷ n / 65536 % 256 ∷ n / 256 % 256 ∷ n % 256 ∷ []

abbrev pub IsByte : ℕ → Type 0
IsByte b = b < 256

pub htons_invol : (n : ℕ) → n < 2 ^ 16 → htons (htons n) ≡ n
unfolding htons
htons_invol n h = omega arith

pub htons-lt : (n : ℕ) → htons n < 2 ^ 16
unfolding htons
htons-lt n = omega arith

pub htonl_invol : (n : ℕ) → n < 2 ^ 32 → htonl (htonl n) ≡ n
unfolding htonl
htonl_invol n h = omega arith

pub htonl-lt : (n : ℕ) → htonl n < 2 ^ 32
unfolding htonl
htonl-lt n = omega arith

-- `htons` turns the bytes in memory into network byte order.
pub le16-htons : (n : ℕ) → n < 2 ^ 16 → le16 (htons (u16 n)) ≡ be16 n
unfolding htons
le16-htons n h = ground arith

pub le32-htonl : (n : ℕ) → n < 2 ^ 32 → le32 (htonl n) ≡ be32 n
unfolding htonl
le32-htonl n h = ground arith
