-- ===== src/Netpackets/PacketBuff.antt =====
-- lib/netpackets/src/packet_buff.c: a buffer in one block of memory, with a header `struct
-- packet_buff` and a data area behind it. Addresses are numbers; `bytes` is the memory of the data
-- area. `malloc` is a parameter.
pub mod Spec
pub mod Inv
pub mod Refine
pub mod Layout
mod Tests
use socketlab.Base.{
  ℕ, ◌+◌, ◌-◌, ◌%◌, ◌^◌, List, ◌++◌, Option, none, some, Bool, u32, u64, ltb, leb, length, take,
  drop, replicate, if◌then◌else◌, ◌&&◌,
}

-- `struct packet_buff`: four pointers and three `uint32_t`.
pub record PacketBuff : Type 0 where
  pub data_start : ℕ
  pub head : ℕ
  pub end : ℕ
  pub tail : ℕ
  pub data_len : ℕ
  pub capacity : ℕ
  pub size : ℕ
  pub bytes : List ℕ

-- `sizeof(struct packet_buff)`: 44 bytes of fields, aligned to 8.
abbrev pub header_size : ℕ
header_size = 48

-- The difference of two pointers, as the `size_t` that it is compared with.
abbrev pub ptr_diff : ℕ → ℕ → ℕ
ptr_diff p q = u64 (p + 2 ^ 64 - q)

-- The block at `base`, after `memset` and the assignments of `pktb_alloc`.
pub fresh : ℕ → ℕ → PacketBuff
fresh base n = record {
  data_start = u64 (base + header_size);
  head = u64 (base + header_size);
  end = u64 (base + header_size + n);
  tail = u64 (base + header_size);
  data_len = 0;
  capacity = u32 n;
  size = u32 (header_size + n);
  bytes = replicate (u64 (header_size + n) - header_size) 0;
}

-- `malloc` answers a request for bytes by an address, or by `none` for NULL.
pub alloc : (ℕ → Option ℕ) → ℕ → Option PacketBuff
unfolding fresh
alloc malloc n = elim (malloc (u64 (header_size + n))) [
  | none ↦ none
  | some base ↦ some (fresh base n)
]

pub reset : PacketBuff → PacketBuff
reset p = record p { tail = p.head; data_len = 0 }

-- The pointer returned (`none` for NULL), and the buffer afterwards.
pub push : PacketBuff → ℕ → Option ℕ × PacketBuff
push p len = if ltb (ptr_diff p.end p.tail) len then (none, p) else (
  some p.tail,
  record p { tail = u64 (p.tail + len); data_len = u32 (p.data_len + u32 len) },
)

pub pop : PacketBuff → ℕ → Option ℕ × PacketBuff
pop p len = if ltb (ptr_diff p.tail p.head) len then (none, p) else (
  some (ptr_diff p.tail len),
  record p { tail = ptr_diff p.tail len; data_len = u32 (p.data_len + 2 ^ 32 - u32 len) },
)

pub size_of : PacketBuff → ℕ
size_of p = p.size

pub len_of : PacketBuff → ℕ
len_of p = p.data_len

-- `memcpy(at, src, n)` into the data area; `none` is a write outside it.
pub copy_to : PacketBuff → ℕ → List ℕ → Option PacketBuff
copy_to p at src =
    if leb p.data_start at && leb (at + length src) p.end
    then some (record p { bytes = take i p.bytes ++ (src ++ drop (i + length src) p.bytes) })
    else none
  where
    i : ℕ
    i = at - p.data_start

-- A client adds bytes by `pktb_push` and stores through the pointer that it returned. `none` is a
-- fault: a store through NULL, or outside the data area.
store : Option ℕ × PacketBuff → List ℕ → Option PacketBuff
unfolding copy_to
store (none, p) src = none
store (some at, p) src = copy_to p at src

pub append : PacketBuff → List ℕ → Option PacketBuff
unfolding push store
append p src = store (push p (length src)) src

-- What `send_frame(itf, pktb->data, pktb_data_len(pktb))` sends.
pub contents : PacketBuff → List ℕ
unfolding len_of
contents p = take (len_of p) p.bytes
