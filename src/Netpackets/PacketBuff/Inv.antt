-- ===== src/Netpackets/PacketBuff/Inv.antt =====
-- The representation invariant of `struct packet_buff`, and that every operation keeps it.
use socketlab.Base.{
  ℕ, ◌+◌, ◌-◌, ◌^◌, ◌≤◌, ◌<◌, ◌≡◌, List, ◌++◌, Option, none, some, arith, length, take, drop, u64,
  Option-cases, inl, inr, length-append, length-take, length-drop, length-replicate,
}
use socketlab.Netpackets.PacketBuff.{
  PacketBuff, header_size, fresh, alloc, reset, push, pop, copy_to, store, append,
}

pub record IsValid (p : PacketBuff) : Type 0 where
  pub head_at : p.head ≡ p.data_start
  pub tail_at : p.tail ≡ p.data_start + p.data_len
  pub end_at : p.end ≡ p.data_start + p.capacity
  pub filled : p.data_len ≤ p.capacity
  pub sized : p.size ≡ header_size + p.capacity
  pub small : p.size < 2 ^ 32
  pub placed : p.end < 2 ^ 64
  pub stored : length p.bytes ≡ p.capacity

-- `malloc` answers with a block that lies in the address space.
abbrev pub IsInSpace : (ℕ → Option ℕ) → Type 0
IsInSpace malloc = (n base : ℕ) → malloc n ≡ some base → base + n < 2 ^ 64

fresh-IsValid :
    (base n : ℕ)
    → n + header_size < 2 ^ 32
    → base + (header_size + n) < 2 ^ 64
    → IsValid (fresh base n)
unfolding fresh
fresh-IsValid base n h k =
    ground (arith, length-replicate {A = ℕ} (u64 (header_size + n) - header_size) 0)

pub reset-IsValid : {p : PacketBuff} → IsValid p → IsValid (reset p)
unfolding reset
reset-IsValid v = omega arith

pub push-IsValid : {p : PacketBuff} (len : ℕ) → IsValid p → IsValid (push p len).1
unfolding push
push-IsValid len v = ground arith

pub pop-IsValid : {p : PacketBuff} (len : ℕ) → IsValid p → IsValid (pop p len).1
unfolding pop
pop-IsValid len v = ground arith

-- Overwriting a part of a list keeps its length.
pub length-overwrite :
    (i : ℕ) (src bytes : List ℕ)
    → i + length src ≤ length bytes
    → length (take i bytes ++ (src ++ drop (i + length src) bytes)) ≡ length bytes
length-overwrite i src bytes h = omega (
  arith,
  length-append (take i bytes) (src ++ drop (i + length src) bytes),
  length-append src (drop (i + length src) bytes),
  length-take i bytes,
  length-drop (i + length src) bytes,
)

pub copy_to-IsValid :
    {p : PacketBuff} (at : ℕ) (src : List ℕ) {q : PacketBuff}
    → IsValid p
    → copy_to p at src ≡ some q
    → IsValid q
unfolding copy_to
copy_to-IsValid {p} at src v e = ground (arith, length-overwrite (at - p.data_start) src p.bytes)

-- A buffer that `pktb_alloc` returns is valid and empty, has the capacity asked for and room for it.
pub alloc-IsValid :
    (malloc : ℕ → Option ℕ) (n : ℕ) {p : PacketBuff}
    → IsInSpace malloc
    → n + header_size < 2 ^ 32
    → alloc malloc n ≡ some p
    → IsValid p × (p.capacity ≡ n) × (p.data_len ≡ 0)
unfolding alloc fresh
alloc-IsValid malloc n {p} space small e = elim (Option-cases (malloc (u64 (header_size + n)))) [
  | inl missing ↦ ground arith
  | inr (base, found) ↦
      ground (arith, fresh-IsValid base n small, space (u64 (header_size + n)) base found)
]

store-IsValid :
    (r : Option ℕ × PacketBuff) (src : List ℕ) {q : PacketBuff}
    → IsValid r.1
    → store r src ≡ some q
    → IsValid q
unfolding store
store-IsValid (none, p) src v e = cc
store-IsValid (some at, p) src v e = copy_to-IsValid at src v e

-- Adding bytes keeps the buffer valid.
pub append-IsValid :
    {p : PacketBuff} (src : List ℕ) {q : PacketBuff} → IsValid p → append p src ≡ some q → IsValid q
unfolding append
append-IsValid {p} src v e = store-IsValid (push p (length src)) src (push-IsValid (length src) v) e
