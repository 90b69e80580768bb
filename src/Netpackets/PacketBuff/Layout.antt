-- ===== src/Netpackets/PacketBuff/Layout.antt =====
-- A buffer of a known size at a known address, and its operations at known places: what the programs
-- that build a frame in a buffer use.
use socketlab.Base.{
  ℕ, ◌+◌, ◌^◌, ◌≤◌, ◌<◌, ◌≡◌, refl, ap, List, ◌++◌, Option, some, arith, length, take, drop,
  replicate, u64,
}
use socketlab.Netpackets.PacketBuff.{
  PacketBuff, header_size, fresh, alloc, push, copy_to, contents, len_of,
}

-- The buffer of `capacity` bytes in the block at `base`, of which the first `used` are taken.
pub laid : ℕ → ℕ → ℕ → List ℕ → PacketBuff
laid base capacity used bytes = record {
  data_start = base + header_size;
  head = base + header_size;
  end = base + header_size + capacity;
  tail = base + header_size + used;
  data_len = used;
  capacity = capacity;
  size = header_size + capacity;
  bytes = bytes;
}

module _ (base capacity : ℕ) (small : header_size + capacity < 2 ^ 32)
    (placed : base + header_size + capacity < 2 ^ 64) where
  pub alloc-laid :
      (malloc : ℕ → Option ℕ)
      → malloc (header_size + capacity) ≡ some base
      → alloc malloc capacity ≡ some (laid base capacity 0 (replicate capacity 0))
  unfolding alloc fresh laid
  alloc-laid malloc e = rw (alloc, no_wrap, e) (ap some (ground (arith, no_wrap)))
    where
      no_wrap : u64 (header_size + capacity) ≡ header_size + capacity
      no_wrap = omega arith

  pub push-laid :
      (used n : ℕ) (bytes : List ℕ)
      → used + n ≤ capacity
      → push (laid base capacity used bytes) n
        ≡ (some (base + header_size + used), laid base capacity (used + n) bytes)
  unfolding push laid
  push-laid used n bytes h = ground arith

  pub copy_to-laid :
      (used i : ℕ) (src bytes : List ℕ)
      → i + length src ≤ capacity
      → copy_to (laid base capacity used bytes) (base + header_size + i) src
        ≡ some (laid base capacity used (take i bytes ++ (src ++ drop (i + length src) bytes)))
  unfolding copy_to laid
  copy_to-laid used i src bytes h = ground arith

  pub contents-laid :
      (used : ℕ) (bytes : List ℕ) → contents (laid base capacity used bytes) ≡ take used bytes
  unfolding contents len_of laid
  contents-laid used bytes = refl
