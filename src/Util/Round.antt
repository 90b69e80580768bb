-- ===== src/Util/Round.antt =====
-- The functions on numbers of include/util.c. A value of `int` is its 32-bit pattern.
pub mod Power
use socketlab.Base.{
  ℕ, zero, suc, ◌+◌, ◌-◌, ◌*◌, ◌/◌, ◌%◌, ◌^◌, bit_and, bit_or, u32, u64, ◌<<<◌, ◌>>>◌, ◌==◌, ltb,
  if◌then◌else◌,
}

-- `x & (x - 1)`
abbrev pub clear_lowest : ℕ → ℕ
clear_lowest x = bit_and x (u32 (x + 2 ^ 32 - 1))

-- The loop of `round_two`: the last `x` before it becomes 0. It gets smaller in every turn, so `x`
-- itself is enough fuel.
unfoldable pub keep_highest : ℕ → ℕ → ℕ
keep_highest zero x = x
keep_highest (suc n) x =
    let rest = keep_highest n (clear_lowest x) in if clear_lowest x == 0 then x else rest

unfoldable pub round_two : ℕ → ℕ
unfolding keep_highest
round_two x =
    if x == 0
    then 1
    else if x == 1
    then 2
    else if clear_lowest x == 0
    then x
    else u32 (keep_highest x x <<< 1)

unfoldable pub reverse32 : ℕ → ℕ
reverse32 x =
    bit_or
      (bit_or (bit_or (u32 (x <<< 24)) (bit_and (u32 (x <<< 8)) 0x00ff0000))
        (bit_and (x >>> 8) 0x0000ff00))
      (x >>> 24)

unfoldable pub u64_min : ℕ → ℕ → ℕ
u64_min a b = if ltb a b then a else b

unfoldable pub u64_max : ℕ → ℕ → ℕ
u64_max a b = if ltb b a then a else b

-- The seconds and nanoseconds of the clock as milli- and microseconds.
unfoldable pub timestamp_ms : ℕ → ℕ → ℕ
timestamp_ms sec nsec = u64 (u64 sec * 1000 + u64 nsec / 1000000)

unfoldable pub timestamp_us : ℕ → ℕ → ℕ
timestamp_us sec nsec = u64 (u64 sec * 1000000 + u64 nsec / 1000)
