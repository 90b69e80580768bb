-- ===== src/Netpackets/PacketBuff/Spec.antt =====
-- A packet buffer as its clients see it: a byte string with a limit, and the calls that change it.
use socketlab.Base.{
  ℕ, ◌+◌, ◌-◌, List, [], ◌∷◌, ◌++◌, Option, none, some, length, take, leb, if◌then◌else◌,
}

-- `put` is `pktb_push` and the stores of the pushed bytes, `drop_last` is `pktb_pop` and `clear` is
-- `pktb_reset`.
pub data Cmd : Type 0 where
  put : List ℕ → Cmd
  drop_last : ℕ → Cmd
  clear : Cmd

unfoldable pub exec : ℕ → List ℕ → Cmd → Option (List ℕ)
exec cap s (put src) = if leb (length s + length src) cap then some (s ++ src) else none
exec cap s (drop_last n) = some (if leb n (length s) then take (length s - n) s else s)
exec cap s clear = some []

unfoldable pub run : ℕ → List ℕ → List Cmd → Option (List ℕ)
run cap s [] = some s
run cap s (c ∷ cs) = elim (exec cap s c) [ none ↦ none | some t ↦ run cap t cs ]
