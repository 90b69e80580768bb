-- ===== src/Netpackets/PacketBuff/Tests.antt =====
-- Runs of the packet buffer at concrete inputs.
use socketlab.Base.{
  ℕ, ◌≡◌, refl, List, [], ◌∷◌, Option, none, some, arith, replicate, leb, if◌then◌else◌,
}
use mathlib.Core.Option
use socketlab.Netpackets.PacketBuff.{
  PacketBuff, fresh, alloc, push, pop, copy_to, append, contents, len_of,
}
use socketlab.Netpackets.PacketBuff.Spec
use socketlab.Netpackets.PacketBuff.Spec.{Cmd, put, drop_last, clear}
use socketlab.Netpackets.PacketBuff.Inv.{IsValid, IsInSpace, alloc-IsValid}
use socketlab.Netpackets.PacketBuff.Refine.{exec, run, run_refines}

-- An allocator that has one block, at 4096, of at most 64 bytes.
abbrev one_block : ℕ → Option ℕ
one_block n = if leb n 64 then some 4096 else none

abbrev eight : PacketBuff
eight = record {
  data_start = 4144;
  head = 4144;
  end = 4152;
  tail = 4144;
  data_len = 0;
  capacity = 8;
  size = 56;
  bytes = replicate 8 0;
}

alloc_run : alloc one_block 8 ≡ some eight
unfolding alloc fresh
alloc_run = refl

one_block-IsInSpace : IsInSpace one_block
one_block-IsInSpace n base e = ground arith

eight-IsValid : IsValid eight
eight-IsValid = (alloc-IsValid one_block 8 one_block-IsInSpace (omega arith) alloc_run).0

abbrev calls : List Cmd
calls = put (1 ∷ 2 ∷ 3 ∷ []) ∷ drop_last 1 ∷ put (9 ∷ []) ∷ drop_last 7 ∷ []

trace : Option.map contents (run eight calls) ≡ some (1 ∷ 2 ∷ 9 ∷ [])
unfolding run exec append push pop copy_to contents len_of
trace = refl

run_refines_example : Option.map contents (run eight calls) ≡ Spec.run 8 (contents eight) calls
run_refines_example = run_refines calls eight-IsValid
