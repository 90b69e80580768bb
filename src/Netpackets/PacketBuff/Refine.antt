-- ===== src/Netpackets/PacketBuff/Refine.antt =====
-- A valid buffer behaves as a byte string that grows and shrinks at its end and holds at most
-- `capacity` bytes.
use socketlab.Base.{
  ℕ, zero, suc, ◌+◌, ◌-◌, ◌≤◌, ◌<◌, ◌≡◌, refl, sym, ap, List, [], ◌∷◌, ◌++◌, append_assoc, Option,
  none, some, leb→le, Bool-cases, inl, inr, arith, length, take, drop, leb, if◌then◌else◌,
  length-append, length-take, take-append,
}
use socketlab.Netpackets.PacketBuff.Spec
use socketlab.Netpackets.PacketBuff.Spec.{Cmd, put, drop_last, clear}
use mathlib.Core.Option
use socketlab.Netpackets.PacketBuff.{
  PacketBuff, reset, push, pop, copy_to, store, append, contents, len_of,
}
use socketlab.Netpackets.PacketBuff.Inv.{IsValid, reset-IsValid, pop-IsValid, append-IsValid}

pub length-contents : {p : PacketBuff} → IsValid p → length (contents p) ≡ p.data_len
unfolding contents len_of
length-contents {p} v = omega (arith, length-take p.data_len p.bytes)

take-overwrite :
    (i : ℕ) (src bytes rest : List ℕ)
    → i ≤ length bytes
    → take (i + length src) (take i bytes ++ (src ++ rest)) ≡ take i bytes ++ src
take-overwrite i src bytes rest h =
    rw (← append_assoc, ← len) (take-append (take i bytes ++ src) rest)
  where
    len : length (take i bytes ++ src) ≡ i + length src
    len = omega (arith, length-append (take i bytes) src, length-take i bytes)

take-take : (n m : ℕ) (xs : List ℕ) → n ≤ m → take n (take m xs) ≡ take n xs
take-take zero m xs h = refl
take-take (suc n) zero xs h = absurd (omega arith)
take-take (suc n) (suc m) [] h = refl
take-take (suc n) (suc m) (x ∷ xs) h = ap (λ l. x ∷ l) (take-take n m xs (omega arith))

module _ {p : PacketBuff} (v : IsValid p) where
  -- `pktb_push` with room: the old end is returned, and the end moves.
  pub push_room :
      (n : ℕ)
      → p.data_len + n ≤ p.capacity
      → push p n ≡ (some p.tail, record p { tail = p.tail + n; data_len = p.data_len + n })
  unfolding push
  push_room n h = ground arith

  -- `pktb_push` without room returns NULL and changes nothing.
  pub push_full : (n : ℕ) → p.capacity < p.data_len + n → push p n ≡ (none, p)
  unfolding push
  push_full n h = ground arith

  pub pop_enough :
      (n : ℕ)
      → n ≤ p.data_len
      → pop p n ≡ (some (p.tail - n), record p { tail = p.tail - n; data_len = p.data_len - n })
  unfolding pop
  pop_enough n h = ground arith

  pub pop_short : (n : ℕ) → p.data_len < n → pop p n ≡ (none, p)
  unfolding pop
  pop_short n h = ground arith

-- The buffer after `src` has been added at its end.
grown : PacketBuff → List ℕ → PacketBuff
grown p src = record p {
  tail = p.tail + length src;
  data_len = p.data_len + length src;
  bytes = take p.data_len p.bytes ++ (src ++ drop (p.data_len + length src) p.bytes);
}

append-grown :
    {p : PacketBuff} (src : List ℕ)
    → IsValid p
    → p.data_len + length src ≤ p.capacity
    → append p src ≡ some (grown p src)
unfolding append store copy_to grown
append-grown {p} src v h = rw (push_room v (length src) h) (ground arith)

contents-grown :
    {p : PacketBuff} (src : List ℕ) → IsValid p → contents (grown p src) ≡ contents p ++ src
unfolding contents len_of grown
contents-grown {p} src v =
    take-overwrite p.data_len src p.bytes (drop (p.data_len + length src) p.bytes) (omega arith)

grown-IsValid :
    {p : PacketBuff} (src : List ℕ)
    → IsValid p
    → p.data_len + length src ≤ p.capacity
    → IsValid (grown p src)
unfolding grown
grown-IsValid {p} src v h = append-IsValid src v (append-grown src v h)

unfoldable pub exec : PacketBuff → Cmd → Option PacketBuff
unfolding append push pop reset
exec p (put src) = append p src
exec p (drop_last n) = some (pop p n).1
exec p clear = some (reset p)

-- A client's calls in order; `none` is a fault of `append`.
unfoldable pub run : PacketBuff → List Cmd → Option PacketBuff
run p [] = some p
run p (c ∷ cs) = elim (exec p c) [ none ↦ none | some q ↦ run q cs ]

append_full :
    {p : PacketBuff} (src : List ℕ)
    → IsValid p
    → p.capacity < p.data_len + length src
    → append p src ≡ none
unfolding append store
append_full {p} src v h = rw (push_full v (length src) h)

-- `pktb_pop` cuts the last `n` bytes off the contents if there are that many, and else nothing.
contents-pop :
    {p : PacketBuff} (n : ℕ)
    → IsValid p
    → contents (pop p n).1
      ≡ (if leb n p.data_len then take (p.data_len - n) (contents p) else contents p)
unfolding contents len_of
contents-pop {p} n v = elim (Bool-cases (leb n p.data_len)) [
  | inl enough ↦
      rw (enough, pop_enough v n (leb→le _ _ enough))
        (sym (take-take (p.data_len - n) p.data_len p.bytes (omega arith)))
  | inr short ↦ rw (short, pop_short v n (ground arith))
]

contents-reset : (p : PacketBuff) → contents (reset p) ≡ []
unfolding contents len_of reset
contents-reset p = refl

capacity-pop : (p : PacketBuff) (n : ℕ) → (pop p n).1.capacity ≡ p.capacity
unfolding pop
capacity-pop p n = ground arith

-- What one call does to a valid buffer `p`, given the result `r` for it and `s` for its contents.
abbrev Agrees : PacketBuff → Option PacketBuff → Option (List ℕ) → Type 0
Agrees p none s = s ≡ none
Agrees p (some q) s = (s ≡ some (contents q)) × IsValid q × (q.capacity ≡ p.capacity)

exec-Agrees :
    {p : PacketBuff} (c : Cmd)
    → IsValid p
    → Agrees p (exec p c) (Spec.exec p.capacity (contents p) c)
unfolding exec Spec.exec reset grown
exec-Agrees {p} (put src) v = elim (Bool-cases (leb (p.data_len + length src) p.capacity)) [
  | inl fits ↦
      rw (length-contents v, fits, append-grown src v (leb→le _ _ fits))
        (ap some (sym (contents-grown src v)), grown-IsValid src v (leb→le _ _ fits), refl)
  | inr over ↦ rw (length-contents v, over, append_full src v (ground arith))
]
exec-Agrees {p} (drop_last n) v =
    rw length-contents (ap some (sym (contents-pop n v)), pop-IsValid n v, capacity-pop p n)
exec-Agrees {p} clear v = (sym (ap some (contents-reset p)), reset-IsValid v, refl)

-- No sequence of calls tells a valid buffer from the bounded byte string of its contents: the same
-- calls fault, and otherwise the contents agree.
pub run_refines :
    {p : PacketBuff} (cs : List Cmd)
    → IsValid p
    → Option.map contents (run p cs) ≡ Spec.run p.capacity (contents p) cs
unfolding run Spec.run
run_refines [] v = refl
run_refines {p} (c ∷ cs) v = rest (exec p c) (exec-Agrees c v) (λ q w. run_refines {p = q} cs w)
  where
    rest :
        (r : Option PacketBuff)
        → Agrees p r (Spec.exec p.capacity (contents p) c)
        → ((q : PacketBuff)
            → IsValid q
            → Option.map contents (run q cs) ≡ Spec.run q.capacity (contents q) cs)
        → Option.map contents (elim r [ none ↦ none | some q ↦ run q cs ])
          ≡ elim (Spec.exec p.capacity (contents p) c) [
            | none ↦ none
            | some t ↦ Spec.run p.capacity t cs
          ]
    rest none e ih = rw e
    rest (some q) (e, w, k) ih = rw (e, ← k) (ih q w)
