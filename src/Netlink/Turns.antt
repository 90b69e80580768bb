-- ===== src/Netlink/Turns.antt =====
-- The loops of src/nl_get_ipaddr.c end on every datagram: as many turns as there are bytes are enough.
use socketlab.Base.{
  ℕ, zero, suc, ◌-◌, ◌≤◌, ◌<◌, ◌≡◌, ◌∙◌, ◌==◌, refl, List, [], ◌∷◌, Option, none, some, Bool, false,
  if◌then◌else◌, get_or, take, drop, Bool-cases, inl, inr, true, ◌&&◌, arith, leb,
}
use socketlab.Netlink.{
  Line, address_size, u16_at, u32_at, aligned, rta_ok, is_listed, listed_before, attributes,
  new_addr, nlmsg_ok, messages,
}

-- What is left after a step gets by with a turn less.
advances :
    (least l n f : ℕ)
    → 0 < least
    → (leb least n && leb least l && leb l n) ≡ true
    → n ≤ suc f
    → n - aligned l ≤ f
advances least l n f positive ok h = ground arith

attributes-enough :
    (f g family index : ℕ) (rta : List ℕ) (len : ℕ)
    → len ≤ f
    → len ≤ g
    → attributes f family index rta len ≡ attributes g family index rta len
unfolding attributes
attributes-enough zero zero family index rta len hf hg = refl
attributes-enough zero (suc g) family index rta len hf hg = ground arith
attributes-enough (suc f) zero family index rta len hf hg = ground arith
attributes-enough (suc f) (suc g) family index rta len hf hg = elim (Bool-cases (rta_ok rta len)) [
  | inl ok ↦
      rw
        (
          ok,
          attributes-enough f g family index (drop (aligned (u16_at 0 rta)) rta)
              (len - aligned (u16_at 0 rta)) (advances 4 (u16_at 0 rta) len f (omega arith) ok hf)
              (advances 4 (u16_at 0 rta) len g (omega arith) ok hg),
        )
        refl
  | inr over ↦ rw (over) refl
]

messages-enough :
    (f g : ℕ) (nh : List ℕ) (n : ℕ) → n ≤ f → n ≤ g → messages f nh n ≡ messages g nh n
unfolding messages
messages-enough zero zero nh n hf hg = refl
messages-enough zero (suc g) nh n hf hg = ground arith
messages-enough (suc f) zero nh n hf hg = ground arith
messages-enough (suc f) (suc g) nh n hf hg = elim (Bool-cases (nlmsg_ok nh n)) [
  | inl ok ↦
      rw
        (
          ok,
          messages-enough f g (drop (aligned (u32_at 0 nh)) nh) (n - aligned (u32_at 0 nh))
              (advances 16 (u32_at 0 nh) n f (omega arith) ok hf)
              (advances 16 (u32_at 0 nh) n g (omega arith) ok hg),
        )
        refl
  | inr over ↦ rw (over) refl
]

-- A loop that is over.
abbrev Over : Option (List Line) → Type 0
Over none = ⊥
Over (some lines) = Unit

if-Over : (b : Bool) (r r' : Option (List Line)) → Over r → Over r' → Over (if b then r else r')
if-Over true r r' h k = h
if-Over false r r' h k = k

listed_before-Over : (r r' : Option (List Line)) → Over r → Over r' → Over (listed_before r r')
listed_before-Over (some l) (some l') h k = tt
listed_before-Over (some l) none h k = k
listed_before-Over none r' h k = h

attributes-Over :
    (f family index : ℕ) (rta : List ℕ) (len : ℕ)
    → len ≤ f
    → Over (attributes f family index rta len)
unfolding attributes
attributes-Over zero family index rta len h = ground arith
attributes-Over (suc f) family index rta len h = elim (Bool-cases (rta_ok rta len)) [
  | inl ok ↦
      let rest =
        attributes f family index (drop (aligned (u16_at 0 rta)) rta)
          (len - aligned (u16_at 0 rta)) in
      let k : Over rest =
        attributes-Over f family index (drop (aligned (u16_at 0 rta)) rta)
          (len - aligned (u16_at 0 rta)) (advances 4 (u16_at 0 rta) len f (omega arith) ok h) in
      rw ok (
        if-Over (is_listed (u16_at 2 rta)) (listed_before (some (line ∷ [])) rest) rest
          (listed_before-Over (some (line ∷ [])) rest tt k) k)
  | inr over ↦ rw (over) tt
]
  where
    line : Line
    line = record {
      ifa_index = index;
      rta_type = u16_at 2 rta;
      ifa_family = family;
      address = take (address_size family) (drop 4 rta);
    }

new_addr-Over : (ifa : List ℕ) (len : ℕ) → Over (new_addr ifa len)
unfolding new_addr
new_addr-Over ifa len =
    attributes-Over len (get_or ifa 0 0) (u32_at 4 ifa) (drop 8 ifa) len (omega arith)

messages-Over : (f : ℕ) (nh : List ℕ) (n : ℕ) → n ≤ f → Over (messages f nh n)
unfolding messages
messages-Over zero nh n h = ground arith
messages-Over (suc f) nh n h = elim (Bool-cases (nlmsg_ok nh n)) [
  | inl ok ↦
      let rest = messages f (drop (aligned (u32_at 0 nh)) nh) (n - aligned (u32_at 0 nh)) in
      let added = new_addr (drop 16 nh) (u32_at 0 nh - 24) in
      let k : Over rest =
        messages-Over f (drop (aligned (u32_at 0 nh)) nh) (n - aligned (u32_at 0 nh))
          (advances 16 (u32_at 0 nh) n f (omega arith) ok h) in
      rw ok (
        if-Over (u16_at 4 nh == 2) _ _ tt (
          if-Over (u16_at 4 nh == 20) _ _
            (listed_before-Over _ _ (new_addr-Over (drop 16 nh) (u32_at 0 nh - 24)) k) k))
  | inr over ↦ rw (over) tt
]

Over-lines : (r : Option (List Line)) → Over r → (lines : List Line) × (r ≡ some lines)
Over-lines none h = absurd h
Over-lines (some lines) h = (lines, refl)

-- On any memory, whatever lengths the kernel writes into it, the loop over the messages of `n` bytes
-- is over within `n` turns, the loops over their attributes with it, and any more turns `f` change
-- nothing; and so is the loop over the attributes of `len` bytes within `len` turns.
pub walk_ends :
    (family index n len f g : ℕ) (memory rta : List ℕ)
    → n ≤ f
    → len ≤ g
    → ((lines : List Line) × (messages n memory n ≡ some lines)
        × (messages f memory n ≡ some lines))
      × ((lines : List Line) × (attributes len family index rta len ≡ some lines)
          × (attributes g family index rta len ≡ some lines))
walk_ends family index n len f g memory rta hf hg =
    let (lines, e) = Over-lines (messages n memory n) (messages-Over n memory n (omega arith)) in
    let (lines', e') =
      Over-lines (attributes len family index rta len)
        (attributes-Over len family index rta len (omega arith)) in
    (
      (lines, e, messages-enough f n memory n hf (omega arith) ∙ e),
      (lines', e', attributes-enough g len family index rta len hg (omega arith) ∙ e'),
    )
