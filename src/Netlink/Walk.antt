-- ===== src/Netlink/Walk.antt =====
-- The loop of src/nl_get_ipaddr.c over the attributes of a message.
use socketlab.Base.{
  ℕ, zero, suc, ◌+◌, ◌-◌, ◌^◌, ◌≤◌, ◌<◌, ◌≡◌, refl, sym, ap, ap₂, ◌∙◌, List, [], ◌∷◌, ◌++◌, Option,
  some, length, take, drop, All, if◌then◌else◌, true, ◌&&◌, leb, arith, length-append,
  length-replicate, take-append, drop-append, append_assoc, Bool-cases, inl, inr,
}
use socketlab.Netlink.{u16_at, aligned, Line, address_size, is_listed, listed_before, attributes}
use socketlab.Netlink.Message.{
  Attribute, padding, attribute_bytes, attributes_bytes, attribute_lines, IsAttribute,
}

length-attribute_bytes :
    (a : Attribute) → length (attribute_bytes a) ≡ aligned (4 + length a.payload)
length-attribute_bytes a = omega (
  arith,
  length-append a.payload (padding (4 + length a.payload)),
  length-replicate {A = ℕ} (aligned (4 + length a.payload) - (4 + length a.payload)) 0,
)

-- The first attribute, its fields, and the step to the next one.
module _ (a : Attribute) (rest : List ℕ) where
  abbrev rta : List ℕ
  rta = attribute_bytes a ++ rest

  rta_len : 4 + length a.payload < 2 ^ 16 → u16_at 0 rta ≡ 4 + length a.payload
  rta_len h = omega arith

  rta_type : a.type < 2 ^ 16 → u16_at 2 rta ≡ a.type
  rta_type h = omega arith

  rta_data : take (length a.payload) (drop 4 rta) ≡ a.payload
  rta_data =
      ap (take (length a.payload)) (append_assoc a.payload (padding (4 + length a.payload)) rest)
      ∙ take-append a.payload (padding (4 + length a.payload) ++ rest)

  rta_next : drop (aligned (4 + length a.payload)) rta ≡ rest
  rta_next =
      ap (λ n. drop n rta) (sym (length-attribute_bytes a)) ∙ drop-append (attribute_bytes a) rest

-- A turn of the loop, for an attribute with this length and type.
abbrev attribute_turn :
    ℕ → (family index : ℕ) → List ℕ → ℕ → (rta_len type : ℕ) → Option (List Line)
attribute_turn turns family index rta len rta_len type =
    let rest = attributes turns family index (drop (aligned rta_len) rta) (len - aligned rta_len) in
    if leb 4 len && leb 4 rta_len && leb rta_len len
    then (if is_listed type
        then listed_before
            (some (
              record {
                ifa_index = index;
                rta_type = type;
                ifa_family = family;
                address = take (address_size family) (drop 4 rta);
              }
              ∷ []))
            rest
        else rest)
    else some []

attributes_step :
    (turns family index len : ℕ) (a : Attribute) (attrs : List Attribute) (rest : List ℕ)
    → IsAttribute family a
    → attributes turns family index rest len ≡ some (attribute_lines family index attrs)
    → attributes
        (suc turns)
        family
        index
        (attribute_bytes a ++ rest)
        (aligned (4 + length a.payload) + len)
      ≡ some (attribute_lines family index (a ∷ attrs))
unfolding attributes
attributes_step turns family index len a attrs rest (short, type, size) e =
    ap₂ (attribute_turn turns family index (rta a rest) (aligned (4 + length a.payload) + len))
      (rta_len a rest short) (rta_type a rest type)
    ∙ elim (Bool-cases (is_listed a.type)) [
      | inl listed ↦
          rw (rta_next a rest, over, e, ok, listed, sym (size listed), rta_data a rest) refl
      | inr unlisted ↦ rw (rta_next a rest, over, e, ok, unlisted) refl
    ]
  where
    over : aligned (4 + length a.payload) + len - aligned (4 + length a.payload) ≡ len
    over = omega arith

    ok :
        leb 4 (aligned (4 + length a.payload) + len)
          && leb 4 (4 + length a.payload)
          && leb (4 + length a.payload) (aligned (4 + length a.payload) + len)
        ≡ true
    ok = ground arith

pub attributes-lines :
    (turns family index : ℕ) (attrs : List Attribute) (rest : List ℕ)
    → All (IsAttribute family) attrs
    → length (attributes_bytes attrs) ≤ turns
    → attributes turns family index
        (attributes_bytes attrs ++ rest)
        (length (attributes_bytes attrs))
      ≡ some (attribute_lines family index attrs)
unfolding attributes
attributes-lines zero family index [] rest h enough = refl
attributes-lines (suc turns) family index [] rest h enough = refl
attributes-lines zero family index (a ∷ attrs) rest h enough = absurd (omega arith)
attributes-lines (suc turns) family index (a ∷ attrs) rest (ha, h) enough =
    ap₂ (attributes (suc turns) family index) (append_assoc (attribute_bytes a) bytes rest) lengths
    ∙ attributes_step turns family index (length bytes) a attrs (bytes ++ rest) ha
        (attributes-lines turns family index attrs rest h (omega (arith, lengths)))
  where
    bytes : List ℕ
    bytes = attributes_bytes attrs

    lengths :
        length (attribute_bytes a ++ attributes_bytes attrs)
        ≡ aligned (4 + length a.payload) + length (attributes_bytes attrs)
    lengths =
        length-append (attribute_bytes a) (attributes_bytes attrs)
        ∙ ap (λ n. n + length (attributes_bytes attrs)) (length-attribute_bytes a)
