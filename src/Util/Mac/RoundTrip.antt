-- ===== src/Util/Mac/RoundTrip.antt =====
-- `mac_aton` reads what `mac_ntoa` writes.
use socketlab.Base.{
  ℕ, zero, suc, ◌+◌, ◌*◌, ◌/◌, ◌%◌, ◌<◌, ◌≡◌, refl, ap, ◌∙◌, List, [], ◌∷◌, ◌++◌, none, some, false,
  arith, length, drop, All, IsByte, take_all, append-nil,
}
use mathlib.Core.Path.{subst}
use socketlab.Base.Int.{pos}
use socketlab.Util.Mac.{
  hex_value, hex_char, hex_byte, skip_space, sign, prefix, digits, colon, to_byte, scan_digits,
  scan_hex, fields, mac_aton, mac_ntoa, join,
}

hex_value-hex_char : (d : ℕ) → d < 16 → hex_value (hex_char d) ≡ some d
unfolding hex_value hex_char
hex_value-hex_char d h = ground arith

-- A digit is no space and no sign, and no `x`.
skip_digit : (d : ℕ) (s : List ℕ) → d < 16 → skip_space (hex_char d ∷ s) ≡ hex_char d ∷ s
unfolding skip_space hex_char
skip_digit d s h = ground arith

sign_digit : (d : ℕ) (s : List ℕ) → d < 16 → sign (hex_char d ∷ s) ≡ (false, hex_char d ∷ s)
unfolding sign hex_char
sign_digit d s h = ground arith

prefix_digits :
    (d e : ℕ) (s : List ℕ)
    → d < 16
    → e < 16
    → prefix (hex_char d ∷ hex_char e ∷ s) ≡ hex_char d ∷ hex_char e ∷ s
unfolding prefix hex_char
prefix_digits d e s h k = ground arith

-- No digit stands at the start of `s`.
abbrev pub Stops : List ℕ → Type 0
Stops s = (acc : ℕ) → digits s acc ≡ (acc, s)

nil-Stops : Stops []
unfolding digits
nil-Stops acc = refl

colon-Stops : (s : List ℕ) → Stops (58 ∷ s)
unfolding digits hex_value
colon-Stops s acc = refl

scan_digits_two :
    (d e : ℕ) (s : List ℕ)
    → d < 16
    → e < 16
    → Stops s
    → scan_digits false (hex_char d ∷ hex_char e ∷ s) ≡ some (d * 16 + e, s)
unfolding scan_digits digits to_byte
scan_digits_two d e s h k stops =
    rw (scan_digits, hex_value-hex_char d h, digits, hex_value-hex_char e k, stops (d * 16 + e))
      (ground arith)

pub scan_hex-hex_byte :
    (b : ℕ) (s : List ℕ) → b < 256 → Stops s → scan_hex (hex_byte b ++ s) ≡ some (b, s)
unfolding scan_hex hex_byte
scan_hex-hex_byte b s h stops =
    rw
      (
        skip_digit (b / 16) (hex_char (b % 16) ∷ s) (omega arith),
        sign_digit (b / 16) (hex_char (b % 16) ∷ s) (omega arith),
        prefix_digits (b / 16) (b % 16) s (omega arith) (omega arith),
        scan_digits_two (b / 16) (b % 16) s (omega arith) (omega arith) stops,
      )
      (ground arith)

fields_step :
    (n b : ℕ) (s : List ℕ)
    → b < 256
    → Stops s
    → fields (suc n) (hex_byte b ++ s) ≡ b ∷ elim (colon s) [ none ↦ [] | some t ↦ fields n t ]
unfolding fields
fields_step n b s h stops = rw (fields, scan_hex-hex_byte b s h stops) refl

join_last : (b : ℕ) → join (b ∷ []) ≡ hex_byte b ++ []
unfolding join hex_byte
join_last b = refl

join_cons : (b c : ℕ) (mac : List ℕ) → join (b ∷ c ∷ mac) ≡ hex_byte b ++ (58 ∷ join (c ∷ mac))
unfolding join
join_cons b c mac = refl

fields-join :
    (mac : List ℕ) → All IsByte mac → 0 < length mac → fields (length mac) (join mac) ≡ mac
fields-join [] h p = absurd (omega arith)
fields-join (b ∷ []) h p = rw (join_last b) (fields_step 0 b [] (omega arith) nil-Stops)
fields-join (b ∷ c ∷ mac) h p = rw (join_cons b c mac) (
    fields_step (suc (length mac)) b (58 ∷ join (c ∷ mac)) (omega arith)
      (colon-Stops (join (c ∷ mac)))
    ∙ ap (λ t. b ∷ t) (fields-join (c ∷ mac) h.1 (omega arith)))

drop_all : (n : ℕ) (xs : List ℕ) → length xs ≡ n → drop n xs ≡ []
drop_all zero [] h = refl
drop_all (suc n) [] h = refl
drop_all zero (x ∷ xs) h = absurd (omega arith)
drop_all (suc n) (x ∷ xs) h = drop_all n xs (omega arith)

-- Reading the text of a MAC gives the MAC, whatever the array held before.
pub mac_aton-mac_ntoa :
    (mac old : List ℕ)
    → length mac ≡ 6
    → length old ≡ 6
    → All IsByte mac
    → mac_aton (mac_ntoa mac) old ≡ (pos 0, mac)
unfolding mac_aton mac_ntoa
mac_aton-mac_ntoa mac old m o h =
    rw (take_all 6 mac (omega arith), read)
      (ground (arith, drop_all 6 old (omega arith), append-nil mac))
  where
    read : fields 6 (join mac) ≡ mac
    read = subst (λ n. fields n (join mac) ≡ mac) m (fields-join mac h (omega arith))
