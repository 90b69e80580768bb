-- ===== src/Util/Text.antt =====
-- `start_with` and `end_with` of include/util.c. A text is its bytes before the zero that ends it.
use socketlab.Base.{
  ℕ, ◌-◌, ◌≡◌, ◌↔◌, refl, sym, ap, ◌∙◌, List, ◌++◌, Bool, true, false, ◌&&◌, leb, length, take,
  drop, arith, take_all, bytes_eq, bytes_eq_sound, bytes_eq_refl, take-append, drop-append,
  take-append-drop, length-append,
}

-- `strncmp(s, t, n) == 0`
abbrev strncmp_eq : List ℕ → List ℕ → ℕ → Bool
strncmp_eq s t n = bytes_eq (take n s) (take n t)

unfoldable pub start_with : List ℕ → List ℕ → Bool
start_with str prefix = leb (length prefix) (length str) && strncmp_eq str prefix (length prefix)

unfoldable pub end_with : List ℕ → List ℕ → Bool
end_with str suffix =
    leb (length suffix) (length str) && bytes_eq (drop (length str - length suffix) str) suffix

and_left : (a b : Bool) → a && b ≡ true → a ≡ true
and_left true b h = refl
and_left false b h = h

and_right : (a b : Bool) → a && b ≡ true → b ≡ true
and_right true b h = h
and_right false b h = ground arith

-- A text starts (ends) with another exactly when it is that text with some text after (before) it.
with_lem :
    (str part : List ℕ)
    → ((start_with str part ≡ true) ↔ ((rest : List ℕ) × (str ≡ part ++ rest)))
      × ((end_with str part ≡ true) ↔ ((rest : List ℕ) × (str ≡ rest ++ part)))
unfolding start_with end_with
with_lem str part = ((starts, starts_back), (ends, ends_back))
  where
    n : ℕ
    n = length part

    starts : start_with str part ≡ true → (rest : List ℕ) × (str ≡ part ++ rest)
    starts h =
        let same =
          bytes_eq_sound (take n str) (take n part)
            (and_right (leb n (length str)) (strncmp_eq str part n) h) in
        (
          drop n str,
          sym (take-append-drop n str)
              ∙ ap (λ l. l ++ drop n str) (same ∙ take_all n part (omega arith)),
        )

    starts_back : ((rest : List ℕ) × (str ≡ part ++ rest)) → start_with str part ≡ true
    starts_back (rest, e) =
        rw (e, ge, take-append part rest, take_all n part (omega arith), bytes_eq_refl part) refl
      where
        ge : leb n (length (part ++ rest)) ≡ true
        ge = ground (arith, length-append part rest)

    ends : end_with str part ≡ true → (rest : List ℕ) × (str ≡ rest ++ part)
    ends h = (
      take (length str - n) str,
      sym (take-append-drop (length str - n) str)
          ∙ ap (λ l. take (length str - n) str ++ l)
              (bytes_eq_sound (drop (length str - n) str) part
                (and_right (leb n (length str)) (bytes_eq (drop (length str - n) str) part) h)),
    )

    ends_back : ((rest : List ℕ) × (str ≡ rest ++ part)) → end_with str part ≡ true
    ends_back (rest, e) = rw (e, ge, cut, drop-append rest part, bytes_eq_refl part) refl
      where
        ge : leb n (length (rest ++ part)) ≡ true
        ge = ground (arith, length-append rest part)

        cut : length (rest ++ part) - n ≡ length rest
        cut = omega (arith, length-append rest part)
