-- ===== src/Log/Format.antt =====
-- What the log prints, and the substitution for `%m`.
use socketlab.Base.{
  ℕ, zero, suc, ◌+◌, ◌≡◌, ◌≢◌, refl, sym, ap, ◌∙◌, List, [], ◌∷◌, ◌++◌, Option, Option-cases, inl,
  inr, none, some, false, ◌==◌, leb, if◌then◌else◌, arith, take, drop, get_or, length,
  length-append, append_assoc,
}
use socketlab.Base.Int.{pos, negsuc}
use socketlab.Log.{LogState, Printed, find_m, expand, code, passed, simple_log_level_vprintf}

-- The first `%m` behind a text that has none, not even with its first character.
find_m-first :
    (xs post : List ℕ)
    → find_m (xs ++ (37 ∷ [])) ≡ none
    → find_m (xs ++ (37 ∷ 109 ∷ post)) ≡ some (length xs)
unfolding find_m
find_m-first [] post h = refl
find_m-first (x ∷ []) post h = ground arith
find_m-first (x ∷ y ∷ xs) post h =
    ground (arith, λ (k : find_m (y ∷ (xs ++ (37 ∷ []))) ≡ none). find_m-first (y ∷ xs) post k)

get_or-middle : (xs ys : List ℕ) (y : ℕ) → get_or (xs ++ (y ∷ ys)) (length xs) 0 ≡ y
get_or-middle [] ys y = refl
get_or-middle (x ∷ xs) ys y = get_or-middle xs ys y

take-middle : (xs ys : List ℕ) (y : ℕ) → take (suc (length xs)) (xs ++ (y ∷ ys)) ≡ xs ++ (y ∷ [])
take-middle [] ys y = refl
take-middle (x ∷ xs) ys y = ap (λ l. x ∷ l) (take-middle xs ys y)

drop-middle :
    (n : ℕ) (xs ys : List ℕ) (a b c : ℕ) → n ≡ length xs + 3 → drop n (xs ++ (a ∷ b ∷ c ∷ ys)) ≡ ys
drop-middle n [] ys a b c e = rw e refl
drop-middle zero (x ∷ xs) ys a b c e = absurd (omega arith)
drop-middle (suc n) (x ∷ xs) ys a b c e = drop-middle n xs ys a b c (omega arith)

found :
    (pre post : List ℕ) (c : ℕ)
    → find_m (pre ++ (c ∷ 37 ∷ [])) ≡ none
    → find_m (pre ++ (c ∷ 37 ∷ 109 ∷ post)) ≡ some (suc (length pre))
found pre post c h =
    ap find_m (sym (append_assoc pre (c ∷ []) (37 ∷ 109 ∷ post)))
    ∙ find_m-first (pre ++ (c ∷ [])) post (ap find_m (append_assoc pre (c ∷ []) (37 ∷ [])) ∙ h)
    ∙ ap some (omega (arith, length-append pre (c ∷ [])))

-- A `%m` that is the first one, with a character before it that is no `%`, is replaced by the text of
-- the error.
expand_first :
    (err pre post : List ℕ) (c : ℕ)
    → c ≢ 37
    → find_m (pre ++ (c ∷ 37 ∷ [])) ≡ none
    → expand err (pre ++ (c ∷ 37 ∷ 109 ∷ post)) ≡ some (pre ++ (c ∷ (err ++ post)))
unfolding expand
expand_first err pre post c other h =
    rw
      (
        expand,
        found pre post c h,
        get_or-middle pre (37 ∷ 109 ∷ post) c,
        differs,
        take-middle pre (37 ∷ 109 ∷ post) c,
        drop-middle (suc (length pre) + 2) pre post c 37 109 (omega arith),
      )
      (ap some (append_assoc pre (c ∷ []) (err ++ post)))
  where
    differs : (c == 37) ≡ false
    differs = ground arith

expand-none : (err fmt : List ℕ) → find_m fmt ≡ none → expand err fmt ≡ some fmt
unfolding expand
expand-none err fmt h = rw (expand, h) refl

-- A text on the stream of the log; -2 if there is none.
abbrev pub to_stream : Option ℕ → List ℕ → Printed
to_stream none text = code (negsuc 1)
to_stream (some fp) text = passed fp text

printed :
    (s : LogState) (err fmt text : List ℕ) (level : ℕ)
    → expand err fmt ≡ some text
    → simple_log_level_vprintf s err level fmt
      ≡ (if leb level s.level then to_stream s.fp text else code (pos 0))
unfolding simple_log_level_vprintf
printed s err fmt text level e = elim (Option-cases s.fp) [
  | inl closed ↦ rw (closed) refl
  | inr (fp, open_fp) ↦ rw (open_fp, e) refl
]

-- Of a format whose first `%m` stands behind a character other than `%`, and of a format without
-- `%m`: above the level of the log nothing is printed, and the result is 0. Else, if the log has no
-- stream, the result is -2; if it has one, the format goes there, with the first `%m` replaced by the
-- text of the error, or as it is.
pub vprintf_lem :
    (s : LogState) (err pre post plain : List ℕ) (c level : ℕ)
    → c ≢ 37
    → find_m (pre ++ (c ∷ 37 ∷ [])) ≡ none
    → find_m plain ≡ none
    → (simple_log_level_vprintf s err level (pre ++ (c ∷ 37 ∷ 109 ∷ post))
        ≡ (if leb level s.level then to_stream s.fp (pre ++ (c ∷ (err ++ post))) else code (pos 0)))
      × (simple_log_level_vprintf s err level plain
          ≡ (if leb level s.level then to_stream s.fp plain else code (pos 0)))
vprintf_lem s err pre post plain c level other h none_in = (
  printed s err (pre ++ (c ∷ 37 ∷ 109 ∷ post)) (pre ++ (c ∷ (err ++ post))) level
      (expand_first err pre post c other h),
  printed s err plain plain level (expand-none err plain none_in),
)

-- A format that begins with `%m` makes the code read the byte before it.
pub expand_start : (err post : List ℕ) → expand err (37 ∷ 109 ∷ post) ≡ none
unfolding expand find_m
expand_start err post = refl
