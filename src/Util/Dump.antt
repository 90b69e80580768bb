-- ===== src/Util/Dump.antt =====
-- `hexdump` and `hexdump1` of include/util.c: what they print. The loop is a function of what stands
-- before a byte, since the hexdump of the log differs in that alone.
use socketlab.Base.{
  ℕ, zero, suc, ◌%◌, ◌<◌, ◌≡◌, refl, ap, ◌∙◌, List, [], ◌∷◌, ◌++◌, append_assoc, Option, none, some,
  ◌==◌, if◌then◌else◌, arith, length, All, IsByte, Bool-cases, inl, inr,
}
use mathlib.Core.Option
use socketlab.Util.Mac.{
  hex_byte, skip_space, sign, prefix, scan_digits, scan_hex, digits, hex_value,
}
use socketlab.Util.Mac.RoundTrip.{Stops, scan_hex-hex_byte}

-- A new line for every 16 bytes.
abbrev pub before_byte : ℕ → List ℕ
before_byte i = if i % 16 == 0 then 10 ∷ 9 ∷ [] else []

-- The loop, from `i` on: `left` bytes are to be printed, and `none` is a read past the last one.
unfoldable pub dump_from : (ℕ → List ℕ) → (i left : ℕ) → List ℕ → Option (List ℕ)
dump_from before i zero bytes = some []
dump_from before i (suc left) [] = none
dump_from before i (suc left) (b ∷ bytes) =
    Option.map (λ rest. before i ++ (hex_byte b ++ (32 ∷ rest)))
      (dump_from before (suc i) left bytes)

-- `s` is an `int`: the numbers below 2^31.
unfoldable pub hexdump : List ℕ → ℕ → Option (List ℕ)
hexdump begin s = Option.map (λ text. text ++ (10 ∷ [])) (dump_from before_byte 0 s begin)

unfoldable pub hexdump1 : List ℕ → List ℕ → ℕ → Option (List ℕ)
hexdump1 title begin s =
    Option.map (λ text. title ++ (text ++ (10 ∷ []))) (dump_from before_byte 0 s begin)

-- What `sscanf` reads from a text by `%hhx`, up to `n` times.
abbrev pub scan_all : ℕ → List ℕ → List ℕ
scan_all zero s = []
scan_all (suc n) s = elim (scan_hex s) [ none ↦ [] | some (b, rest) ↦ b ∷ scan_all n rest ]

space-Stops : (s : List ℕ) → Stops (32 ∷ s)
unfolding digits hex_value
space-Stops s acc = refl

scan_line_end : scan_hex (10 ∷ []) ≡ none
unfolding scan_hex skip_space sign prefix scan_digits
scan_line_end = refl

pub scan_hex-blank : (s : List ℕ) → scan_hex (10 ∷ 9 ∷ s) ≡ scan_hex s
unfolding scan_hex skip_space
scan_hex-blank s = refl

scan_hex-space : (s : List ℕ) → scan_hex (32 ∷ s) ≡ scan_hex s
unfolding scan_hex skip_space
scan_hex-space s = refl

scan_hex-before : (i : ℕ) (s : List ℕ) → scan_hex (before_byte i ++ s) ≡ scan_hex s
scan_hex-before i s = elim (Bool-cases (i % 16 == 0)) [
  | inl first ↦ rw first (scan_hex-blank s)
  | inr later ↦ rw later refl
]

scan_all-space : (n : ℕ) (s : List ℕ) → scan_all n (32 ∷ s) ≡ scan_all n s
unfolding scan_hex skip_space
scan_all-space zero s = refl
scan_all-space (suc n) s = refl

-- What stands before a byte is skipped.
module _ (before : ℕ → List ℕ)
    (skipped : (i : ℕ) (s : List ℕ) → scan_hex (before i ++ s) ≡ scan_hex s) where
  scan_step :
      (i n b : ℕ) (s : List ℕ)
      → b < 256
      → scan_all (suc n) (before i ++ (hex_byte b ++ (32 ∷ s))) ≡ b ∷ scan_all n s
  scan_step i n b s h =
      rw
        (
          scan_all,
          skipped i (hex_byte b ++ (32 ∷ s)),
          scan_hex-hex_byte b (32 ∷ s) h (space-Stops s),
          scan_all-space n s,
        )
        refl

  -- All bytes are printed.
  pub dump_from-text :
      (i n : ℕ) (bytes : List ℕ)
      → All IsByte bytes
      → length bytes < n
      → (text : List ℕ) × (dump_from before i (length bytes) bytes ≡ some text)
        × (scan_all n (text ++ (10 ∷ [])) ≡ bytes)
  unfolding dump_from
  dump_from-text i zero bytes h enough = absurd (omega arith)
  dump_from-text i (suc n) [] h enough = ([], refl, rw (scan_all, scan_line_end) refl)
  dump_from-text i (suc n) (b ∷ bytes) (hb, h) enough =
      let (text, printed, read) = dump_from-text (suc i) n bytes h (omega arith) in
      (
        before i ++ (hex_byte b ++ (32 ∷ text)),
        rw printed refl,
        ap (scan_all (suc n)) (
              append_assoc (before i) (hex_byte b ++ (32 ∷ text)) (10 ∷ [])
              ∙ ap (λ s. before i ++ s) (append_assoc (hex_byte b) (32 ∷ text) (10 ∷ [])))
            ∙ scan_step i n b (text ++ (10 ∷ [])) hb
            ∙ ap (λ s. b ∷ s) read,
      )

-- `hexdump` of a block of bytes, with its size, prints all of them and reads nothing behind them, and
-- `hexdump1` prints the same behind its title: reading what `hexdump` printed by `%hhx`, as often as
-- one likes but at least once more than there are bytes, gives the bytes back, in order, and nothing else.
pub hexdump_reads_back :
    (title bytes : List ℕ) (n : ℕ)
    → All IsByte bytes
    → length bytes < n
    → (text : List ℕ) × (hexdump bytes (length bytes) ≡ some text)
      × (hexdump1 title bytes (length bytes) ≡ some (title ++ text))
      × (scan_all n text ≡ bytes)
unfolding hexdump hexdump1
hexdump_reads_back title bytes n h enough =
    let (text, printed, read) = dump_from-text before_byte scan_hex-before 0 n bytes h enough in
    (text ++ (10 ∷ []), rw printed refl, rw printed refl, read)
