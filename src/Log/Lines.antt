-- ===== src/Log/Lines.antt =====
-- What lib/simple_log/simple_log.c prints beside a message: the names of the levels, and a dump.
use socketlab.Base.{
  ℕ, ◌%◌, ◌<◌, ◌≡◌, refl, List, [], ◌∷◌, ◌++◌, Option, none, some, ◌==◌, leb, if◌then◌else◌, length,
  get_or, All, IsByte, Bool-cases, inl, inr,
}
use mathlib.Core.Option
use socketlab.Util.Mac.{scan_hex, skip_space}
use socketlab.Util.Dump.{dump_from, dump_from-text, scan_all, scan_hex-blank}
use socketlab.Log.{LogState, log_level_debug}

abbrev log_level_str : List (List ℕ)
log_level_str =
    ([])
    ∷ (70 ∷ 65 ∷ 84 ∷ 65 ∷ 76 ∷ [])
    ∷ (69 ∷ 82 ∷ 82 ∷ 79 ∷ 82 ∷ [])
    ∷ (87 ∷ 65 ∷ 82 ∷ 78 ∷ [])
    ∷ (73 ∷ 78 ∷ 70 ∷ 79 ∷ [])
    ∷ (68 ∷ 69 ∷ 66 ∷ 85 ∷ 71 ∷ [])
    ∷ []

-- "INVALID_LEVEL" outside of the table.
unfoldable log_level_to_string : ℕ → List ℕ
log_level_to_string level =
    if leb level log_level_debug
    then get_or log_level_str level []
    else 73 ∷ 78 ∷ 86 ∷ 65 ∷ 76 ∷ 73 ∷ 68 ∷ 95 ∷ 76 ∷ 69 ∷ 86 ∷ 69 ∷ 76 ∷ []

unfoldable simple_log_get_log_os : LogState → Option ℕ
simple_log_get_log_os s = s.fp

unfoldable simple_log_get_log_file : LogState → Option (List ℕ)
simple_log_get_log_file s = s.file

-- A new line for every 16 bytes, and a gap in its middle.
abbrev before_log_byte : ℕ → List ℕ
before_log_byte i = if i % 16 == 0 then 10 ∷ 9 ∷ [] else (if i % 8 == 0 then 32 ∷ 32 ∷ [] else [])

-- What the calls of `simple_log_level_printf` print of their texts: each looks at the level and the
-- stream.
abbrev shown : LogState → ℕ → List ℕ → List ℕ
shown s level text = if leb level s.level then elim s.fp [ none ↦ [] | some fp ↦ text ] else []

-- The bytes are read also when they are not printed. `header` is the first line's text, with the
-- level, the time, the place and the title.
unfoldable simple_log_level_hexdump : LogState → ℕ → (header begin : List ℕ) → ℕ → Option (List ℕ)
simple_log_level_hexdump s level header begin size =
    Option.map (λ text. shown s level (header ++ (text ++ (10 ∷ []))))
      (dump_from before_log_byte 0 size begin)

scan_hex-gap : (s : List ℕ) → scan_hex (32 ∷ 32 ∷ s) ≡ scan_hex s
unfolding scan_hex skip_space
scan_hex-gap s = refl

skipped : (i : ℕ) (s : List ℕ) → scan_hex (before_log_byte i ++ s) ≡ scan_hex s
skipped i s = elim (Bool-cases (i % 16 == 0)) [
  | inl first ↦ rw first (scan_hex-blank s)
  | inr later ↦ elim (Bool-cases (i % 8 == 0)) [
    | inl middle ↦ rw (later, middle) (scan_hex-gap s)
    | inr other ↦ rw (later, other) refl
  ]
]

-- `simple_log_level_hexdump` of a block of bytes, with its size, reads nothing behind them. When the
-- log has a stream and the level is not above the log's, it prints its header and all the bytes:
-- reading what follows the header by `%hhx`, as often as one likes but at least once more than there
-- are bytes, gives the bytes back. When the level is above, it prints nothing.
log_hexdump_reads_back :
    (s : LogState) (fp level n : ℕ) (header bytes : List ℕ)
    → s.fp ≡ some fp
    → All IsByte bytes
    → length bytes < n
    → (text : List ℕ) × (scan_all n text ≡ bytes)
      × (simple_log_level_hexdump s level header bytes (length bytes)
          ≡ some (if leb level s.level then header ++ text else []))
unfolding simple_log_level_hexdump
log_hexdump_reads_back s fp level n header bytes e h enough =
    let (text, printed, read) = dump_from-text before_log_byte skipped 0 n bytes h enough in
    (text ++ (10 ∷ []), read, rw (printed, e) refl)
