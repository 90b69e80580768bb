-- ===== src/Netpackets/Checksum/Verify.antt =====
-- What a receiver can rely on: a stored checksum makes the block check, and a changed word shows.
use socketlab.Base.{
  ℕ, zero, suc, ◌+◌, ◌-◌, ◌*◌, ◌/◌, ◌%◌, ◌^◌, ◌<◌, ◌≡◌, ◌↔◌, sym, ap, ◌∙◌, List, [], ◌∷◌, ◌++◌,
  some, some_inj, arith, length, All, All-append, IsByte, length-append,
}
use socketlab.Netpackets.Checksum.{ipv4_checksum}
use socketlab.Netpackets.Checksum.Sum.{
  word_sum, ones_sum, checksum_lem, ones_sum_cancel, ones_sum_swapped, ones_sum_detects,
  ones_sum-le,
}

word_sum-append :
    (half : ℕ) (pre rest : List ℕ)
    → length pre ≡ 2 * half
    → word_sum (pre ++ rest) ≡ word_sum pre + word_sum rest
word_sum-append half [] rest e = omega arith
word_sum-append half (a ∷ []) rest e = absurd (omega arith)
word_sum-append zero (a ∷ b ∷ pre) rest e = absurd (omega arith)
word_sum-append (suc half) (a ∷ b ∷ pre) rest e =
    omega (arith, word_sum-append half pre rest (omega arith))

-- The checksum of a block that is `pre`, a word and `post`, from the plain sum of the three.
module _ (half : ℕ) (pre post : List ℕ) (even : length pre ≡ 2 * half) (pre_bytes : All IsByte pre)
    (post_bytes : All IsByte post) (short : length pre + 2 + length post < 2 ^ 16) where
  abbrev pub block : ℕ → ℕ → List ℕ
  block hi lo = pre ++ (hi ∷ lo ∷ post)

  pub length-block : (hi lo : ℕ) → length (block hi lo) ≡ length pre + 2 + length post
  length-block hi lo = omega (arith, length-append pre (hi ∷ lo ∷ post))

  pub block_checksum :
      (hi lo : ℕ)
      → IsByte hi
      → IsByte lo
      → ipv4_checksum (block hi lo) (length (block hi lo))
        ≡ some (65535 - ones_sum (word_sum pre + word_sum post + (hi * 256 + lo)))
  block_checksum hi lo h l =
      rw (checksum_lem (block hi lo) bytes (omega (arith, length-block hi lo))).0
        (ap (λ t. some (65535 - ones_sum t)) total)
    where
      bytes : All IsByte (block hi lo)
      bytes = All-append IsByte pre (hi ∷ lo ∷ post) pre_bytes (h, (l, post_bytes))

      total : word_sum (block hi lo) ≡ word_sum pre + word_sum post + (hi * 256 + lo)
      total = omega (arith, word_sum-append half pre (hi ∷ lo ∷ post) even)

  abbrev sum : ℕ
  sum = word_sum pre + word_sum post

  -- The checksum with the field at 0.
  zeroed :
      {c : ℕ} → ipv4_checksum (block 0 0) (length (block 0 0)) ≡ some c → c ≡ 65535 - ones_sum sum
  zeroed {c} e = some_inj (sym e ∙ block_checksum 0 0 (omega arith) (omega arith) ∙ plus_zero)
    where
      zero_word : sum + (0 * 256 + 0) ≡ sum
      zero_word = omega arith

      plus_zero : some (65535 - ones_sum (sum + (0 * 256 + 0))) ≡ some (65535 - ones_sum sum)
      plus_zero = ap (λ t. some (65535 - ones_sum t)) zero_word

  -- The block checks exactly when its one's complement sum is 65535.
  checks_iff :
      (hi lo : ℕ)
      → IsByte hi
      → IsByte lo
      → (ipv4_checksum (block hi lo) (length (block hi lo)) ≡ some 0)
        ↔ (ones_sum (sum + (hi * 256 + lo)) ≡ 65535)
  checks_iff hi lo h l = (
    λ e.
        omega (
          arith,
          some_inj (sym (block_checksum hi lo h l) ∙ e),
          ones_sum-le (sum + (hi * 256 + lo)),
        ),
    λ e. block_checksum hi lo h l ∙ ap (λ t. some (65535 - t)) e,
  )

  -- A block of fewer than 2 ^ 16 bytes has a checksum field at an even place. Filled with the
  -- checksum that the block had with the field at 0, in network byte order, it makes the block
  -- check: the checksum of the block is then 0.
  pub checksum_verifies :
      {c : ℕ}
      → ipv4_checksum (block 0 0) (length (block 0 0)) ≡ some c
      → ipv4_checksum (block (c / 256) (c % 256)) (length (block (c / 256) (c % 256))) ≡ some 0
  checksum_verifies {c} e =
      (checks_iff (c / 256) (c % 256) (omega (arith, zeroed e)) (omega arith)).1
        (ap ones_sum whole ∙ ones_sum_cancel sum)
    where
      whole : sum + (c / 256 * 256 + c % 256) ≡ sum + (65535 - ones_sum sum)
      whole = omega (arith, zeroed e)

  -- Filled in the byte order of the host, in a block whose words are not all 0, it makes the block
  -- check exactly if the two bytes of the checksum are the same.
  pub swapped_verifies :
      {c : ℕ}
      → 0 < word_sum pre + word_sum post
      → ipv4_checksum (block 0 0) (length (block 0 0)) ≡ some c
      → (ipv4_checksum (block (c % 256) (c / 256)) (length (block (c % 256) (c / 256))) ≡ some 0)
        ↔ (c / 256 ≡ c % 256)
  swapped_verifies {c} p e =
      let same = ones_sum_swapped sum c p (zeroed e) in
      let checks = checks_iff (c % 256) (c / 256) (omega arith) (omega (arith, zeroed e)) in
      (λ h. same.0 (checks.0 h), λ h. checks.1 (same.1 h))

  -- In a block of fewer than 2 ^ 16 bytes a change of one word at an even place shows in the
  -- checksum, unless it is from or to 0xffff.
  pub checksum_detects :
      (v w : ℕ)
      → v < 65535
      → w < 65535
      → ipv4_checksum (block (v / 256) (v % 256)) (length (block (v / 256) (v % 256)))
        ≡ ipv4_checksum (block (w / 256) (w % 256)) (length (block (w / 256) (w % 256)))
      → v ≡ w
  checksum_detects v w hv hw e = ones_sum_detects sum v w hv hw same
    where
      of_word : (t : ℕ) → t / 256 * 256 + t % 256 ≡ t
      of_word t = omega arith

      sums : ones_sum (sum + (v / 256 * 256 + v % 256)) ≡ ones_sum (sum + (w / 256 * 256 + w % 256))
      sums = omega (
        arith,
        some_inj (
            sym (block_checksum (v / 256) (v % 256) (omega arith) (omega arith))
            ∙ e
            ∙ block_checksum (w / 256) (w % 256) (omega arith) (omega arith)),
        ones_sum-le (sum + (v / 256 * 256 + v % 256)),
        ones_sum-le (sum + (w / 256 * 256 + w % 256)),
      )

      same : ones_sum (sum + v) ≡ ones_sum (sum + w)
      same =
          ap (λ t. ones_sum (sum + t)) (sym (of_word v))
          ∙ sums
          ∙ ap (λ t. ones_sum (sum + t)) (of_word w)
