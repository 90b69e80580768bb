-- ===== src/Crc16/Detection.antt =====
-- What follows for a checksum over bytes from the step for one byte: where a change is detected.
use socketlab.Base.{
  ℕ, ◌^◌, ◌<◌, List, [], ◌∷◌, ◌++◌, ◌≡◌, refl, sym, ap, ◌∙◌, arith, All, IsByte, bit_xor, ◌↔◌,
}
use socketlab.Base.Bits.Xor.{bit_xor_cancel, bit_xor_self, bit_xor-lt}

abbrev pub checksum : (ℕ → ℕ → ℕ) → List ℕ → ℕ → ℕ
checksum step [] c = c
checksum step (b ∷ bs) c = checksum step bs (step c b)

-- Two bytes enter the register as one number, `join x y`, before `shift` moves the register by
-- their bits.
pub record IsCrc (step : ℕ → ℕ → ℕ) (shift : ℕ → ℕ) (join : ℕ → ℕ → ℕ) : Type 0 where
  pub below : (c b : ℕ) → c < 2 ^ 16 → b < 256 → step c b < 2 ^ 16
  pub same_byte : (c d b : ℕ) → c < 2 ^ 16 → d < 2 ^ 16 → b < 256 → step c b ≡ step d b → c ≡ d
  pub two_bytes :
      (c x y : ℕ)
      → c < 2 ^ 16
      → x < 256
      → y < 256
      → step (step c x) y ≡ shift (bit_xor c (join x y))
  pub shift_inj : (c d : ℕ) → c < 2 ^ 16 → d < 2 ^ 16 → shift c ≡ shift d → c ≡ d
  pub shift_zero : shift 0 ≡ 0
  pub join-lt : (x y : ℕ) → x < 256 → y < 256 → join x y < 2 ^ 16
  pub join_inj :
      (x y x' y' : ℕ)
      → x < 256
      → y < 256
      → x' < 256
      → y' < 256
      → join x y ≡ join x' y'
      → (x ≡ x') × (y ≡ y')

module _ (step : ℕ → ℕ → ℕ) where
  pub checksum-append :
      (p q : List ℕ) (c : ℕ) → checksum step (p ++ q) c ≡ checksum step q (checksum step p c)
  checksum-append [] q c = refl
  checksum-append (b ∷ p) q c = checksum-append p q (step c b)

  module _ (shift : ℕ → ℕ) (join : ℕ → ℕ → ℕ) (crc : IsCrc step shift join) where
    pub checksum-lt :
        (bs : List ℕ) (c : ℕ) → c < 2 ^ 16 → All IsByte bs → checksum step bs c < 2 ^ 16
    checksum-lt [] c hc h = hc
    checksum-lt (b ∷ bs) c hc (hb, h) = checksum-lt bs (step c b) (crc.below c b hc hb) h

    checksum_inj :
        (bs : List ℕ) (c d : ℕ)
        → c < 2 ^ 16
        → d < 2 ^ 16
        → All IsByte bs
        → checksum step bs c ≡ checksum step bs d
        → c ≡ d
    checksum_inj [] c d hc hd h e = e
    checksum_inj (b ∷ bs) c d hc hd (hb, h) e =
        crc.same_byte c d b hc hd hb
          (checksum_inj bs (step c b) (step d b) (crc.below c b hc hb) (crc.below d b hd hb) h e)

    pub detects :
        (p s : List ℕ) (c x y x' y' : ℕ)
        → c < 2 ^ 16
        → All IsByte p
        → All IsByte s
        → x < 256
        → y < 256
        → x' < 256
        → y' < 256
        → checksum step (p ++ x ∷ y ∷ s) c ≡ checksum step (p ++ x' ∷ y' ∷ s) c
        → (x ≡ x') × (y ≡ y')
    detects p s c x y x' y' hc hp hs hx hy hx' hy' e = crc.join_inj x y x' y' hx hy hx' hy' (
        bit_xor_cancel d (join x y) (join x' y') (
          crc.shift_inj (bit_xor d (join x y)) (bit_xor d (join x' y'))
            (bit_xor-lt 16 d (join x y) hd (crc.join-lt x y hx hy))
            (bit_xor-lt 16 d (join x' y') hd (crc.join-lt x' y' hx' hy'))
            (sym (crc.two_bytes d x y hd hx hy) ∙ same ∙ crc.two_bytes d x' y' hd hx' hy')))
      where
        d : ℕ
        d = checksum step p c

        hd : d < 2 ^ 16
        hd = checksum-lt p c hc hp

        after : (u v : ℕ) → u < 256 → v < 256 → step (step d u) v < 2 ^ 16
        after u v hu hv = crc.below (step d u) v (crc.below d u hd hu) hv

        same : step (step d x) y ≡ step (step d x') y'
        same =
            checksum_inj s (step (step d x) y) (step (step d x') y') (after x y hx hy)
              (after x' y' hx' hy') hs
              (sym (checksum-append p (x ∷ y ∷ s) c) ∙ e ∙ checksum-append p (x' ∷ y' ∷ s) c)

    -- The register after two bytes is 0 exactly if they were the register.
    pub accepts :
        (p : List ℕ) (c x y : ℕ)
        → c < 2 ^ 16
        → All IsByte p
        → x < 256
        → y < 256
        → (checksum step (p ++ (x ∷ y ∷ [])) c ≡ 0) ↔ (checksum step p c ≡ join x y)
    accepts p c x y hc hp hx hy = (recognised, appended)
      where
        d : ℕ
        d = checksum step p c

        hd : d < 2 ^ 16
        hd = checksum-lt p c hc hp

        after : checksum step (p ++ (x ∷ y ∷ [])) c ≡ shift (bit_xor d (join x y))
        after = checksum-append p (x ∷ y ∷ []) c ∙ crc.two_bytes d x y hd hx hy

        recognised : checksum step (p ++ (x ∷ y ∷ [])) c ≡ 0 → d ≡ join x y
        recognised e = bit_xor_cancel d d (join x y) (
            bit_xor_self d
            ∙ sym (
                crc.shift_inj (bit_xor d (join x y)) 0
                  (bit_xor-lt 16 d (join x y) hd (crc.join-lt x y hx hy)) (omega arith)
                  (sym after ∙ e ∙ sym crc.shift_zero)))

        appended : d ≡ join x y → checksum step (p ++ (x ∷ y ∷ [])) c ≡ 0
        appended e =
            after
            ∙ ap (λ t. shift (bit_xor t (join x y))) e
            ∙ ap shift (bit_xor_self (join x y))
            ∙ crc.shift_zero
