-- ===== src/ArpScan/Subnet.antt =====
-- Which addresses arp_scan asks for.
use socketlab.Base.{
  ℕ, zero, suc, ◌+◌, ◌-◌, ◌*◌, ◌/◌, ◌%◌, ◌^◌, ◌≤◌, ◌<◌, ◌≡◌, refl, sym, ap, ap₂, ◌∙◌, List, [], ◌∷◌,
  Option, some, arith, bit_and, bit_or, u32, lt→ltb, htonl, replicate,
}
use native.Mathlib.Nat.{
  pow-suc, one-le-pow, pow-le-pow_right, mod-lt, div-add-mod', div-mul-le_self, div-lt_iff_lt-mul,
}
use socketlab.Base.Bits.{bit_and_field, bit_or_field, double_pow}
use socketlab.Base.Bits.Bytes.{bit_and_ones, bit_and-htonl, bit_or-htonl}
use socketlab.Netpackets.Arp.{ArpMsg}
use socketlab.Sys.{Sys, pure, ◌>>=◌}
use socketlab.ArpScan.{create_mask, target, host_end, Scanner, probe, sweep, arp_msg_size}

pow-add : (n k : ℕ) → 2 ^ (n + k) ≡ 2 ^ n * 2 ^ k
pow-add n zero = omega (arith, ap (λ (m : ℕ). 2 ^ m) (add_zero n))
  where
    add_zero : (m : ℕ) → m + 0 ≡ m
    add_zero m = omega arith
pow-add n (suc k) =
    omega
      (arith, pow-suc 2 (n + k), double_pow (2 ^ n) k, pow-add n k, ap (λ (m : ℕ). 2 ^ m) add_suc)
  where
    add_suc : n + suc k ≡ suc (n + k)
    add_suc = omega arith

pow-positive : (k : ℕ) → 1 ≤ 2 ^ k
pow-positive k = one-le-pow k 2 (omega arith)

pred-mul : (x y : ℕ) → 0 < x → (x - 1) * y + y ≡ x * y
pred-mul zero y h = absurd (omega arith)
pred-mul (suc x) y h = grind arith

-- `~` in network order.
htonl-complement : (y : ℕ) → y < 2 ^ 32 → htonl (2 ^ 32 - 1 - htonl (2 ^ 32 - 1 - y)) ≡ y
unfolding htonl
htonl-complement y h = omega arith

module _ (n k : ℕ) (width : n + k ≡ 32) where
  product : 2 ^ n * 2 ^ k ≡ 2 ^ 32
  product = sym (pow-add n k) ∙ ap (λ (m : ℕ). 2 ^ m) width

  pow-le : 2 ^ k ≤ 2 ^ 32
  pow-le = pow-le-pow_right {n = 2} (omega arith) {i = k} {j = 32} (omega arith)

  -- The mask of a prefix of `n` bits with `k` bits behind it.
  mask_value : 2 ^ 32 - 2 ^ k ≡ (2 ^ n - 1) * 2 ^ k
  mask_value = omega (arith, product, pred-mul (2 ^ n) (2 ^ k) (pow-positive n))

  mask-lt : 2 ^ 32 - 2 ^ k < 2 ^ 32
  mask-lt = omega (arith, pow-positive k)

  create_mask-value : 0 < n → create_mask n ≡ some (2 ^ 32 - 2 ^ k)
  unfolding create_mask
  create_mask-value h =
      rw (shift, lt→ltb k 32 (omega arith)) (ap some (omega (arith, pow-positive k, pow-le)))
    where
      shift : u32 (32 + 2 ^ 32 - n) ≡ k
      shift = omega arith

  host_end-mask : host_end (htonl (2 ^ 32 - 2 ^ k)) ≡ 2 ^ k - 1
  unfolding host_end
  host_end-mask =
      ap (λ m. htonl (2 ^ 32 - 1 - htonl m)) less
      ∙ htonl-complement (2 ^ k - 1) (omega (arith, pow-le, pow-positive k))
    where
      less : 2 ^ 32 - 2 ^ k ≡ 2 ^ 32 - 1 - (2 ^ k - 1)
      less = omega (arith, pow-le, pow-positive k)

  network : (a : ℕ) → a < 2 ^ 32 → bit_and a (2 ^ 32 - 2 ^ k) ≡ a / 2 ^ k * 2 ^ k
  network a ha =
      ap₂ bit_and (sym (div-add-mod' a (2 ^ k))) mask_value
      ∙ bit_and_field k (a / 2 ^ k) (a % 2 ^ k) (2 ^ n - 1) (mod-lt a (pow-positive k))
      ∙ ap (λ q. q * 2 ^ k) (bit_and_ones n (a / 2 ^ k) small)
    where
      small : a / 2 ^ k < 2 ^ n
      small = (div-lt_iff_lt-mul {x = a} {y = 2 ^ n} (pow-positive k)).1 (omega (arith, product))

  target-mask :
      (a i : ℕ)
      → a < 2 ^ 32
      → i < 2 ^ k
      → target (htonl a) (htonl (2 ^ 32 - 2 ^ k)) i ≡ htonl (a / 2 ^ k * 2 ^ k + i)
  unfolding target
  target-mask a i ha hi =
      ap (λ t. bit_or t (htonl i))
        (bit_and-htonl a (2 ^ 32 - 2 ^ k) ha mask-lt ∙ ap htonl (network a ha))
      ∙ bit_or-htonl (a / 2 ^ k * 2 ^ k) i (omega (arith, div-mul-le_self a (2 ^ k)))
          (omega (arith, pow-le))
      ∙ ap htonl (bit_or_field k (a / 2 ^ k) i hi)

-- `count` addresses of a network, from its address `i` on, in network order.
abbrev pub addresses : ℕ → ℕ → ℕ → List ℕ
addresses net zero i = []
addresses net (suc count) i = htonl (net + i) ∷ addresses net count (suc i)

-- A subnet probed as a list of addresses.
abbrev pub probe_all : Scanner → List ℕ → Sys (List (Option ArpMsg))
probe_all s [] = pure []
probe_all s (address ∷ others) = do
  found ← probe s address 3 (replicate arp_msg_size 0)
  rest ← probe_all s others
  pure (found ∷ rest)

sweep-addresses :
    (n k : ℕ) (s : Scanner) (a count i : ℕ)
    → n + k ≡ 32
    → a < 2 ^ 32
    → count + i ≤ 2 ^ k
    → sweep s (htonl a) (htonl (2 ^ 32 - 2 ^ k)) count i
      ≡ probe_all s (addresses (a / 2 ^ k * 2 ^ k) count i)
unfolding sweep
sweep-addresses n k s a zero i e ha hi = refl
sweep-addresses n k s a (suc count) i e ha hi =
    ap₂
      (λ address rest. (do
        found ← probe s address 3 (replicate arp_msg_size 0)
        others ← rest
        pure (found ∷ others)))
      (target-mask n k e a i ha (omega arith))
      (sweep-addresses n k s a count (suc i) e ha (omega arith))

-- For a prefix of 1 to 32 bits, with `k` bits behind it, `create_mask` gives a mask, and the loop
-- over the hosts probes, once each and in ascending order, the 2^k - 2 addresses of the subnet of
-- `a` that are neither the first (the network) nor the last (the broadcast address); none at all
-- where the subnet has two addresses or one.
pub sweep_hosts :
    (n k : ℕ) (s : Scanner) (a : ℕ)
    → 0 < n
    → n + k ≡ 32
    → a < 2 ^ 32
    → (m : ℕ) × (create_mask n ≡ some m)
      × (host_end (htonl m) ≡ 2 ^ k - 1)
      × (sweep s (htonl a) (htonl m) (host_end (htonl m) - 1) 1
          ≡ probe_all s (addresses (a / 2 ^ k * 2 ^ k) (2 ^ k - 2) 1))
sweep_hosts n k s a h e ha = (
  2 ^ 32 - 2 ^ k,
  create_mask-value n k e h,
  host_end-mask n k e,
  ap (λ last. sweep s (htonl a) (htonl (2 ^ 32 - 2 ^ k)) (last - 1) 1) (host_end-mask n k e)
      ∙ turns,
)
  where
    turns :
        sweep s (htonl a) (htonl (2 ^ 32 - 2 ^ k)) (2 ^ k - 1 - 1) 1
        ≡ probe_all s (addresses (a / 2 ^ k * 2 ^ k) (2 ^ k - 2) 1)
    turns =
        ap (λ count. sweep s (htonl a) (htonl (2 ^ 32 - 2 ^ k)) count 1) less
        ∙ sweep-addresses n k s a (2 ^ k - 2) 1 e ha (omega (arith, pow-positive k))
      where
        less : 2 ^ k - 1 - 1 ≡ 2 ^ k - 2
        less = omega arith
