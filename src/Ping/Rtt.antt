-- ===== src/Ping/Rtt.antt =====
-- The statistics of the round trips.
use socketlab.Base.{
  ℕ, suc, ◌+◌, ◌^◌, ◌≤◌, ◌<◌, ◌≡◌, ◌⊎◌, inl, inr, sym, List, [], ◌∷◌, arith, All, length,
}
use mathlib.Core.Path.{subst}
use socketlab.Ping.{PingStats, rtt_stats}
use socketlab.Util.Round.{u64_min, u64_max}

-- `rtt_stats` for every round trip of a list, latest first.
unfoldable pub after : PingStats → List ℕ → PingStats
after s [] = s
after s (rtt ∷ rtts) = rtt_stats rtt (after s rtts)

abbrev pub total : List ℕ → ℕ
total [] = 0
total (rtt ∷ rtts) = rtt + total rtts

abbrev pub IsIn : ℕ → List ℕ → Type 0
IsIn x [] = ⊥
IsIn x (y ∷ ys) = (x ≡ y) ⊎ IsIn x ys

-- The statistics describe the round trips.
pub record Summary (rtts : List ℕ) (s : PingStats) : Type 0 where
  pub count : s.rtt_count ≡ length rtts
  pub summed : s.total_rtt ≡ total rtts
  pub low : All (λ r. s.min_rtt ≤ r) rtts
  pub high : All (λ r. r ≤ s.max_rtt) rtts
  pub min_taken : IsIn s.min_rtt rtts
  pub max_taken : IsIn s.max_rtt rtts

-- Nothing is recorded.
pub record IsBlank (s : PingStats) : Type 0 where
  pub no_count : s.rtt_count ≡ 0
  pub no_total : s.total_rtt ≡ 0
  pub no_min : s.min_rtt ≡ 0
  pub no_max : s.max_rtt ≡ 0

All-weaken : (P Q : ℕ → Type 0) (xs : List ℕ) → ((x : ℕ) → P x → Q x) → All P xs → All Q xs
All-weaken P Q [] f h = h
All-weaken P Q (x ∷ xs) f h = (f x h.0, All-weaken P Q xs f h.1)

IsIn-All : (P : ℕ → Type 0) (x : ℕ) (xs : List ℕ) → IsIn x xs → All P xs → P x
IsIn-All P x [] i h = absurd i
IsIn-All P x (y ∷ ys) (inl e) h = subst P (sym e) h.0
IsIn-All P x (y ∷ ys) (inr i) h = IsIn-All P x ys i h.1

moved : (x y r : ℕ) (xs : List ℕ) → (y ≡ r) ⊎ (y ≡ x) → IsIn x xs → IsIn y (r ∷ xs)
moved x y r xs (inl e) i = inl e
moved x y r xs (inr e) i = inr (subst (λ z. IsIn z xs) (sym e) i)

-- One more round trip.
rtt_stats-Summary :
    (r : ℕ) (rtts : List ℕ) (s : PingStats)
    → 0 < s.min_rtt
    → r + total rtts < 2 ^ 64
    → suc (length rtts) < 2 ^ 64
    → Summary rtts s
    → Summary (r ∷ rtts) (rtt_stats r s)
unfolding rtt_stats u64_min u64_max
rtt_stats-Summary r rtts s p t n v = record {
  count = ground arith;
  summed = ground arith;
  low = (
    ground arith,
    All-weaken (λ x. s.min_rtt ≤ x) (λ x. (rtt_stats r s).min_rtt ≤ x) rtts (λ x h. ground arith)
        v.low,
  );
  high = (
    ground arith,
    All-weaken (λ x. x ≤ s.max_rtt) (λ x. x ≤ (rtt_stats r s).max_rtt) rtts (λ x h. ground arith)
        v.high,
  );
  min_taken = moved s.min_rtt (rtt_stats r s).min_rtt r rtts (ground arith) v.min_taken;
  max_taken = moved s.max_rtt (rtt_stats r s).max_rtt r rtts (ground arith) v.max_taken;
}

first : (r : ℕ) (s : PingStats) → IsBlank s → 0 < r → r < 2 ^ 64 → Summary (r ∷ []) (rtt_stats r s)
unfolding rtt_stats u64_min u64_max
first r s b p t = record {
  count = ground arith;
  summed = ground arith;
  low = ground arith;
  high = ground arith;
  min_taken = inl (ground arith);
  max_taken = inl (ground arith);
}

-- After at least one round trip, none of them 0, and as long as the sum does not wrap, the statistics
-- hold their number, their sum, and the smallest and the largest of them.
pub after-Summary :
    (r : ℕ) (rtts : List ℕ) (s : PingStats)
    → IsBlank s
    → All (λ x. 0 < x) (r ∷ rtts)
    → total (r ∷ rtts) < 2 ^ 64
    → length (r ∷ rtts) < 2 ^ 64
    → Summary (r ∷ rtts) (after s (r ∷ rtts))
unfolding after
after-Summary r [] s b p t n = first r s b p.0 (omega arith)
after-Summary r (q ∷ rtts) s b p t n =
    let v = after-Summary q rtts s b p.1 (omega arith) (omega arith) in
    rtt_stats-Summary r (q ∷ rtts) (after s (q ∷ rtts))
      (IsIn-All (λ x. 0 < x) (after s (q ∷ rtts)).min_rtt (q ∷ rtts) v.min_taken p.1) t n v
