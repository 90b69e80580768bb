-- ===== src/Calc/Operators.antt =====
-- The results of the three operators.
use socketlab.Base.{
  ℕ, ◌+◌, ◌-◌, ◌/◌, ◌*◌, ◌%◌, ◌^◌, ◌<◌, ◌≡◌, refl, sym, ap, ◌∙◌, List, [], ◌∷◌, some, arith, All,
  u32,
}
use native.Mathlib.Nat.{mul_assoc, add-mul, mod-add-div, add-mul-mod_self_left}
use socketlab.Calc.{add, sub, multi, add_from, sub_from, multi_from, calc}

abbrev pub total : List ℕ → ℕ
total [] = 0
total (x ∷ nums) = x + total nums

abbrev pub product : List ℕ → ℕ
product [] = 1
product (x ∷ nums) = x * product nums

add_from-total : (r : ℕ) (nums : List ℕ) → r < 2 ^ 32 → add_from r nums ≡ u32 (r + total nums)
add_from-total r [] h = omega arith
add_from-total r (x ∷ nums) h = omega (arith, add_from-total (u32 (r + x)) nums (omega arith))

sub_from-total :
    (r : ℕ) (nums : List ℕ)
    → r < 2 ^ 32
    → All (λ x. x < 2 ^ 32) nums
    → u32 (sub_from r nums + total nums) ≡ r
sub_from-total r [] h k = omega arith
sub_from-total r (x ∷ nums) h k =
    omega (arith, sub_from-total (u32 (r + 2 ^ 32 - x)) nums (omega arith) k.1)

-- A factor can be reduced first.
mod_mul : (m a p : ℕ) → a % m * p % m ≡ a * p % m
mod_mul m a p = sym (ap (λ t. t % m) split ∙ add-mul-mod_self_left (a % m * p) m (a / m * p))
  where
    split : a * p ≡ a % m * p + m * (a / m * p)
    split =
        ap (λ t. t * p) (sym (mod-add-div a m))
        ∙ add-mul (a % m) (m * (a / m)) p
        ∙ ap (λ t. a % m * p + t) (mul_assoc m (a / m) p)

multi_from-product :
    (r : ℕ) (nums : List ℕ) → r < 2 ^ 32 → multi_from r nums ≡ u32 (r * product nums)
multi_from-product r [] h = omega arith
multi_from-product r (x ∷ nums) h =
    multi_from-product (u32 (r * x)) nums (omega arith)
    ∙ mod_mul (2 ^ 32) (r * x) (product nums)
    ∙ ap (λ t. u32 t) (mul_assoc r x (product nums))

-- On at least one number, `+` gives the sum and `-` the first number less the sum of the others,
-- modulo 2 ^ 32. `*` gives the product of all numbers times the first number once more.
calc_lem :
    (junk x : ℕ) (nums : List ℕ)
    → x < 2 ^ 32
    → All (λ y. y < 2 ^ 32) nums
    → (calc junk (x ∷ nums) 43 ≡ some (u32 (x + total nums)))
      × ((r : ℕ) × (calc junk (x ∷ nums) 45 ≡ some r) × (u32 (r + total nums) ≡ x))
      × (calc junk (x ∷ nums) 42 ≡ some (u32 (x * product (x ∷ nums))))
unfolding calc add sub multi
calc_lem junk x nums h k = (
  ap some (add_from-total x nums h),
  (sub_from x nums, refl, sub_from-total x nums h k),
  ap some (multi_from-product x (x ∷ nums) h),
)
