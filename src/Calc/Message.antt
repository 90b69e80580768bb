-- ===== src/Calc/Message.antt =====
-- The server computes what the client asked for, however the message is split.
use socketlab.Base.{
  concat, ℕ, zero, suc, ◌+◌, ◌-◌, ◌*◌, ◌^◌, ◌≤◌, ◌<◌, ◌≡◌, refl, sym, ap, ap₂, ◌∙◌, List, [], ◌∷◌,
  ◌++◌, some, true, false, arith, leb, length, length-append, append_assoc, append-nil, All, drop,
  get_or,
}
use mathlib.Core.Path.{subst}
use socketlab.Calc.{calc, ints_at, ints_bytes, receive, message, serve, buf_size}

-- Every call of `read` returns at least one byte.
abbrev pub NonEmpty : List (List ℕ) → Type 0
NonEmpty = All (λ c. 0 < length c)

receive-concat :
    (need : ℕ) (got : List ℕ) (chunks : List (List ℕ))
    → length (got ++ concat chunks) ≡ need
    → need ≤ buf_size
    → All (λ c. 0 < length c) chunks
    → receive need got chunks ≡ some (got ++ concat chunks)
unfolding receive
receive-concat need got [] e fits h = rw (append-nil got) (ground (arith, length-append got []))
receive-concat need got (c ∷ cs) e fits h =
    rw (more, fits_chunk)
      (receive-concat need (got ++ c) cs (ap length (append_assoc got c (concat cs)) ∙ e) fits h.1
        ∙ ap some (append_assoc got c (concat cs)))
  where
    sizes : length got + (length c + length (concat cs)) ≡ need
    sizes = omega (arith, length-append got (c ++ concat cs), length-append c (concat cs))

    more : leb need (length got) ≡ false
    more = ground (arith, sizes, h.0)

    fits_chunk : leb (length got + length c) buf_size ≡ true
    fits_chunk = ground (arith, sizes)

pub length-ints_bytes : (nums : List ℕ) → length (ints_bytes nums) ≡ length nums * 4
unfolding ints_bytes
length-ints_bytes [] = refl
length-ints_bytes (x ∷ nums) = omega (arith, length-ints_bytes nums)

ints_at-ints_bytes :
    (nums rest : List ℕ)
    → All (λ x. x < 2 ^ 32) nums
    → ints_at (length nums) (ints_bytes nums ++ rest) ≡ nums
unfolding ints_at ints_bytes
ints_at-ints_bytes [] rest h = refl
ints_at-ints_bytes (x ∷ nums) rest h =
    ap₂ (λ a b. a ∷ b) (omega arith) (ints_at-ints_bytes nums rest h.1)

get_or-middle : (xs : List ℕ) (x n : ℕ) → n ≡ length xs → get_or (xs ++ (x ∷ [])) n 0 ≡ x
get_or-middle [] x n e = rw e refl
get_or-middle (y ∷ xs) x zero e = absurd (omega arith)
get_or-middle (y ∷ xs) x (suc n) e = get_or-middle xs x n (omega arith)

serve-concat :
    (junk op : ℕ) (nums : List ℕ) (chunks : List (List ℕ))
    → length nums < 256
    → All (λ x. x < 2 ^ 32) nums
    → NonEmpty chunks
    → concat chunks ≡ ints_bytes nums ++ (op ∷ [])
    → serve junk (length nums) chunks ≡ calc junk nums op
unfolding serve
serve-concat junk op nums chunks n h c e =
    rw
      (
        serve,
        receive-concat (length nums * 4 + 1) [] chunks (ap length e ∙ size) (omega arith) c,
        e,
        ints_at-ints_bytes nums (op ∷ []) h,
        get_or-middle (ints_bytes nums) op (length (ints_bytes nums ++ (op ∷ [])) - 1)
            (omega (arith, size, length-ints_bytes nums)),
      )
      refl
  where
    size : length (ints_bytes nums ++ (op ∷ [])) ≡ length nums * 4 + 1
    size = omega (arith, length-append (ints_bytes nums) (op ∷ []), length-ints_bytes nums)

-- The message of the client, with at most 255 numbers, reaches `calc` as it was meant, into however
-- many parts the connection splits what follows its first byte: the server answers what `calc` gives
-- for the numbers and the operator of the client.
pub serve-message :
    (junk op count : ℕ) (nums : List ℕ) (chunks : List (List ℕ))
    → length nums < 256
    → All (λ x. x < 2 ^ 32) nums
    → NonEmpty chunks
    → message nums op ≡ count ∷ concat chunks
    → serve junk count chunks ≡ calc junk nums op
unfolding message
serve-message junk op count nums chunks n h c e =
    subst (λ k. serve junk k chunks ≡ calc junk nums op) same
      (serve-concat junk op nums chunks n h c (sym (ap (drop 1) e)))
  where
    same : length nums ≡ count
    same = omega (arith, ap (λ l. get_or l 0 0) e)
