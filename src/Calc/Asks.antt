-- ===== src/Calc/Asks.antt =====
-- src/op-client.c sends the message of what was typed, and prints the answer.
use socketlab.Base.{
  ℕ, zero, suc, ◌+◌, ◌*◌, ◌^◌, ◌≤◌, ◌<◌, ◌≡◌, refl, sym, ap, ap₂, ◌∙◌, List, [], ◌∷◌, ◌++◌, true,
  false, arith, length, length-append, append_assoc, take, drop, take-append, leb, ltb, le32, u8,
}
use socketlab.Base.Int.{ℤ, pos}
use socketlab.Sys.{Call, scanf_int, scanf_char, read, write, close, Env, done}
use socketlab.Netpackets.Ipv4.{long_at}
use socketlab.Ft.Buffer.{long_at-le32}
use socketlab.Echo.Typed.{connecting, Connects}
use socketlab.Calc.{buf_size, ints_bytes, message}
use socketlab.Calc.Message.{length-ints_bytes}
use socketlab.Calc.Client.{store_bytes, read_operands, ask_result, calculate_at, op_client}

-- These numbers are typed next, after the calls `t`.
abbrev pub Scans : Env → List ℕ → List Call → Type 0
Scans env [] t = Unit
Scans env (x ∷ nums) t =
    ((env t scanf_int).ret ≡ pos 1)
    × ((env t scanf_int).out ≡ le32 x)
    × Scans env nums (scanf_int ∷ t)

abbrev pub scanning : List ℕ → List Call → List Call
scanning [] t = t
scanning (x ∷ nums) t = scanning nums (scanf_int ∷ t)

drop_past : (p rest : List ℕ) (n : ℕ) → drop (length p + n) (p ++ rest) ≡ drop n rest
drop_past [] rest n = ap (λ k. drop k rest) (omega arith)
drop_past (x ∷ p) rest n = ap (λ k. drop k (x ∷ (p ++ rest))) next ∙ drop_past p rest n
  where
    next : suc (length p) + n ≡ suc (length p + n)
    next = omega arith

drop-nil : (n : ℕ) → drop {A = ℕ} n [] ≡ []
drop-nil zero = refl
drop-nil (suc n) = refl

drop-drop : (n m : ℕ) (xs : List ℕ) → drop m (drop n xs) ≡ drop (n + m) xs
drop-drop zero m xs = ap (λ k. drop k xs) (omega arith)
drop-drop (suc n) m [] = drop-nil m ∙ sym (drop-nil (suc n + m))
drop-drop (suc n) m (x ∷ xs) = drop-drop n m xs ∙ ap (λ k. drop k (x ∷ xs)) next
  where
    next : suc (n + m) ≡ suc n + m
    next = omega arith

store_bytes-past :
    (p bytes rest : List ℕ) (offset : ℕ)
    → offset ≡ length p
    → store_bytes offset bytes (p ++ rest) ≡ p ++ (bytes ++ drop (length bytes) rest)
store_bytes-past p bytes rest offset e =
    ap (λ o. store_bytes o bytes (p ++ rest)) e
    ∙ ap₂ (λ a b. a ++ (bytes ++ b)) (take-append p rest) (drop_past p rest (length bytes))

-- The operands follow what is in the message already.
read_operands-bytes :
    (nums p rest : List ℕ) (offset : ℕ) (env : Env) (t : List Call)
    → Scans env nums t
    → offset ≡ length p
    → offset + length nums * 4 ≤ buf_size
    → read_operands (length nums) offset (p ++ rest) env t
      ≡ (done (p ++ (ints_bytes nums ++ drop (length nums * 4) rest)), scanning nums t)
unfolding read_operands ints_bytes
read_operands-bytes [] p rest offset env t h e fits = refl
read_operands-bytes (x ∷ nums) p rest offset env t (ret, out, h) e fits =
    rw (ret, out, room, store_bytes-past p (le32 x) rest offset e)
      (ap (λ m. read_operands (length nums) (offset + 4) m env (scanf_int ∷ t))
          (sym (append_assoc p (le32 x) (drop 4 rest)))
        ∙ read_operands-bytes nums (p ++ le32 x) (drop 4 rest) (offset + 4) env (scanf_int ∷ t) h
            size (omega arith)
        ∙ ap (λ m. (done m, scanning nums (scanf_int ∷ t))) whole)
  where
    room : leb (offset + 4) buf_size ≡ true
    room = ground arith

    size : offset + 4 ≡ length (p ++ le32 x)
    size = omega (arith, length-append p (le32 x))

    fours : 4 + length nums * 4 ≡ suc (length nums) * 4
    fours = omega arith

    whole :
        (p ++ le32 x) ++ (ints_bytes nums ++ drop (length nums * 4) (drop 4 rest))
        ≡ p ++ (le32 x ++ (ints_bytes nums ++ drop (suc (length nums) * 4) rest))
    whole =
        append_assoc p (le32 x) (ints_bytes nums ++ drop (length nums * 4) (drop 4 rest))
        ∙ ap (λ l. p ++ (le32 x ++ (ints_bytes nums ++ l)))
            (drop-drop 4 (length nums * 4) rest ∙ ap (λ k. drop k rest) fours)

-- The operator and the answer come next.
abbrev pub Asked : Env → ℤ → List ℕ → (op result : ℕ) → List Call → Type 0
Asked env sock nums op result t =
    ((env t scanf_char).ret ≡ pos 1)
    × ((env t scanf_char).out ≡ op ∷ [])
    × ((env (write sock (message nums op) ∷ scanf_char ∷ t) (read sock 4)).ret ≡ pos 4)
    × ((env (write sock (message nums op) ∷ scanf_char ∷ t) (read sock 4)).out ≡ le32 result)

abbrev pub asking : ℤ → List ℕ → (op : ℕ) → List Call → List Call
asking sock nums op t = close sock ∷ read sock 4 ∷ write sock (message nums op) ∷ scanf_char ∷ t

ask_result-asks :
    (sock : ℤ) (nums : List ℕ) (op result : ℕ) (junk rest : List ℕ) (env : Env) (t : List Call)
    → Asked env sock nums op result t
    → result < 2 ^ 32
    → length nums < 256
    → ask_result sock (length nums) junk ((u8 (length nums) ∷ ints_bytes nums) ++ rest) env t
      ≡ (done result, asking sock nums op t)
unfolding ask_result message
ask_result-asks sock nums op result junk rest env t (ret, out, got, answer) small few =
    rw
      (
        ret,
        out,
        room,
        store_bytes-past (u8 (length nums) ∷ ints_bytes nums) (op ∷ []) rest (length nums * 4 + 1)
            size,
        sent,
        got,
        answer,
      )
      (ap (λ v. (done v, asking sock nums op t)) (long_at-le32 result (drop 4 junk) small))
  where
    room : ltb (length nums * 4 + 1) buf_size ≡ true
    room = ground arith

    size : length nums * 4 + 1 ≡ length (u8 (length nums) ∷ ints_bytes nums)
    size = omega (arith, length-ints_bytes nums)

    ends : length nums * 4 + 2 ≡ length ((u8 (length nums) ∷ ints_bytes nums) ++ (op ∷ []))
    ends = omega (
      arith,
      length-ints_bytes nums,
      length-append (u8 (length nums) ∷ ints_bytes nums) (op ∷ []),
    )

    sent :
        take (length nums * 4 + 2) ((u8 (length nums) ∷ ints_bytes nums) ++ (op ∷ drop 1 rest))
        ≡ (u8 (length nums) ∷ ints_bytes nums) ++ (op ∷ [])
    sent =
        ap₂ take ends
          (sym (append_assoc (u8 (length nums) ∷ ints_bytes nums) (op ∷ []) (drop 1 rest)))
        ∙ take-append ((u8 (length nums) ∷ ints_bytes nums) ++ (op ∷ [])) (drop 1 rest)

-- When the connection succeeds, the count, the numbers and the operator are typed, and the server
-- answers, op-client sends the message of them in one piece, closes the socket, and prints the
-- answer. The numbers are fewer than 256, and what `opmsg` held before is immaterial.
pub op_client-asks :
    (sock port s_addr op result : ℕ) (nums count_junk result_junk ip : List ℕ) (first : ℕ)
    (rest : List ℕ) (env : Env) (t : List Call)
    → Connects env (pos sock) ip port s_addr t
    → Scans env (length nums ∷ nums) (connecting (pos sock) ip port s_addr t)
    → Asked env
        (pos sock)
        nums
        op
        result
        (scanning (length nums ∷ nums) (connecting (pos sock) ip port s_addr t))
    → result < 2 ^ 32
    → length nums < 256
    → op_client count_junk result_junk (first ∷ rest) ip port env t ≡ (
      done result,
      asking
          (pos sock)
          nums
          op
          (scanning (length nums ∷ nums) (connecting (pos sock) ip port s_addr t)),
    )
unfolding op_client calculate_at
op_client-asks sock port s_addr op result nums count_junk result_junk ip first rest env t
      (opened, good, found, connected) (ret, out, typed) asked small few =
    rw
      (
        opened,
        found,
        connected,
        ret,
        out,
        count,
        positive,
        read_operands-bytes nums (u8 (length nums) ∷ []) rest 1 env
            (scanf_int ∷ connecting (pos sock) ip port s_addr t) typed refl (omega arith),
      )
      (ask_result-asks (pos sock) nums op result result_junk (drop (length nums * 4) rest) env
        (scanning nums (scanf_int ∷ connecting (pos sock) ip port s_addr t)) asked small few)
  where
    count : long_at (le32 (length nums)) ≡ length nums
    count = omega arith

    positive : leb (2 ^ 31) (length nums) ≡ false
    positive = ground arith
