-- ===== src/Ft/Buffer.antt =====
-- Buffers that a request was received into: its numbers, its texts and its parts.
use socketlab.Base.{
  ℕ, ◌^◌, ◌<◌, ◌≡◌, ◌≢◌, refl, ap, ◌∙◌, List, [], ◌∷◌, ◌++◌, arith, length, All, take, take-append,
  drop, drop-append, set, le32, htonl, htonl-lt, htonl_invol,
}
use socketlab.Sys.{filled}
use socketlab.Ft.{c_string, size_bytes, size_at}
use socketlab.Netpackets.Ipv4.{long_at}

pub long_at-le32 : (x : ℕ) (rest : List ℕ) → x < 2 ^ 32 → long_at (le32 x ++ rest) ≡ x
long_at-le32 x rest h = omega arith

pub set-append : (xs ys : List ℕ) (y v : ℕ) → set (xs ++ (y ∷ ys)) (length xs) v ≡ xs ++ (v ∷ ys)
set-append [] ys y v = refl
set-append (x ∷ xs) ys y v = ap (λ l. x ∷ l) (set-append xs ys y v)

-- The zero behind what was received.
pub terminated :
    (xs old : List ℕ)
    → length xs < length old
    → (rest : List ℕ) × (set (filled xs old) (length xs) 0 ≡ xs ++ (0 ∷ rest))
terminated xs old h = let (y, ys, e) = drop_some xs old h in (ys, rw e (set-append xs ys y 0))
  where
    drop_some :
        (xs' bs : List ℕ)
        → length xs' < length bs
        → (y : ℕ) × (ys : List ℕ) × (drop (length xs') bs ≡ y ∷ ys)
    drop_some xs' [] h = absurd (omega arith)
    drop_some [] (b ∷ bs) h = (b, bs, refl)
    drop_some (a ∷ xs') (b ∷ bs) h = drop_some xs' bs (omega arith)

pub c_string-name : (name : List ℕ) → All (λ c. c ≢ 0) name → c_string name ≡ name
c_string-name [] h = refl
c_string-name (c ∷ cs) h = ground (arith, c_string-name cs h.1)

pub size_at-size_bytes :
    (size : ℕ) (rest : List ℕ) → size < 2 ^ 32 → size_at (size_bytes size ++ rest) ≡ size
size_at-size_bytes size rest h =
    ap htonl (long_at-le32 (htonl size) ((0 ∷ 0 ∷ 0 ∷ 0 ∷ []) ++ rest) (htonl-lt size))
    ∙ htonl_invol size h

-- What stands between two parts of a buffer.
pub middle :
    (before xs after : List ℕ) (off n : ℕ)
    → off ≡ length before
    → n ≡ length xs
    → take n (drop off (before ++ (xs ++ after))) ≡ xs
middle before xs after off n o e =
    rw (o, e, drop-append before (xs ++ after)) (take-append xs after)
