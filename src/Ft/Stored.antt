-- ===== src/Ft/Stored.antt =====
-- The bytes that a program stores in a file, and a file that arrives in parts.
use socketlab.Base.{
  concat, ℕ, zero, suc, ◌+◌, ◌≤◌, ◌<◌, ◌≡◌, refl, sym, ap, ◌∙◌, List, [], ◌∷◌, ◌++◌, some, false,
  arith, append_assoc, append-nil, if◌then◌else◌, length, length-append, take-append, ltb, lt→ltb,
}
use socketlab.Base.Int.{ℤ, pos}
use socketlab.Sys.{Call, recv, fwrite, Env, done, filled}
use socketlab.Sys.Files.{same_fd}
use socketlab.Ft.{store_rest, buf_size}

-- What the calls of a run (latest first) have stored in a file, in the order of the file.
unfoldable pub stored : ℤ → List Call → List ℕ
stored fp [] = []
stored fp (fwrite f bytes ∷ t) = if same_fd f fp then stored fp t ++ bytes else stored fp t
stored fp (c ∷ t) = stored fp t

-- The calls that store the parts.
abbrev pub storing : ℤ → ℤ → List (List ℕ) → List Call → List Call
storing fd fp [] t = t
storing fd fp (c ∷ cs) t = storing fd fp cs (fwrite fp c ∷ recv fd buf_size ∷ t)

-- After the calls `t`, the socket delivers the parts, none of them empty, as they are asked for.
abbrev pub Delivers : Env → ℤ → ℤ → List (List ℕ) → List Call → Type 0
Delivers env fd fp [] t = Unit
Delivers env fd fp (c ∷ cs) t =
    (0 < length c)
    × ((env t (recv fd buf_size)).ret ≡ pos (length c))
    × ((env t (recv fd buf_size)).out ≡ c)
    × Delivers env fd fp cs (fwrite fp c ∷ recv fd buf_size ∷ t)

pub stored-storing :
    (fd : ℤ) (fp : ℕ) (chunks : List (List ℕ)) (t : List Call)
    → stored (pos fp) (storing fd (pos fp) chunks t) ≡ stored (pos fp) t ++ concat chunks
unfolding stored
stored-storing fd fp [] t = sym (append-nil (stored (pos fp) t))
stored-storing fd fp (c ∷ cs) t =
    stored-storing fd fp cs (fwrite (pos fp) c ∷ recv fd buf_size ∷ t)
    ∙ ap (λ s. s ++ concat cs) (ground arith)
    ∙ append_assoc (stored (pos fp) t) c (concat cs)

-- With a turn for each part, the loop stores them all and ends.
pub store_rest-lem :
    (clear : List ℕ → List ℕ) (fd fp : ℤ) (env : Env) (chunks : List (List ℕ)) (turns fsize got : ℕ)
    (buf : List ℕ) (t : List Call)
    → Delivers env fd fp chunks t
    → got + length (concat chunks) ≡ fsize
    → length chunks ≤ turns
    → (b : List ℕ) × (store_rest clear turns fd fp fsize got buf env t
        ≡ (done (some b), storing fd fp chunks t))
unfolding store_rest
store_rest-lem clear fd fp env [] zero fsize got buf t d e h = (buf, rw (lt_irrefl) refl)
  where
    lt_irrefl : ltb got fsize ≡ false
    lt_irrefl = ground arith
store_rest-lem clear fd fp env [] (suc turns) fsize got buf t d e h = (buf, rw (lt_irrefl) refl)
  where
    lt_irrefl : ltb got fsize ≡ false
    lt_irrefl = ground arith
store_rest-lem clear fd fp env (c ∷ cs) zero fsize got buf t d e h = absurd (omega arith)
store_rest-lem clear fd fp env (c ∷ cs) (suc turns) fsize got buf t (positive, ret, out, rest) e h =
    let sizes = length-append c (concat cs) in
    let (b, r) =
      store_rest-lem clear fd fp env cs turns fsize (got + length c) (filled c (clear buf))
        (fwrite fp c ∷ recv fd buf_size ∷ t) rest (omega (arith, sizes)) (omega arith) in
    (b, rw (lt→ltb got fsize (omega (arith, sizes)), ret, out, take-append c) r)
