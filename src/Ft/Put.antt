-- ===== src/Ft/Put.antt =====
-- An upload: the request of the client and the file behind it, as the server stores them.
use socketlab.Base.{
  ℕ, ◌+◌, ◌-◌, ◌^◌, ◌≤◌, ◌<◌, ◌≡◌, ◌≢◌, refl, sym, ap, ◌∙◌, List, [], ◌∷◌, ◌++◌, some, true, false,
  arith, append_assoc, length, length-append, All, take, drop, set, ◌==◌, leb, lt→ltb, le32, htonl,
  htonl-lt, htonl_invol, concat,
}
use socketlab.Base.Int.{ℤ, pos}
use socketlab.Sys.{Call, recv, fopen, fwrite, fclose, send, Env, done, filled}
use socketlab.Ft
use socketlab.Ft.{c_string, size_bytes, size_at, store_rest, buf_size}
use socketlab.Ft.Server.{put_offset, response_put, send_end, answer, turn}
use socketlab.Ft.Client.{put_request}
use socketlab.Ft.Stored.{stored, storing, Delivers, stored-storing, store_rest-lem}
use socketlab.Ft.Buffer.{long_at-le32, terminated, c_string-name, size_at-size_bytes, middle}

-- The calls of the server when `part` is in the first block that it receives, and `chunks` are the rest.
abbrev pub put_calls : ℤ → ℤ → List ℕ → List ℕ → List (List ℕ) → List Call → List Call
put_calls fd fp name part chunks t =
    send fd (Ft.end ∷ [])
    ∷ fclose fp
    ∷ storing fd fp chunks (fwrite fp part ∷ fopen name true ∷ recv fd buf_size ∷ t)

-- What `buf` holds with the request and the beginning of the file in it.
abbrev whole : List ℕ → ℕ → List ℕ → List ℕ → List ℕ
whole name size part rest = put_request name size ++ (part ++ (0 ∷ rest))

put_offset-whole :
    (name : List ℕ) (size : ℕ) (part rest : List ℕ)
    → length name < 256
    → put_offset (whole name size part rest) ≡ 13 + length name
unfolding put_offset put_request
put_offset-whole name size part rest h =
    ap (λ n. 13 + htonl n)
      (long_at-le32 (htonl (length name)) (name ++ (part ++ (0 ∷ rest))) (htonl-lt (length name)))
    ∙ ap (λ n. 13 + n) (htonl_invol (length name) (omega arith))

-- `response_put` on a buffer that holds what it looks for.
response_put-lem :
    (turns fsize offset n : ℕ) (fd : ℤ) (fp : ℕ) (name part buf : List ℕ) (chunks : List (List ℕ))
    (env : Env) (t : List Call)
    → put_offset buf ≡ offset
    → offset < 269
    → offset ≤ n
    → c_string (take (offset - 13) (drop 13 buf)) ≡ name
    → take (n - offset) (drop offset buf) ≡ part
    → size_at (drop 1 buf) ≡ fsize
    → 0 < fp
    → (env t (fopen name true)).ret ≡ pos fp
    → (env (fopen name true ∷ t) (fwrite (pos fp) part)).ret ≡ pos (length part)
    → Delivers env fd (pos fp) chunks (fwrite (pos fp) part ∷ fopen name true ∷ t)
    → length part + length (concat chunks) ≡ fsize
    → length chunks ≤ turns
    → (b : List ℕ) × (response_put turns fd n buf env t ≡ (
      done (some (set b 0 Ft.end)),
      send fd (Ft.end ∷ [])
          ∷ fclose (pos fp)
          ∷ storing fd (pos fp) chunks (fwrite (pos fp) part ∷ fopen name true ∷ t),
    ))
unfolding response_put send_end
response_put-lem turns fsize offset n fd fp name part buf chunks env t o small le nm pt sz nz op wr
      d e h =
    let (b, r) =
      store_rest-lem (λ x. x) fd (pos fp) env chunks turns fsize (length part) buf
        (fwrite (pos fp) part ∷ fopen name true ∷ t) d e h in
    (b, rw (o, lt→ltb offset 269 small, le→leb offset n le, nm, op, nonzero, pt, wr, sz, r) refl)
  where
    le→leb : (x y : ℕ) → x ≤ y → leb x y ≡ true
    le→leb x y l = ground arith

    nonzero : (fp == 0) ≡ false
    nonzero = ground arith

length-put_request : (name : List ℕ) (size : ℕ) → length (put_request name size) ≡ 13 + length name
unfolding put_request
length-put_request name size = omega arith

name_of_whole :
    (name : List ℕ) (size : ℕ) (part rest : List ℕ)
    → All (λ c. c ≢ 0) name
    → c_string (take (13 + length name - 13) (drop 13 (whole name size part rest))) ≡ name
unfolding put_request
name_of_whole name size part rest text =
    ap c_string (middle [] name (part ++ (0 ∷ rest)) 0 (13 + length name - 13) refl (omega arith))
    ∙ c_string-name name text

-- The same at the buffer that the request is received into.
response_put-whole :
    (turns : ℕ) (fd : ℤ) (fp : ℕ) (name part rest : List ℕ) (chunks : List (List ℕ)) (env : Env)
    (t : List Call)
    → length name < 256
    → All (λ c. c ≢ 0) name
    → length part + length (concat chunks) < 2 ^ 32
    → 0 < fp
    → (env t (fopen name true)).ret ≡ pos fp
    → (env (fopen name true ∷ t) (fwrite (pos fp) part)).ret ≡ pos (length part)
    → Delivers env fd (pos fp) chunks (fwrite (pos fp) part ∷ fopen name true ∷ t)
    → length chunks ≤ turns
    → let size = length part + length (concat chunks) in
      (b : List ℕ) × (response_put turns fd
          (13 + length name + length part)
          (whole name size part rest)
          env
          t
        ≡ (
          done (some (set b 0 Ft.end)),
          send fd (Ft.end ∷ [])
              ∷ fclose (pos fp)
              ∷ storing fd (pos fp) chunks (fwrite (pos fp) part ∷ fopen name true ∷ t),
        ))
unfolding put_request
response_put-whole turns fd fp name part rest chunks env t short text size nz op wr d h =
    let total = length part + length (concat chunks) in
    response_put-lem turns total (13 + length name) (13 + length name + length part) fd fp name part
      (whole name total part rest) chunks env t (put_offset-whole name total part rest short)
      (omega arith) (omega arith) (name_of_whole name total part rest text)
      (middle (put_request name total) part (0 ∷ rest) (13 + length name)
        (13 + length name + length part - (13 + length name)) (sym (length-put_request name total))
        (omega arith))
      (size_at-size_bytes total (le32 (htonl (length name)) ++ (name ++ (part ++ (0 ∷ rest)))) size)
      nz op wr d refl h

stored-put_calls :
    (fd : ℤ) (fp : ℕ) (name part : List ℕ) (chunks : List (List ℕ)) (t : List Call)
    → stored (pos fp) (put_calls fd (pos fp) name part chunks t)
      ≡ stored (pos fp) t ++ (part ++ concat chunks)
unfolding stored
stored-put_calls fd fp name part chunks t =
    stored-storing fd fp chunks (fwrite (pos fp) part ∷ fopen name true ∷ recv fd buf_size ∷ t)
    ∙ ap (λ s. s ++ concat chunks) (ground arith)
    ∙ append_assoc (stored (pos fp) t) part (concat chunks)

-- An upload. The client's request for a file of less than 2^32 bytes arrives at the server with the
-- first `part` of the file behind it, in a block that leaves room in `buf`; the name has at most 255
-- bytes, none of them zero. The file can be opened, the part is written, and the socket then delivers
-- the rest of the file, in any parts that are not empty. Then the turn of the session ends (with a turn
-- of its loop for each part): it opens the file of the client's name, stores the parts in order, so
-- the whole file and nothing else, closes it, and answers END.
pub put_stores :
    (strerror : ℕ → List ℕ) (turns : ℕ) (fd : ℤ) (fp : ℕ) (name part : List ℕ)
    (chunks : List (List ℕ)) (buf : List ℕ) (env : Env) (t : List Call)
    → length name < 256
    → All (λ c. c ≢ 0) name
    → length part + length (concat chunks) < 2 ^ 32
    → 13 + length name + length part < buf_size
    → length buf ≡ buf_size
    → (env t (recv fd buf_size)).ret ≡ pos (13 + length name + length part)
    → (env t (recv fd buf_size)).out
      ≡ put_request name (length part + length (concat chunks)) ++ part
    → 0 < fp
    → (env (recv fd buf_size ∷ t) (fopen name true)).ret ≡ pos fp
    → (env (fopen name true ∷ recv fd buf_size ∷ t) (fwrite (pos fp) part)).ret ≡ pos (length part)
    → Delivers env fd
        (pos fp)
        chunks
        (fwrite (pos fp) part ∷ fopen name true ∷ recv fd buf_size ∷ t)
    → length chunks ≤ turns
    → ((b : List ℕ) × (turn strerror turns fd buf env t
          ≡ (done (some b), put_calls fd (pos fp) name part chunks t)))
      × (stored (pos fp) (put_calls fd (pos fp) name part chunks t)
          ≡ stored (pos fp) t ++ (part ++ concat chunks))
unfolding turn answer put_request
put_stores strerror turns fd fp name part chunks buf env t short text size fits full ret out nz op
      wr d h =
    let total = length part + length (concat chunks) in
    let block = put_request name total ++ part in
    let (rest, e) = terminated block buf (omega (arith, received_size total)) in
    let (b, r) =
      response_put-whole turns fd fp name part rest chunks env (recv fd buf_size ∷ t) short text
        size nz op wr d h in
    (
      (
        set b 0 Ft.end,
        rw (ret, lt→ltb (13 + length name + length part) buf_size fits, out, block_at rest total e)
            r,
      ),
      stored-put_calls fd fp name part chunks t,
    )
  where
    received_size :
        (total : ℕ) → length (put_request name total ++ part) ≡ 13 + length name + length part
    received_size total =
        omega (arith, length-append (put_request name total) part, length-put_request name total)

    block_at :
        (rest : List ℕ) (total : ℕ)
        → set
            (filled (put_request name total ++ part) buf)
            (length (put_request name total ++ part))
            0
          ≡ (put_request name total ++ part) ++ (0 ∷ rest)
        → set (filled (put_request name total ++ part) buf) (13 + length name + length part) 0
          ≡ whole name total part rest
    block_at rest total e =
        ap (λ n. set (filled (put_request name total ++ part) buf) n 0) (sym (received_size total))
        ∙ e
        ∙ append_assoc (put_request name total) part (0 ∷ rest)
