-- ===== src/Ft/Download.antt =====
-- A download, with both sides: the client's request, the server's turn, and what the client stores.
use socketlab.Base.{
  ℕ, zero, suc, ◌+◌, ◌-◌, ◌*◌, ◌^◌, ◌≤◌, ◌<◌, ◌≡◌, ◌≢◌, refl, sym, ap, ◌∙◌, List, [], ◌∷◌, ◌++◌,
  some, true, false, arith, append_assoc, length, length-append, length-take, take, drop, lt→ltb,
  ◌==◌, concat, set, All,
}
use socketlab.Base.Int.{ℤ, pos, is_minus_one}
use socketlab.Sys.{Call, recv, access, fopen, fwrite, send, stat, Env, done, filled}
use socketlab.Ft
use socketlab.Ft.{buf_size, strtok, end_token}
use socketlab.Ft.Server.{turn, answer, response_get, get_of_name, send_found}
use socketlab.Ft.Client.{cmd_get, blank, request}
use socketlab.Ft.Stored.{stored, Delivers}
use socketlab.Ft.Sent.{sent, Reads}
use socketlab.Ft.Buffer.{terminated}
use socketlab.Ft.Get.{
  header, found_calls, stored_calls, asked, send_found-lem, sent-found_calls, cmd_get-lem,
  stored-stored_calls,
}
use socketlab.Net.Common.{tcp_connected}
use socketlab.Netpackets.Ipv4.{long_at}

-- A character that ends neither a string nor a token.
abbrev pub IsPlain : ℕ → Type 0
IsPlain c = (c ≢ 0) × (c ≢ 32)

end_token_word :
    (word rest : List ℕ)
    → All IsPlain word
    → end_token (word ++ (0 ∷ rest)) ≡ (word, word ++ (0 ∷ rest))
unfolding end_token
end_token_word [] rest h = refl
end_token_word (c ∷ word) rest ((nonzero, nonspace), h) =
    rw (end_token_word word rest h, no_zero, no_space) refl
  where
    no_zero : (c == 0) ≡ false
    no_zero = ground arith

    no_space : (c == 32) ≡ false
    no_space = ground arith

-- A name without spaces is the whole first token, and memory stays as it was.
strtok_word :
    (word rest : List ℕ)
    → 0 < length word
    → All IsPlain word
    → strtok (word ++ (0 ∷ rest)) ≡ some (word, word ++ (0 ∷ rest))
unfolding strtok
strtok_word [] rest h plain = absurd (omega arith)
strtok_word (c ∷ word) rest h plain =
    rw (no_space, no_zero) (ap some (end_token_word (c ∷ word) rest plain))
  where
    no_zero : (c == 0) ≡ false
    no_zero = ground arith

    no_space : (c == 32) ≡ false
    no_space = ground arith

take-take : (m n : ℕ) (xs : List ℕ) → m ≤ n → take m (take n xs) ≡ take m xs
take-take zero n xs h = refl
take-take (suc m) zero xs h = absurd (omega arith)
take-take (suc m) (suc n) [] h = refl
take-take (suc m) (suc n) (x ∷ xs) h = ap (λ l. x ∷ l) (take-take m n xs (omega arith))

take_behind : (xs ys : List ℕ) (m k : ℕ) → m ≡ length xs + k → take m (xs ++ ys) ≡ xs ++ take k ys
take_behind [] ys m k e = ap (λ n. take n ys) (omega arith)
take_behind (x ∷ xs) ys zero k e = absurd (omega arith)
take_behind (x ∷ xs) ys (suc m) k e = ap (λ l. x ∷ l) (take_behind xs ys m k (omega arith))

-- Some of the zeros behind the name, and one more.
zeros_end : (k : ℕ) (rest : List ℕ) → (rest' : List ℕ) × (take k blank ++ (0 ∷ rest) ≡ 0 ∷ rest')
zeros_end zero rest = (rest, refl)
zeros_end (suc k) rest = (take k (drop 1 blank) ++ (0 ∷ rest), refl)

-- The first bytes of the request, the name among them.
module _ (name buf : List ℕ) (m : ℕ) (whole : length name < m) (short : m < buf_size) where
  abbrev behind : ℕ
  behind = m - suc (length name)

  request_part : take m (request Ft.get name) ≡ (Ft.get ∷ name) ++ take behind blank
  unfolding request
  request_part =
      take-take m buf_size (Ft.get ∷ (name ++ blank)) (omega arith)
      ∙ take_behind (Ft.get ∷ name) blank m behind (omega arith)

  request_part-length : length (take m (request Ft.get name)) ≡ m
  request_part-length =
      ap length request_part
      ∙ omega (arith, length-append (Ft.get ∷ name) (take behind blank), length-take behind blank)

  -- What `buf` holds once a zero is stored behind them.
  request_stored :
      length buf ≡ buf_size
      → (rest : List ℕ) × (set (filled (take m (request Ft.get name)) buf) m 0
          ≡ Ft.get ∷ (name ++ (0 ∷ rest)))
  request_stored full =
      let (after, e) =
        terminated (take m (request Ft.get name)) buf (omega (arith, request_part-length)) in
      let (rest, z) = zeros_end behind after in
      (
        rest,
        ap (λ n. set (filled (take m (request Ft.get name)) buf) n 0) (sym request_part-length)
            ∙ e
            ∙ ap (λ l. l ++ (0 ∷ after)) request_part
            ∙ append_assoc (Ft.get ∷ name) (take behind blank) (0 ∷ after)
            ∙ ap (λ l. Ft.get ∷ (name ++ l)) z,
      )

turn-send_found :
    (strerror : ℕ → List ℕ) (turns m : ℕ) (fd : ℤ) (name buf rest : List ℕ) (env : Env)
    (t : List Call)
    → (env t (recv fd buf_size)).ret ≡ pos m
    → m < buf_size
    → set (filled (env t (recv fd buf_size)).out buf) m 0 ≡ Ft.get ∷ (name ++ (0 ∷ rest))
    → 0 < length name
    → All IsPlain name
    → is_minus_one (env (recv fd buf_size ∷ t) (access name)).ret ≡ false
    → turn strerror turns fd buf env t
      ≡ send_found turns fd name
          (Ft.get ∷ (name ++ (0 ∷ rest)))
          env
          (access name ∷ recv fd buf_size ∷ t)
unfolding turn answer response_get get_of_name
turn-send_found strerror turns m fd name buf rest env t ret short got some_name plain there =
    rw (ret, lt→ltb m buf_size short, got, strtok_word name rest some_name plain, there) refl

-- A download of a file of less than 2^32 bytes, whose name has no zero and no space. The server
-- receives the client's request without some of its last bytes (of the 1024 it takes fewer), but with
-- the whole name. If the file is there and can be opened, and `stat` tells its size right, the turn of
-- the session sends nothing but a header with the size and the file. Where these bytes reach the client,
-- which is connected, in a first block that has the whole header, and then in any parts that are not
-- empty, and the client can open and write a file of that name, the whole file is stored there, in
-- order, and `cmd_get` returns 0. Each loop has a turn for each of its blocks, and the server's one more.
pub get_transfers :
    (strerror : ℕ → List ℕ) (turns server m : ℕ) (fd : ℤ) (fp fp' : ℕ) (name buf part : List ℕ)
    (blocks chunks : List (List ℕ)) (env env' : Env) (t t' u : List Call)
    → length (concat blocks) < 2 ^ 32
    → 0 < length name
    → All IsPlain name
    → length buf ≡ buf_size
    → length name < m
    → m < buf_size
    → (env t (recv (pos server) buf_size)).ret ≡ pos m
    → (env t (recv (pos server) buf_size)).out ≡ take m (request Ft.get name)
    → is_minus_one (env (recv (pos server) buf_size ∷ t) (access name)).ret ≡ false
    → (let s = access name ∷ recv (pos server) buf_size ∷ t in
        ((env s (stat name)).ret ≡ pos 0)
        × (long_at (env s (stat name)).out + long_at (drop 4 (env s (stat name)).out) * 2 ^ 32
            ≡ length (concat blocks))
        × ((env
              (send (pos server) (header (length (concat blocks))) ∷ stat name ∷ s)
              (fopen name false)).ret
            ≡ pos fp)
        × Reads env (pos server) (pos fp) blocks (
            fopen name false ∷ send (pos server) (header (length (concat blocks))) ∷ stat name ∷ s))
    → 0 < fp
    → length blocks < turns
    → part ++ concat chunks ≡ concat blocks
    → tcp_connected fd env' t' ≡ (done 1, u)
    → (env' (send fd (request Ft.get name) ∷ u) (recv fd buf_size)).ret ≡ pos (9 + length part)
    → (env' (send fd (request Ft.get name) ∷ u) (recv fd buf_size)).out
      ≡ header (length (concat blocks)) ++ part
    → 0 < fp'
    → (env' (asked fd name u) (fopen name true)).ret ≡ pos fp'
    → (env' (fopen name true ∷ asked fd name u) (fwrite (pos fp') part)).ret ≡ pos (length part)
    → Delivers env' fd (pos fp') chunks (fwrite (pos fp') part ∷ fopen name true ∷ asked fd name u)
    → length chunks ≤ turns
    → let calls =
        found_calls
          (pos server)
          (pos fp)
          name
          blocks
          (access name ∷ recv (pos server) buf_size ∷ t) in
      let calls' = stored_calls fd (pos fp') name part chunks (asked fd name u) in
      ((b : List ℕ) × (turn strerror turns (pos server) buf env t ≡ (done (some b), calls)))
      × (sent (pos server) calls
          ≡ sent (pos server) t ++ (header (length (concat blocks)) ++ concat blocks))
      × (cmd_get turns fd (some name) env' t' ≡ (done (some (pos 0, [])), calls'))
      × (stored (pos fp') calls' ≡ stored (pos fp') (asked fd name u) ++ concat blocks)
unfolding sent
get_transfers strerror turns server m fd fp fp' name buf part blocks chunks env env' t t' u small
      some_name plain full whole short req_ret req_out there (st, size, op, reads) nz h same c ret
      out nz' op' wr d h' =
    let (rest, e) = request_stored name buf m whole short full in
    (
      (
        Ft.get ∷ (name ++ (0 ∷ rest)),
        turn-send_found strerror turns m (pos server) name buf rest env t req_ret short
              (ap (λ l. set (filled l buf) m 0) req_out ∙ e) some_name plain there
            ∙ send_found-lem turns (pos server) fp name (Ft.get ∷ (name ++ (0 ∷ rest))) blocks env
                (access name ∷ recv (pos server) buf_size ∷ t) st size nz op reads h,
      ),
      sent-found_calls server (pos fp) name blocks (access name ∷ recv (pos server) buf_size ∷ t),
      cmd_get-lem turns (length (concat blocks)) fd fp' name part chunks env' t' u c (omega arith)
          small sizes ret out nz' op' wr d h',
      stored-stored_calls fd fp' name part chunks (asked fd name u)
          ∙ ap (λ s. stored (pos fp') (asked fd name u) ++ s) same,
    )
  where
    sizes : length part + length (concat chunks) ≡ length (concat blocks)
    sizes = sym (length-append part (concat chunks)) ∙ ap length same
