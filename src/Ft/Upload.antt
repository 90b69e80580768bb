-- ===== src/Ft/Upload.antt =====
-- An upload, with both sides: what the client sends for a file, and what the server stores of it.
use socketlab.Base.{
  ℕ, ◌+◌, ◌*◌, ◌^◌, ◌≤◌, ◌<◌, ◌≡◌, ◌≢◌, refl, sym, ap, ◌∙◌, List, [], ◌∷◌, ◌++◌, some, true, false,
  arith, append_assoc, length, length-append, drop, leb, All, ◌==◌, concat,
}
use socketlab.Base.Int.{ℤ, pos}
use socketlab.Sys.{Call, recv, fopen, fwrite, fclose, send, stat, Env, done}
use socketlab.Ft
use socketlab.Ft.{buf_size, strtok}
use socketlab.Net.Common.{tcp_connected}
use socketlab.Ft.Server.{turn}
use socketlab.Ft.Client.{put_request, put_file, put_token, cmd_put, when_connected}
use socketlab.Ft.Stored.{stored, Delivers}
use socketlab.Ft.Sent.{sent, sending, Reads, sent-sending, send_file-lem}
use socketlab.Ft.Put.{put_calls, put_stores}
use socketlab.Netpackets.Ipv4.{long_at}

-- The calls of the client before it reads the file, and all of them.
abbrev pub opened_calls : ℤ → List ℕ → ℕ → List Call → List Call
opened_calls fd name size t = fopen name false ∷ send fd (put_request name size) ∷ stat name ∷ t

abbrev pub upload_calls : ℤ → ℤ → List ℕ → List (List ℕ) → List Call → List Call
upload_calls fd fp name blocks t =
    recv fd 1 ∷ fclose fp ∷ sending fd fp blocks (opened_calls fd name (length (concat blocks)) t)

put_file-lem :
    (turns : ℕ) (fd : ℤ) (fp : ℕ) (name : List ℕ) (blocks : List (List ℕ)) (env : Env)
    (t : List Call)
    → 13 + length name < buf_size
    → (env t (stat name)).ret ≡ pos 0
    → long_at (env t (stat name)).out + long_at (drop 4 (env t (stat name)).out) * 2 ^ 32
      ≡ length (concat blocks)
    → 0 < fp
    → (env
        (send fd (put_request name (length (concat blocks))) ∷ stat name ∷ t)
        (fopen name false)).ret
      ≡ pos fp
    → Reads env fd (pos fp) blocks (opened_calls fd name (length (concat blocks)) t)
    → length blocks < turns
    → put_file turns fd name env t
      ≡ (done (some (pos 0, [])), upload_calls fd (pos fp) name blocks t)
unfolding put_file Ft.get_file_size
put_file-lem turns fd fp name blocks env t fits st size nz op reads h =
    rw
      (
        st,
        size,
        room,
        op,
        nonzero,
        send_file-lem fd (pos fp) env blocks turns (opened_calls fd name (length (concat blocks)) t)
            reads h,
      )
      refl
  where
    nonzero : (fp == 0) ≡ false
    nonzero = ground arith

    room : leb buf_size (13 + length name) ≡ false
    room = ground arith

cmd_put-lem :
    (turns : ℕ) (fd : ℤ) (fp : ℕ) (args name rest : List ℕ) (blocks : List (List ℕ)) (env : Env)
    (t u : List Call)
    → tcp_connected fd env t ≡ (done 1, u)
    → strtok args ≡ some (name, rest)
    → put_file turns fd name env u
      ≡ (done (some (pos 0, [])), upload_calls fd (pos fp) name blocks u)
    → cmd_put turns fd (some args) env t
      ≡ (done (some (pos 0, [])), upload_calls fd (pos fp) name blocks u)
unfolding cmd_put when_connected put_token
cmd_put-lem turns fd fp args name rest blocks env t u c token r = rw (c, token) r

sent-upload_calls :
    (fd : ℕ) (fp : ℤ) (name : List ℕ) (blocks : List (List ℕ)) (t : List Call)
    → sent (pos fd) (upload_calls (pos fd) fp name blocks t)
      ≡ sent (pos fd) t ++ (put_request name (length (concat blocks)) ++ concat blocks)
unfolding sent
sent-upload_calls fd fp name blocks t =
    sent-sending fd fp blocks (opened_calls (pos fd) name (length (concat blocks)) t)
    ∙ ap (λ s. s ++ concat blocks) (ground arith)
    ∙ append_assoc (sent (pos fd) t) (put_request name (length (concat blocks))) (concat blocks)

-- An upload of a file of less than 2^32 bytes, with a name of at most 255 bytes, none of them zero.
-- On a connection, `cmd_put`, whose first argument is the name, when `stat` tells the size right,
-- sends nothing but its request and the file, and returns 0. Where the
-- request reaches the server in one block, which leaves room in `buf` and may hold the first part of the
-- file, and the rest in any parts that are not empty, the turn of the session opens the file of that
-- name and, if it can be opened and written, stores the whole file, in order, closes it and answers END.
-- Each loop has a turn for each of its blocks, and the client's one more.
pub put_transfers :
    (strerror : ℕ → List ℕ) (turns client : ℕ) (fd : ℤ) (fp fp' : ℕ)
    (args name rest part buf : List ℕ) (blocks chunks : List (List ℕ)) (env env' : Env)
    (s t t' : List Call)
    → tcp_connected (pos client) env s ≡ (done 1, t)
    → strtok args ≡ some (name, rest)
    → length name < 256
    → All (λ c. c ≢ 0) name
    → length (concat blocks) < 2 ^ 32
    → (env t (stat name)).ret ≡ pos 0
    → long_at (env t (stat name)).out + long_at (drop 4 (env t (stat name)).out) * 2 ^ 32
      ≡ length (concat blocks)
    → 0 < fp
    → (env
        (send (pos client) (put_request name (length (concat blocks))) ∷ stat name ∷ t)
        (fopen name false)).ret
      ≡ pos fp
    → Reads env
        (pos client)
        (pos fp)
        blocks
        (opened_calls (pos client) name (length (concat blocks)) t)
    → length blocks < turns
    → part ++ concat chunks ≡ concat blocks
    → 13 + length name + length part < buf_size
    → length buf ≡ buf_size
    → (env' t' (recv fd buf_size)).ret ≡ pos (13 + length name + length part)
    → (env' t' (recv fd buf_size)).out ≡ put_request name (length (concat blocks)) ++ part
    → 0 < fp'
    → (env' (recv fd buf_size ∷ t') (fopen name true)).ret ≡ pos fp'
    → (env' (fopen name true ∷ recv fd buf_size ∷ t') (fwrite (pos fp') part)).ret
      ≡ pos (length part)
    → Delivers env' fd
        (pos fp')
        chunks
        (fwrite (pos fp') part ∷ fopen name true ∷ recv fd buf_size ∷ t')
    → length chunks ≤ turns
    → let calls = upload_calls (pos client) (pos fp) name blocks t in
      let calls' = put_calls fd (pos fp') name part chunks t' in
      (cmd_put turns (pos client) (some args) env s ≡ (done (some (pos 0, [])), calls))
      × (sent (pos client) calls
          ≡ sent (pos client) t ++ (put_request name (length (concat blocks)) ++ concat blocks))
      × ((b : List ℕ) × (turn strerror turns fd buf env' t' ≡ (done (some b), calls')))
      × (stored (pos fp') calls' ≡ stored (pos fp') t' ++ concat blocks)
put_transfers strerror turns client fd fp fp' args name rest part buf blocks chunks env env' s t t'
      c token short text small st size nz op reads h same fits full ret out nz' op' wr d h' =
    (
      cmd_put-lem turns (pos client) fp args name rest blocks env s t c token (
          put_file-lem turns (pos client) fp name blocks env t (omega arith) st size nz op reads h),
      sent-upload_calls client (pos fp) name blocks t,
      server.0,
      server.1 ∙ ap (λ l. stored (pos fp') t' ++ l) same,
    )
  where
    sizes : length (concat blocks) ≡ length part + length (concat chunks)
    sizes = ap length (sym same) ∙ length-append part (concat chunks)

    server :
        ((b : List ℕ) × (turn strerror turns fd buf env' t'
            ≡ (done (some b), put_calls fd (pos fp') name part chunks t')))
        × (stored (pos fp') (put_calls fd (pos fp') name part chunks t')
            ≡ stored (pos fp') t' ++ (part ++ concat chunks))
    server =
        put_stores strerror turns fd fp' name part chunks buf env' t' short text
          (omega (arith, sizes)) fits full ret (out ∙ ap (λ n. put_request name n ++ part) sizes)
          nz' op' wr d h'
