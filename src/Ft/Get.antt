-- ===== src/Ft/Get.antt =====
-- The parts of a download: what the server sends for a file, and what the client stores of it.
use socketlab.Base.{
  ℕ, ◌+◌, ◌-◌, ◌*◌, ◌^◌, ◌≤◌, ◌<◌, ◌≡◌, refl, ap, ◌∙◌, List, [], ◌∷◌, ◌++◌, some, true, false,
  arith, append_assoc, length, take, drop, take-append, leb, lt→ltb, ◌==◌, concat,
}
use socketlab.Base.Int.{ℤ, pos}
use socketlab.Sys.{Call, recv, fopen, fwrite, fclose, send, stat, Env, done}
use socketlab.Ft
use socketlab.Ft.{size_bytes, size_at, buf_size}
use socketlab.Ft.Server.{send_found}
use socketlab.Ft.Client.{get_answer, recv_file, cmd_get, blank, request}
use socketlab.Ft.Stored.{stored, storing, Delivers, stored-storing, store_rest-lem}
use socketlab.Ft.Sent.{sent, sending, Reads, sent-sending, send_file-lem}
use socketlab.Ft.Buffer.{size_at-size_bytes}
use socketlab.Net.Common.{tcp_connected}
use socketlab.Netpackets.Ipv4.{long_at}

-- What goes before the file.
abbrev pub header : ℕ → List ℕ
header size = Ft.data_follows ∷ Ft.size_bytes size

-- The calls of the server for a file that it found.
abbrev pub found_calls : ℤ → ℤ → List ℕ → List (List ℕ) → List Call → List Call
found_calls fd fp name blocks t =
    fclose fp
    ∷ sending fd fp blocks
        (fopen name false ∷ send fd (header (length (concat blocks))) ∷ stat name ∷ t)

pub send_found-lem :
    (turns : ℕ) (fd : ℤ) (fp : ℕ) (name buf : List ℕ) (blocks : List (List ℕ)) (env : Env)
    (t : List Call)
    → (env t (stat name)).ret ≡ pos 0
    → long_at (env t (stat name)).out + long_at (drop 4 (env t (stat name)).out) * 2 ^ 32
      ≡ length (concat blocks)
    → 0 < fp
    → (env (send fd (header (length (concat blocks))) ∷ stat name ∷ t) (fopen name false)).ret
      ≡ pos fp
    → Reads env fd
        (pos fp)
        blocks
        (fopen name false ∷ send fd (header (length (concat blocks))) ∷ stat name ∷ t)
    → length blocks < turns
    → send_found turns fd name buf env t ≡ (done (some buf), found_calls fd (pos fp) name blocks t)
unfolding send_found Ft.get_file_size
send_found-lem turns fd fp name buf blocks env t st size nz op reads h =
    rw (st, size, op, nonzero, send_file-lem fd (pos fp) env blocks turns _ reads h) refl
  where
    nonzero : (fp == 0) ≡ false
    nonzero = ground arith

-- The calls of the client behind its first block.
abbrev pub stored_calls : ℤ → ℤ → List ℕ → List ℕ → List (List ℕ) → List Call → List Call
stored_calls fd fp name part chunks t =
    fclose fp ∷ storing fd fp chunks (fwrite fp part ∷ fopen name true ∷ t)

get_answer-lem :
    (turns size : ℕ) (fd : ℤ) (fp : ℕ) (name part rest : List ℕ) (chunks : List (List ℕ))
    (env : Env) (t : List Call)
    → size < 2 ^ 32
    → length part + length (concat chunks) ≡ size
    → 0 < fp
    → (env t (fopen name true)).ret ≡ pos fp
    → (env (fopen name true ∷ t) (fwrite (pos fp) part)).ret ≡ pos (length part)
    → Delivers env fd (pos fp) chunks (fwrite (pos fp) part ∷ fopen name true ∷ t)
    → length chunks ≤ turns
    → get_answer turns fd name (pos (9 + length part)) (header size ++ (part ++ rest)) env t
      ≡ (done (some (pos 0, [])), stored_calls fd (pos fp) name part chunks t)
unfolding get_answer recv_file
get_answer-lem turns size fd fp name part rest chunks env t small e nz op wr d h =
    let (b, r) =
      store_rest-lem (λ x. blank) fd (pos fp) env chunks turns size (length part)
        (header size ++ (part ++ rest)) (fwrite (pos fp) part ∷ fopen name true ∷ t) d e h in
    rw (enough, op, nonzero, part_taken, wr, size_at-size_bytes size (part ++ rest) small, r) refl
  where
    nonzero : (fp == 0) ≡ false
    nonzero = ground arith

    enough : leb 9 (9 + length part) ≡ true
    enough = ground arith

    part_taken : take (9 + length part - 9) (part ++ rest) ≡ part
    part_taken = ap (λ n. take n (part ++ rest)) less ∙ take-append part rest
      where
        less : 9 + length part - 9 ≡ length part
        less = omega arith

-- The calls of `cmd_get` until it has the first block, on a connection.
abbrev pub asked : ℤ → List ℕ → List Call → List Call
asked fd name u = recv fd buf_size ∷ send fd (request Ft.get name) ∷ u

pub cmd_get-lem :
    (turns size : ℕ) (fd : ℤ) (fp : ℕ) (name part : List ℕ) (chunks : List (List ℕ)) (env : Env)
    (t u : List Call)
    → tcp_connected fd env t ≡ (done 1, u)
    → 1 + length name < buf_size
    → size < 2 ^ 32
    → length part + length (concat chunks) ≡ size
    → (env (send fd (request Ft.get name) ∷ u) (recv fd buf_size)).ret ≡ pos (9 + length part)
    → (env (send fd (request Ft.get name) ∷ u) (recv fd buf_size)).out ≡ header size ++ part
    → 0 < fp
    → (env (asked fd name u) (fopen name true)).ret ≡ pos fp
    → (env (fopen name true ∷ asked fd name u) (fwrite (pos fp) part)).ret ≡ pos (length part)
    → Delivers env fd (pos fp) chunks (fwrite (pos fp) part ∷ fopen name true ∷ asked fd name u)
    → length chunks ≤ turns
    → cmd_get turns fd (some name) env t
      ≡ (done (some (pos 0, [])), stored_calls fd (pos fp) name part chunks (asked fd name u))
unfolding cmd_get Ft.Client.when_connected
cmd_get-lem turns size fd fp name part chunks env t u c fits small e ret out nz op wr d h =
    rw (c, lt→ltb (1 + length name) buf_size fits, ret, out)
      (get_answer-lem turns size fd fp name part (drop (length (header size ++ part)) blank) chunks
        env (asked fd name u) small e nz op wr d h)

pub stored-stored_calls :
    (fd : ℤ) (fp : ℕ) (name part : List ℕ) (chunks : List (List ℕ)) (t : List Call)
    → stored (pos fp) (stored_calls fd (pos fp) name part chunks t)
      ≡ stored (pos fp) t ++ (part ++ concat chunks)
unfolding stored
stored-stored_calls fd fp name part chunks t =
    stored-storing fd fp chunks (fwrite (pos fp) part ∷ fopen name true ∷ t)
    ∙ ap (λ s. s ++ concat chunks) (ground arith)
    ∙ append_assoc (stored (pos fp) t) part (concat chunks)

pub sent-found_calls :
    (fd : ℕ) (fp : ℤ) (name : List ℕ) (blocks : List (List ℕ)) (t : List Call)
    → sent (pos fd) (found_calls (pos fd) fp name blocks t)
      ≡ sent (pos fd) t ++ (header (length (concat blocks)) ++ concat blocks)
unfolding sent
sent-found_calls fd fp name blocks t =
    sent-sending fd fp blocks
      (fopen name false ∷ send (pos fd) (header (length (concat blocks))) ∷ stat name ∷ t)
    ∙ ap (λ s. s ++ concat blocks) (ground arith)
    ∙ append_assoc (sent (pos fd) t) (header (length (concat blocks))) (concat blocks)
