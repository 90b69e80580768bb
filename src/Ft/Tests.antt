-- ===== src/Ft/Tests.antt =====
-- An upload and a download of four bytes, each in two parts.
use socketlab.Base.{
  ℕ, ◌≡◌, refl, List, [], ◌∷◌, ◌++◌, some, true, arith, length, replicate, htonl, take, All,
}
use socketlab.Base.Int.{pos}
use socketlab.Sys.{
  Call, Reply, access, recv, fopen, fread, fwrite, send, stat, readdir, getsockopt, Env, done,
}
use socketlab.Net.Common.{tcp_connected, ipproto_tcp, tcp_info}
use socketlab.Ft
use socketlab.Ft.{strtok}
use socketlab.Ft.Server.{turn, list_dir}
use socketlab.Ft.Client.{put_request, request, cmd_get, cmd_put, before_end, print_body}
use socketlab.Ft.Stored.{stored}
use socketlab.Ft.Sent.{sent}
use socketlab.Ft.Put.{put_calls}
use socketlab.Ft.Upload.{upload_calls, put_transfers}
use socketlab.Ft.Listing.{list_calls, ls_lists}
use socketlab.Ft.Get.{header, found_calls, stored_calls, asked}
use socketlab.Ft.Download.{IsPlain, get_transfers}

-- "a bc": the first token, and the memory behind it.
strtok_test : strtok (97 ∷ 32 ∷ 98 ∷ 99 ∷ 0 ∷ []) ≡ some (97 ∷ [], 97 ∷ 0 ∷ 98 ∷ 99 ∷ 0 ∷ [])
unfolding strtok Ft.end_token
strtok_test = refl

before_end_test : before_end (1 ∷ 2 ∷ 127 ∷ 3 ∷ []) ≡ (1 ∷ 2 ∷ [], true)
unfolding before_end
before_end_test = refl

abbrev name : List ℕ
name = 102 ∷ []

abbrev first_half : List ℕ
first_half = 1 ∷ 2 ∷ []

abbrev second_half : List ℕ
second_half = 3 ∷ 4 ∷ []

abbrev reply : List ℕ → Reply
reply out = record { ret = pos (length out); out = out; errno = 0 }

abbrev handle : ℕ → Reply
handle n = record { ret = pos n; out = []; errno = 0 }

-- What the server sees of an upload.
abbrev upload : Env
upload [] (recv fd n) = reply (put_request name 4 ++ first_half)
upload (c ∷ t) (recv fd n) = reply second_half
upload t (fopen path w) = handle 7
upload t (fwrite fp bytes) = handle (length bytes)
upload t c = handle 0

put_request_test : put_request name 4 ≡ 5 ∷ 0 ∷ 0 ∷ 0 ∷ 4 ∷ 0 ∷ 0 ∷ 0 ∷ 0 ∷ 0 ∷ 0 ∷ 0 ∷ 1 ∷ 102 ∷ []
unfolding put_request htonl
put_request_test = refl

upload_block : (upload [] (recv (pos 4) 1024)).ret ≡ pos 16
unfolding put_request
upload_block = refl

-- What the client sees of it.
abbrev reading : Env
reading t (getsockopt fd level opt) = record { ret = pos 0; out = 1 ∷ []; errno = 0 }
reading t (stat path) = record { ret = pos 0; out = 4 ∷ 0 ∷ 0 ∷ 0 ∷ 0 ∷ 0 ∷ 0 ∷ 0 ∷ []; errno = 0 }
reading t (fopen path w) = handle 5
reading (fopen path w ∷ t) (fread fp n) = reply (first_half ++ second_half)
reading t c = handle 0

abbrev checked : List Call
checked = getsockopt (pos 3) ipproto_tcp tcp_info ∷ []

put_connected : tcp_connected (pos 3) reading [] ≡ (done 1, checked)
unfolding tcp_connected
put_connected = refl

put_token_test : strtok (102 ∷ 32 ∷ 0 ∷ []) ≡ some (name, 102 ∷ 0 ∷ 0 ∷ [])
unfolding strtok Ft.end_token
put_token_test = refl

put_transfers_example :
    let calls = upload_calls (pos 3) (pos 5) name ((first_half ++ second_half) ∷ []) checked in
    let calls' = put_calls (pos 4) (pos 7) name first_half (second_half ∷ []) [] in
    (cmd_put 2 (pos 3) (some (102 ∷ 32 ∷ 0 ∷ [])) reading [] ≡ (done (some (pos 0, [])), calls))
    × (sent (pos 3) calls
        ≡ sent (pos 3) checked ++ (put_request name 4 ++ (first_half ++ second_half)))
    × ((b : List ℕ) × (turn (λ e. []) 2 (pos 4) (replicate 1024 0) upload []
          ≡ (done (some b), calls')))
    × (stored (pos 7) calls' ≡ stored (pos 7) [] ++ (first_half ++ second_half))
put_transfers_example =
    put_transfers (λ e. []) 2 3 (pos 4) 5 7 (102 ∷ 32 ∷ 0 ∷ []) name (102 ∷ 0 ∷ 0 ∷ []) first_half
      (replicate 1024 0) ((first_half ++ second_half) ∷ []) (second_half ∷ []) reading upload []
      checked [] put_connected put_token_test (omega arith) (ground arith) (omega arith) refl refl
      (omega arith) refl (omega arith, refl, refl, refl) (omega arith) refl (omega arith) refl
      upload_block refl (omega arith) refl refl (omega arith, refl, refl, tt) (omega arith)

-- What the server sees of a download,
abbrev serving : Env
serving t (recv fd n) = record { ret = pos 1000; out = take 1000 (request Ft.get name); errno = 0 }
serving t (stat path) = record { ret = pos 0; out = 4 ∷ 0 ∷ 0 ∷ 0 ∷ 0 ∷ 0 ∷ 0 ∷ 0 ∷ []; errno = 0 }
serving t (fopen path w) = handle 5
serving (fopen path w ∷ t) (fread fp n) = reply (first_half ++ second_half)
serving t c = handle 0

-- and the client.
abbrev download : Env
download t (getsockopt fd level opt) = record { ret = pos 0; out = 1 ∷ []; errno = 0 }
download (send fd bytes ∷ t) (recv fd' n) = reply (header 4 ++ first_half)
download t (recv fd n) = reply second_half
download t (fopen path w) = handle 6
download t (fwrite fp bytes) = handle (length bytes)
download t c = handle 0

name-IsPlain : All IsPlain name
name-IsPlain = ((λ e. absurd (omega arith), λ e. absurd (omega arith)), tt)

connected : tcp_connected (pos 3) download [] ≡ (done 1, checked)
unfolding tcp_connected
connected = refl

get_transfers_example :
    let s = access name ∷ recv (pos 4) 1024 ∷ [] in
    let calls = found_calls (pos 4) (pos 5) name ((first_half ++ second_half) ∷ []) s in
    let calls' =
      stored_calls
        (pos 3)
        (pos 6)
        name
        first_half
        (second_half ∷ [])
        (asked (pos 3) name checked) in
    ((b : List ℕ) × (turn (λ e. []) 2 (pos 4) (replicate 1024 0) serving []
        ≡ (done (some b), calls)))
    × (sent (pos 4) calls ≡ sent (pos 4) [] ++ (header 4 ++ (first_half ++ second_half)))
    × (cmd_get 2 (pos 3) (some name) download [] ≡ (done (some (pos 0, [])), calls'))
    × (stored (pos 6) calls'
        ≡ stored (pos 6) (asked (pos 3) name checked) ++ (first_half ++ second_half))
get_transfers_example =
    get_transfers (λ e. []) 2 4 1000 (pos 3) 5 6 name (replicate 1024 0) first_half
      ((first_half ++ second_half) ∷ []) (second_half ∷ []) serving download [] [] checked
      (omega arith) (omega arith) name-IsPlain refl (omega arith) (omega arith) refl refl refl
      (refl, refl, refl, (omega arith, refl, refl, refl)) (omega arith) (omega arith) refl connected
      refl refl (omega arith) refl refl (omega arith, refl, refl, tt) (omega arith)

-- A directory with `.` and `a`, and its listing in two parts.
abbrev entry : List ℕ → Reply
entry out = record { ret = pos 9; out = out; errno = 0 }

abbrev directory : Env
directory [] (readdir dir) = entry (46 ∷ 0 ∷ [])
directory (readdir dir ∷ t) (readdir dir') = entry (97 ∷ 0 ∷ [])
directory t c = handle 0

abbrev printing : Env
printing [] (recv fd n) = reply (97 ∷ [])
printing t c = reply (10 ∷ 127 ∷ [])

abbrev names : List (List ℕ)
names = (46 ∷ []) ∷ (97 ∷ []) ∷ []

ls_lists_example :
    ((b : List ℕ) × (list_dir 3 (pos 4) (pos 9) [] directory []
        ≡ (done (some b), list_calls (pos 4) (pos 9) names [])))
    × (sent (pos 4) (list_calls (pos 4) (pos 9) names []) ≡ sent (pos 4) [] ++ (97 ∷ 10 ∷ 127 ∷ []))
    × ((u : List Call) × (print_body 2 (pos 3) [] printing []
          ≡ (done (some (pos 0, 97 ∷ 10 ∷ 10 ∷ [])), u)))
ls_lists_example =
    ls_lists 3 2 4 (pos 9) (pos 3) names ((97 ∷ []) ∷ (10 ∷ 127 ∷ []) ∷ []) [] directory printing []
      [] (refl, refl, (refl, refl, refl)) (omega arith) (ground arith) refl
      (refl, refl, (refl, refl, tt)) (omega arith)
