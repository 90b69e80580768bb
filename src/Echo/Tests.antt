-- ===== src/Echo/Tests.antt =====
-- A client that sends two blocks, and the servers on a network with clients; a user of echo-client;
-- two
-- datagrams for uecho-server; and a user of uecho-client.
use socketlab.Base.{
  ℕ, ◌≡◌, refl, List, [], ◌∷◌, ◌++◌, some, none, arith, length, false, inr, ◌≢◌, All, bytes_eq,
}
use socketlab.Base.Int.{pos, negsuc}
use socketlab.Sys.{
  Reply, Addr, Call, inet, socket, connect, inet_addr, gethostbyname, fgets, sendto, recvfrom, read,
  write, write_negative, accept, select, epoll_create, epoll_wait, close, Env, done,
}
use socketlab.Echo.{
  echo_client, echo_server, echo_child, mp_echo_server, none_watched, select_event, select_server,
  epoll_event, epoll_server, fd_set, fd_clr,
}
use socketlab.Echo.Only.{EchoOnly, echo_servers-EchoOnly}
use socketlab.Echo.Client.{client_main, is_quit}
use socketlab.Echo.Typed.{Exchange, exchanging, connecting, client_main_talks}
use socketlab.Echo.Udp.Lines.{server_addr, talking, udp_client_prints}
use socketlab.Echo.Udp.{udp_client, udp_server, loopback}
use socketlab.Echo.Udp.Answers.{answering, bound, udp_server-answers}
use socketlab.Echo.All.{echoing, written, echo_child-all}

fd_clr_test : fd_clr 3 (fd_set 4 (fd_set 3 [])) ≡ 4 ∷ []
fd_clr_test = refl

abbrev reply : List ℕ → Reply
reply out = record { ret = pos (length out); out = out; errno = 0 }

-- A network with clients: a read brings two bytes, and fails directly after a `write`. `select` and
-- `epoll_wait` find events of the server's socket and of a client.
abbrev busy : Env
busy (write fd bytes ∷ t) (read f n) = record { ret = negsuc 0; out = []; errno = 104 }
busy t (read f n) = reply (7 ∷ 8 ∷ [])
busy t (socket af type protocol) = record { ret = pos 3; out = []; errno = 0 }
busy t (accept fd) = record { ret = pos 4; out = []; errno = 0 }
busy t (select max_fd fds) = record { ret = pos 1; out = fds; errno = 0 }
busy t epoll_create = record { ret = pos 5; out = []; errno = 0 }
busy t (epoll_wait epfd) = reply (3 ∷ 4 ∷ [])
busy t c = reply []

-- What the child of mp-echo-server does with its client: the third turn follows a read that has failed.
busy_child :
    (echo_child 3 (pos 3) (pos 4) busy []).1
    ≡ write (pos 4) (7 ∷ 8 ∷ [])
      ∷ read (pos 4) 1024
      ∷ write_negative (pos 4)
      ∷ read (pos 4) 1024
      ∷ write (pos 4) (7 ∷ 8 ∷ [])
      ∷ read (pos 4) 1024
      ∷ close (pos 3)
      ∷ []
unfolding echo_child echo_client
busy_child = refl

busy_epoll :
    (epoll_event (pos 3) (pos 5) 4 busy []).1 ≡ write (pos 4) (7 ∷ 8 ∷ []) ∷ read (pos 4) 64 ∷ []
unfolding epoll_event
busy_epoll = refl

busy_select :
    (select_event 3 4 none_watched busy []).1 ≡ write (pos 4) (7 ∷ 8 ∷ []) ∷ read (pos 4) 64 ∷ []
unfolding select_event
busy_select = refl

echo_servers-EchoOnly_example :
    EchoOnly busy (echo_server 3 7 busy []).1
    × EchoOnly busy (mp_echo_server 3 7 busy []).1
    × EchoOnly busy (select_server 3 7 busy []).1
    × EchoOnly busy (epoll_server 3 7 busy []).1
echo_servers-EchoOnly_example = echo_servers-EchoOnly 3 7 busy

abbrev client : Env
client (close fd ∷ t) (read f n) = reply (1 ∷ 2 ∷ [])
client (write fd (a ∷ b ∷ bytes) ∷ t) (read f n) = reply (5 ∷ [])
client t c = reply []

echo_child-all_example :
    let calls =
      close (pos 4) ∷ echoing (pos 4) ((1 ∷ 2 ∷ []) ∷ (5 ∷ []) ∷ []) (close (pos 3) ∷ []) in
    (echo_child 3 (pos 3) (pos 4) client [] ≡ (done (some tt), calls))
    × (written (pos 4) calls ≡ written (pos 4) [] ++ (1 ∷ 2 ∷ 5 ∷ []))
echo_child-all_example =
    echo_child-all 3 4 (pos 3) ((1 ∷ 2 ∷ []) ∷ (5 ∷ []) ∷ []) client []
      (omega arith, refl, refl, (omega arith, refl, refl, refl)) (omega arith)

abbrev answered : ℕ → List ℕ → Reply
answered ret out = record { ret = pos ret; out = out; errno = 0 }

-- "hi" and "q" are typed, and 127.0.0.1 answers "hi".
abbrev typist : Env
typist (connect s a ∷ t) (fgets n) = answered 1 (104 ∷ 105 ∷ 10 ∷ [])
typist t (fgets n) = answered 1 (113 ∷ 10 ∷ [])
typist t (read s n) = answered 2 (104 ∷ 105 ∷ [])
typist t (socket af type protocol) = answered 3 []
typist t (inet_addr text) = answered 0x0100007f []
typist t c = answered 0 []

abbrev hi : Exchange
hi = record { text = 104 ∷ 105 ∷ []; answer = 104 ∷ 105 ∷ [] }

hi_text : All (λ b. b ≢ 0) hi.text
hi_text = ((λ e. absurd (omega arith)), ((λ e. absurd (omega arith)), tt))

hi_no_quit : is_quit hi.text ≡ false
unfolding bytes_eq
hi_no_quit = refl

client_main_talks_example :
    let calls =
      close (pos 3)
      ∷ exchanging (pos 3) (hi ∷ []) (connecting (pos 3) loopback 9000 0x0100007f []) in
    (client_main 2 loopback 9000 typist [] ≡ (done (some ((104 ∷ 105 ∷ []) ∷ [])), calls))
    × (written (pos 3) calls ≡ written (pos 3) [] ++ (104 ∷ 105 ∷ []))
client_main_talks_example =
    client_main_talks 2 3 9000 0x0100007f loopback (hi ∷ []) typist [] (refl, refl, refl, refl)
      (
        refl,
        refl,
        (omega arith, hi_text, hi_no_quit),
        refl,
        refl,
        omega arith,
        hi_text,
        inr (refl, refl),
      )
      (omega arith)

-- Two datagrams, from two ports.
abbrev sender : List Call → Addr
sender (recvfrom s n ∷ sendto s1 bytes a ∷ t) = inet 2 20000 0x0100007f
sender t = inet 2 30000 0x0100007f

abbrev arriving : Env
arriving (sendto s bytes a ∷ t) (recvfrom s1 n) = answered 1 (7 ∷ [])
arriving t (recvfrom s n) = answered 2 (1 ∷ 2 ∷ [])
arriving t (socket af type protocol) = answered 3 []
arriving t c = answered 0 []

udp_server-answers_example :
    udp_server 2 sender arriving []
    ≡ (done none, answering sender (pos 3) ((1 ∷ 2 ∷ []) ∷ (7 ∷ []) ∷ []) (bound (pos 3) []))
udp_server-answers_example =
    udp_server-answers sender 3 ((1 ∷ 2 ∷ []) ∷ (7 ∷ []) ∷ []) arriving [] refl refl
      (refl, refl, omega arith, (refl, refl, omega arith, tt))

-- "hi" and "q" are typed into uecho-client.
abbrev udp_typist : Env
udp_typist (gethostbyname host ∷ t) (fgets n) = answered 1 (104 ∷ 105 ∷ 10 ∷ [])
udp_typist t (fgets n) = answered 1 (113 ∷ 10 ∷ [])
udp_typist t (recvfrom s n) = answered 2 (104 ∷ 105 ∷ [])
udp_typist t (socket af type protocol) = answered 3 []
udp_typist t (gethostbyname host) = answered 1 (127 ∷ 0 ∷ 0 ∷ 1 ∷ [])
udp_typist t c = answered 0 []

udp_client_prints_example : udp_client 2 udp_typist [] ≡ (
  done (some ((104 ∷ 105 ∷ []) ∷ [])),
  close (pos 3)
      ∷ talking (pos 3) server_addr (hi ∷ []) (gethostbyname loopback ∷ socket 2 2 0 ∷ []),
)
udp_client_prints_example =
    udp_client_prints 2 3 (hi ∷ []) udp_typist [] refl refl refl
      (
        refl,
        refl,
        (omega arith, hi_text, hi_no_quit),
        omega arith,
        refl,
        refl,
        omega arith,
        hi_text,
        (refl, refl),
      )
      (omega arith)
