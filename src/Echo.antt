-- ===== src/Echo.antt =====
-- The echo servers over TCP: src/echo-server.c, src/mp-echo-server.c, src/select-echo-server.c and
-- src/epoll-echo-server.c. A server is watched for a number of turns: `none` says that it goes on. A
-- store outside a buffer and a descriptor outside an `fd_set` are faults. What the servers print is
-- left out.
pub mod Only
pub mod All
pub mod Client
pub mod Udp
pub mod Typed
mod Tests
use socketlab.Base.{
  ℕ, zero, suc, ◌+◌, List, [], ◌∷◌, Option, none, some, Bool, true, false, ◌==◌, ltb, ◌&&◌, ◌||◌,
  if◌then◌else◌, max, take, htons, u16, le32,
}
use socketlab.Base.Int.{ℤ, pos, is_neg, is_minus_one, is_zero, to_nat}
use socketlab.Sys.{
  Sys, Call, Reply, fork, socket, bind, listen, accept, read, write, write_negative, close, select,
  epoll_create, epoll_add, epoll_del, epoll_wait, inet, pure, exit, fault, call, ◌>>=◌, ◌>>◌,
  when◌run◌otherwise◌,
}
use socketlab.Sys.Files.{same_fd}
use socketlab.Net.SockIf.{af_inet}
use socketlab.Net.Common.{server, sock_stream}

-- `write` of what `read` has returned. The count is that of `read`, also when it has failed.
abbrev pub write_back : ℤ → Reply → Call
write_back fd r = if is_neg r.ret then write_negative fd else write fd (take (to_nat r.ret) r.out)

-- The connection of a client, in echo-server.c and in a child of mp-echo-server.c.
unfoldable pub echo_client : ℕ → ℤ → Sys (Option Unit)
echo_client zero fd = pure none
echo_client (suc turns) fd = do
  r ← call (read fd 1024)
  when is_zero r.ret run pure (some tt) otherwise (do call (write_back fd r); echo_client turns fd)

-- The part of the loop over the clients behind `echo_client`.
abbrev pub if_over : {A : Type 0} → Option A → Sys (Option A) → Sys (Option A)
if_over none m = pure none
if_over (some u) m = m

-- `n` clients, one after the other.
unfoldable pub echo_clients : (turns n : ℕ) → ℤ → Sys (Option Unit)
echo_clients turns zero serv_sock = pure (some tt)
echo_clients turns (suc n) serv_sock = do
  c ← call (accept serv_sock)
  when is_minus_one c.ret run exit 1 otherwise (do
    over ← echo_client turns c.ret
    if_over over (do call (close c.ret); echo_clients turns n serv_sock))

-- `main` of echo-server.c, for a port.
unfoldable pub echo_server : (turns port : ℕ) → Sys (Option Unit)
echo_server turns port = do
  s ← call (socket af_inet sock_stream 0)
  when is_minus_one s.ret run exit 1 otherwise (do
    b ← call (bind s.ret (inet af_inet (htons (u16 port)) 0))
    when is_minus_one b.ret run exit 1 otherwise (do
      l ← call (listen s.ret 5)
      when is_minus_one l.ret run exit 1 otherwise (do
        over ← echo_clients turns 5 s.ret
        if_over over (do call (close s.ret); pure (some tt)))))

-- A child of mp-echo-server.c.
unfoldable pub echo_child : (turns : ℕ) → (serv_sock clnt_sock : ℤ) → Sys (Option Unit)
echo_child turns serv_sock clnt_sock = do
  call (close serv_sock)
  over ← echo_client turns clnt_sock
  if_over over (do call (close clnt_sock); pure (some tt))

-- A turn of the loop of mp-echo-server.c: `some` is what a child ends with, and `none` says that the
-- parent goes on.
unfoldable pub mp_turn : (turns : ℕ) → ℤ → Sys (Option (Option Unit))
mp_turn turns serv_sock = do
  c ← call (accept serv_sock)
  when is_minus_one c.ret run pure none otherwise (do
    f ← call fork
    when is_zero f.ret
        run (do over ← echo_child turns serv_sock c.ret; pure (some over))
        otherwise (when is_neg f.ret run exit 1 otherwise (do call (close c.ret); pure none)))

-- What follows a turn that has not ended the process.
abbrev pub or_on : {A : Type 0} → Option A → Sys A → Sys A
or_on none m = m
or_on (some a) m = pure a

unfoldable pub mp_loop : (turns : ℕ) → ℤ → Sys (Option Unit)
mp_loop zero serv_sock = pure none
mp_loop (suc turns) serv_sock = do
  over ← mp_turn turns serv_sock
  or_on over (mp_loop turns serv_sock)

-- `main` of mp-echo-server.c, of the process that a run follows: the parent, or a child from its `fork`
-- on. The handler of SIGCHLD is left out.
unfoldable pub mp_echo_server : (turns port : ℕ) → Sys (Option Unit)
mp_echo_server turns port = do
  s ← call (socket af_inet sock_stream 0)
  when is_minus_one s.ret run exit 1 otherwise (do
    b ← call (bind s.ret (inet af_inet (htons (u16 port)) 0))
    when is_minus_one b.ret run exit 1 otherwise (do
      l ← call (listen s.ret 5)
      when is_minus_one l.ret run exit 1 otherwise mp_loop turns s.ret))

-- FD_SETSIZE, and an `fd_set` as the list of its descriptors.
abbrev pub fd_setsize : ℕ
fd_setsize = 1024

abbrev pub fd_isset : ℕ → List ℕ → Bool
fd_isset i [] = false
fd_isset i (x ∷ fds) = (i == x) || fd_isset i fds

abbrev pub fd_set : ℕ → List ℕ → List ℕ
fd_set i fds = if fd_isset i fds then fds else i ∷ fds

abbrev pub fd_clr : ℕ → List ℕ → List ℕ
fd_clr i [] = []
fd_clr i (x ∷ fds) = if i == x then fd_clr i fds else x ∷ fd_clr i fds

-- `reads` and `max_fd`
pub record Watch : Type 0 where
  pub reads : List ℕ
  pub max_fd : ℕ

abbrev pub none_watched : Watch
none_watched = record { reads = []; max_fd = 0 }

-- A new client. `clnt_fd` is not compared with -1.
unfoldable pub watch_client : ℤ → Watch → Sys Watch
watch_client clnt_fd w =
    when is_neg clnt_fd
    run fault
    otherwise (when ltb (to_nat clnt_fd) fd_setsize
        run pure (record {
          reads = fd_set (to_nat clnt_fd) w.reads;
          max_fd = max w.max_fd (to_nat clnt_fd + 1);
        })
        otherwise fault)

-- A descriptor that `select` has found.
unfoldable pub select_event : ℕ → ℕ → Watch → Sys Watch
select_event fd i w =
    when i == fd run (do c ← call (accept (pos fd)); watch_client c.ret w) otherwise (do
      r ← call (read (pos i) 64)
      when is_zero r.ret
          run (do
            call (close (pos i))
            pure (record { reads = fd_clr i w.reads; max_fd = w.max_fd }))
          otherwise (do call (write_back (pos i) r); pure w))

-- The loop over the descriptors, from `i` on, of which `slots` are left in an `fd_set`.
unfoldable pub select_scan : List ℕ → ℕ → (slots i : ℕ) → Watch → Sys Watch
select_scan look fd zero i w = pure w
select_scan look fd (suc slots) i w =
    when ltb i w.max_fd && fd_isset i look
    run (do next ← select_event fd i w; select_scan look fd slots (suc i) next)
    otherwise select_scan look fd slots (suc i) w

-- The loop of `main`, which ends when `select` fails; the answer of `select` has the set `look`.
unfoldable pub select_loop : (turns fd : ℕ) → Watch → Sys (Option Unit)
select_loop zero fd w = pure none
select_loop (suc turns) fd w = do
  r ← call (select w.max_fd w.reads)
  when is_minus_one r.ret
      run (do call (close (pos fd)); pure (some tt))
      otherwise (when is_zero r.ret
          run select_loop turns fd w
          otherwise (do next ← select_scan r.out fd fd_setsize 0 w; select_loop turns fd next))

-- `main` of select-echo-server.c. `Assert` aborts.
unfoldable pub select_server : (turns port : ℕ) → Sys (Option Unit)
select_server turns port = do
  fd ← server port
  when is_minus_one fd
      run exit 134
      otherwise (do w ← watch_client fd none_watched; select_loop turns (to_nat fd) w)

-- An event of epoll-echo-server.c. Its buffer has 64 bytes, and a zero is stored behind the text: when
-- `read` fails, before the buffer.
unfoldable pub epoll_event : (sockfd epfd : ℤ) → ℕ → Sys Unit
epoll_event sockfd epfd fd =
    when same_fd (pos fd) sockfd
    run (do c ← call (accept sockfd); call (epoll_add epfd c.ret); pure tt)
    otherwise (do
      r ← call (read (pos fd) 64)
      when is_zero r.ret
          run (do call (epoll_del epfd (pos fd)); call (close (pos fd)); pure tt)
          otherwise (when is_neg r.ret
              run fault
              otherwise (when ltb (to_nat r.ret) 64
                  run (do call (write (pos fd) (take (to_nat r.ret) r.out)); pure tt)
                  otherwise fault)))

unfoldable pub epoll_events : (sockfd epfd : ℤ) → List ℕ → Sys Unit
epoll_events sockfd epfd [] = pure tt
epoll_events sockfd epfd (fd ∷ fds) = do epoll_event sockfd epfd fd; epoll_events sockfd epfd fds

-- The loop of `main`; the answer of `epoll_wait` has the descriptors of `events`.
unfoldable pub epoll_loop : ℕ → (sockfd epfd : ℤ) → Sys (Option Unit)
epoll_loop zero sockfd epfd = pure none
epoll_loop (suc turns) sockfd epfd = do
  r ← call (epoll_wait epfd)
  when is_minus_one r.ret
      run (do call (close sockfd); call (close epfd); pure (some tt))
      otherwise (do
        epoll_events sockfd epfd (take (to_nat r.ret) r.out)
        epoll_loop turns sockfd epfd)

-- `main` of epoll-echo-server.c.
unfoldable pub epoll_server : (turns port : ℕ) → Sys (Option Unit)
epoll_server turns port = do
  sockfd ← server port
  when is_minus_one sockfd run exit 134 otherwise (do
    e ← call epoll_create
    when is_minus_one e.ret
        run exit 134
        otherwise (do call (epoll_add e.ret sockfd); epoll_loop turns sockfd e.ret))
