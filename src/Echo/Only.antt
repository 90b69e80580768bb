-- ===== src/Echo/Only.antt =====
-- The echo servers send a client nothing but what it has just sent.
use socketlab.Base.{
  ℕ, zero, suc, ◌≡◌, refl, Bool-cases, inl, inr, List, [], ◌∷◌, Bool, true, false, if◌then◌else◌,
  take, ltb, ◌==◌, ◌&&◌, Option, some, none, htons, u16, le32,
}
use socketlab.Base.Int.{ℤ, pos, is_neg, is_minus_one, is_zero, to_nat}
use socketlab.Sys.Files.{same_fd}
use socketlab.Net.SockIf.{af_inet}
use socketlab.Net.Common.{sock_stream, so_reuseaddr}
use socketlab.Sys.{
  socket, bind, listen, setsockopt, inet, epoll_create, epoll_add, Sys, Call, read, write, close,
  write_negative, fork, accept, select, epoll_wait, Env, Outcome, done, exited, faulted, then_do,
}
use socketlab.Net.Common.{server, make_socket, make_sockaddr}
use socketlab.Echo.{
  write_back, echo_client, if_over, fd_setsize, fd_isset, none_watched, echo_clients, mp_turn,
  or_on, mp_loop, mp_echo_server, echo_server, echo_child, Watch, watch_client, select_event,
  select_scan, select_loop, select_server, epoll_event, epoll_events, epoll_loop, epoll_server,
}

-- The last call read `bytes` from `fd`.
abbrev JustRead : Env → ℤ → List ℕ → List Call → Type 0
JustRead env fd bytes [] = ⊥
JustRead env fd bytes (read f n ∷ t) =
    (f ≡ fd) × (take (to_nat (env t (read f n)).ret) (env t (read f n)).out ≡ bytes)
JustRead env fd bytes (c ∷ t) = ⊥

-- The last call was a read from `fd`, which has failed.
abbrev JustFailed : Env → ℤ → List Call → Type 0
JustFailed env fd [] = ⊥
JustFailed env fd (read f n ∷ t) = (f ≡ fd) × (is_neg (env t (read f n)).ret ≡ true)
JustFailed env fd (c ∷ t) = ⊥

-- Each `write` of a run follows a `read` of the same descriptor, and writes what was read, or has the
-- count -1 if the `read` has failed.
unfoldable pub EchoOnly : Env → List Call → Type 0
EchoOnly env [] = Unit
EchoOnly env (write fd bytes ∷ t) = JustRead env fd bytes t × EchoOnly env t
EchoOnly env (write_negative fd ∷ t) = JustFailed env fd t × EchoOnly env t
EchoOnly env (c ∷ t) = EchoOnly env t

-- A run has written nothing else, however it has ended.
record Echoed {A : Type 0} (env : Env) (r : Outcome A × List Call) : Type 0 where
  echoes : EchoOnly env r.1

abbrev Echoes : {A : Type 0} → Sys A → Type 0
Echoes m = (env : Env) (t : List Call) → EchoOnly env t → Echoed env (m env t)

ends : {A : Type 0} {env : Env} {o : Outcome A} {u : List Call} → EchoOnly env u → Echoed env (o, u)
ends h = record { echoes = h }

then_do-Echoed :
    {A B : Type 0} (env : Env) (r : Outcome A × List Call) (f : A → Sys B)
    → Echoed env r
    → ((a : A) → Echoes (f a))
    → Echoed env (then_do r f env)
then_do-Echoed env (done a, u) f h k = k a env u h.echoes
then_do-Echoed env (exited s, u) f h k = ends h.echoes
then_do-Echoed env (faulted, u) f h k = ends h.echoes

if-Echoed :
    {A : Type 0} (env : Env) (b : Bool) (r r' : Outcome A × List Call)
    → Echoed env r
    → Echoed env r'
    → Echoed env (if b then r else r')
if-Echoed env true r r' h k = h
if-Echoed env false r r' h k = k

if_over-Echoes : {A : Type 0} (o : Option A) (m : Sys (Option A)) → Echoes m → Echoes (if_over o m)
if_over-Echoes none m k env t h = ends h
if_over-Echoes (some a) m k env t h = k env t h

write_back-EchoOnly :
    (fd : ℤ) (n : ℕ) (env : Env) (t : List Call)
    → EchoOnly env t
    → EchoOnly env (write_back fd (env t (read fd n)) ∷ read fd n ∷ t)
unfolding EchoOnly
write_back-EchoOnly fd n env t h = elim (Bool-cases (is_neg (env t (read fd n)).ret)) [
  | inl e ↦ rw e ((refl, e), h)
  | inr e ↦ rw e ((refl, refl), h)
]

echo_client-Echoes : (turns : ℕ) (fd : ℤ) → Echoes (echo_client turns fd)
unfolding echo_client EchoOnly
echo_client-Echoes zero fd env t h = ends h
echo_client-Echoes (suc turns) fd env t h =
    let n = (env t (read fd 1024)).ret in
    if-Echoed env (is_zero n) _ _ (ends h)
      (echo_client-Echoes turns fd env _ (write_back-EchoOnly fd 1024 env t h))

echo_clients-Echoes : (turns n : ℕ) (fd : ℤ) → Echoes (echo_clients turns n fd)
unfolding echo_clients EchoOnly
echo_clients-Echoes turns zero fd env t h = ends h
echo_clients-Echoes turns (suc n) fd env t h =
    let c = (env t (accept fd)).ret in
    if-Echoed env (is_minus_one c) _ _ (ends h) (
      then_do-Echoed env (echo_client turns c env (accept fd ∷ t)) _
        (echo_client-Echoes turns c env (accept fd ∷ t) h)
        (λ over.
          if_over-Echoes over _ (λ env' u k. echo_clients-Echoes turns n fd env' (close c ∷ u) k)))

echo_server-Echoes : (turns port : ℕ) → Echoes (echo_server turns port)
unfolding echo_server EchoOnly
echo_server-Echoes turns port env t h =
    let s = socket af_inet sock_stream 0 in
    let fd = (env t s).ret in
    let b = bind fd (inet af_inet (htons (u16 port)) 0) in
    let l = listen fd 5 in
    if-Echoed env (is_minus_one fd) _ _ (ends h) (
      if-Echoed env (is_minus_one (env (s ∷ t) b).ret) _ _ (ends h) (
        if-Echoed env (is_minus_one (env (b ∷ s ∷ t) l).ret) _ _ (ends h) (
          then_do-Echoed env (echo_clients turns 5 fd env (l ∷ b ∷ s ∷ t)) _
            (echo_clients-Echoes turns 5 fd env (l ∷ b ∷ s ∷ t) h)
            (λ over. if_over-Echoes over _ (λ env' u k. ends k)))))

echo_child-Echoes : (turns : ℕ) (serv clnt : ℤ) → Echoes (echo_child turns serv clnt)
unfolding echo_child EchoOnly
echo_child-Echoes turns serv clnt env t h =
    then_do-Echoed env (echo_client turns clnt env (close serv ∷ t)) _
      (echo_client-Echoes turns clnt env (close serv ∷ t) h)
      (λ over. if_over-Echoes over _ (λ env' u k. ends k))

mp_turn-Echoes : (turns : ℕ) (serv : ℤ) → Echoes (mp_turn turns serv)
unfolding mp_turn EchoOnly
mp_turn-Echoes turns serv env t h =
    let c = (env t (accept serv)).ret in
    let f = (env (accept serv ∷ t) fork).ret in
    if-Echoed env (is_minus_one c) _ _ (ends h) (
      if-Echoed env (is_zero f) _ _
        (then_do-Echoed env (echo_child turns serv c env (fork ∷ accept serv ∷ t)) _
          (echo_child-Echoes turns serv c env (fork ∷ accept serv ∷ t) h) (λ over env' u k. ends k))
        (if-Echoed env (is_neg f) _ _ (ends h) (ends h)))

or_on-Echoes : {A : Type 0} (o : Option A) (m : Sys A) → Echoes m → Echoes (or_on o m)
or_on-Echoes none m k env t h = k env t h
or_on-Echoes (some a) m k env t h = ends h

mp_loop-Echoes : (turns : ℕ) (serv : ℤ) → Echoes (mp_loop turns serv)
unfolding mp_loop
mp_loop-Echoes zero serv env t h = ends h
mp_loop-Echoes (suc turns) serv env t h =
    then_do-Echoed env (mp_turn turns serv env t) _ (mp_turn-Echoes turns serv env t h)
      (λ over. or_on-Echoes over _ (mp_loop-Echoes turns serv))

mp_echo_server-Echoes : (turns port : ℕ) → Echoes (mp_echo_server turns port)
unfolding mp_echo_server EchoOnly
mp_echo_server-Echoes turns port env t h =
    let s = socket af_inet sock_stream 0 in
    let fd = (env t s).ret in
    let b = bind fd (inet af_inet (htons (u16 port)) 0) in
    let l = listen fd 5 in
    if-Echoed env (is_minus_one fd) _ _ (ends h) (
      if-Echoed env (is_minus_one (env (s ∷ t) b).ret) _ _ (ends h) (
        if-Echoed env (is_minus_one (env (b ∷ s ∷ t) l).ret) _ _ (ends h)
          (mp_loop-Echoes turns fd env (l ∷ b ∷ s ∷ t) h)))

server-Echoes : (port : ℕ) → Echoes (server port)
unfolding server EchoOnly make_socket make_sockaddr
server-Echoes port env t h =
    let s = socket af_inet sock_stream 0 in
    let fd = (env t s).ret in
    let o = setsockopt fd so_reuseaddr (le32 1) in
    let b = bind fd (inet af_inet (htons (u16 port)) 0) in
    let l = listen fd 5 in
    if-Echoed env (is_minus_one fd) _ _ (ends h) (
      if-Echoed env (is_minus_one (env (o ∷ s ∷ t) b).ret) _ _ (ends h)
        (if-Echoed env (is_minus_one (env (b ∷ o ∷ s ∷ t) l).ret) _ _ (ends h) (ends h)))

watch_client-Echoes : (clnt : ℤ) (w : Watch) → Echoes (watch_client clnt w)
unfolding watch_client
watch_client-Echoes clnt w env t h =
    if-Echoed env (is_neg clnt) _ _ (ends h)
      (if-Echoed env (ltb (to_nat clnt) fd_setsize) _ _ (ends h) (ends h))

select_event-Echoes : (fd i : ℕ) (w : Watch) → Echoes (select_event fd i w)
unfolding select_event EchoOnly
select_event-Echoes fd i w env t h =
    let n = (env t (read (pos i) 64)).ret in
    if-Echoed env (i == fd) _ _
      (watch_client-Echoes (env t (accept (pos fd))).ret w env (accept (pos fd) ∷ t) h)
      (if-Echoed env (is_zero n) _ _ (ends h) (ends (write_back-EchoOnly (pos i) 64 env t h)))

select_scan-Echoes :
    (look : List ℕ) (fd slots i : ℕ) (w : Watch) → Echoes (select_scan look fd slots i w)
unfolding select_scan
select_scan-Echoes look fd zero i w env t h = ends h
select_scan-Echoes look fd (suc slots) i w env t h =
    if-Echoed env (ltb i w.max_fd && fd_isset i look) _ _
      (then_do-Echoed env (select_event fd i w env t) _ (select_event-Echoes fd i w env t h)
        (λ next. select_scan-Echoes look fd slots (suc i) next))
      (select_scan-Echoes look fd slots (suc i) w env t h)

select_loop-Echoes : (turns fd : ℕ) (w : Watch) → Echoes (select_loop turns fd w)
unfolding select_loop EchoOnly
select_loop-Echoes zero fd w env t h = ends h
select_loop-Echoes (suc turns) fd w env t h =
    let s = select w.max_fd w.reads in
    if-Echoed env (is_minus_one (env t s).ret) _ _ (ends h) (
      if-Echoed env (is_zero (env t s).ret) _ _ (select_loop-Echoes turns fd w env (s ∷ t) h) (
        then_do-Echoed env (select_scan (env t s).out fd fd_setsize 0 w env (s ∷ t)) _
          (select_scan-Echoes (env t s).out fd fd_setsize 0 w env (s ∷ t) h)
          (λ next. select_loop-Echoes turns fd next)))

select_server-Echoes : (turns port : ℕ) → Echoes (select_server turns port)
unfolding select_server
select_server-Echoes turns port env t h =
    then_do-Echoed env (server port env t) _ (server-Echoes port env t h) (λ fd env' u k.
      if-Echoed env' (is_minus_one fd) _ _ (ends k) (
        then_do-Echoed env' (watch_client fd none_watched env' u) _
          (watch_client-Echoes fd none_watched env' u k)
          (λ w. select_loop-Echoes turns (to_nat fd) w)))

epoll_event-Echoes : (sockfd epfd : ℤ) (fd : ℕ) → Echoes (epoll_event sockfd epfd fd)
unfolding epoll_event EchoOnly
epoll_event-Echoes sockfd epfd fd env t h =
    let n = (env t (read (pos fd) 64)).ret in
    if-Echoed env (same_fd (pos fd) sockfd) _ _ (ends h) (
      if-Echoed env (is_zero n) _ _ (ends h) (
        if-Echoed env (is_neg n) _ _ (ends h)
          (if-Echoed env (ltb (to_nat n) 64) _ _ (ends ((refl, refl), h)) (ends h))))

epoll_events-Echoes : (sockfd epfd : ℤ) (fds : List ℕ) → Echoes (epoll_events sockfd epfd fds)
unfolding epoll_events
epoll_events-Echoes sockfd epfd [] env t h = ends h
epoll_events-Echoes sockfd epfd (fd ∷ fds) env t h =
    then_do-Echoed env (epoll_event sockfd epfd fd env t) _
      (epoll_event-Echoes sockfd epfd fd env t h) (λ u. epoll_events-Echoes sockfd epfd fds)

epoll_loop-Echoes : (turns : ℕ) (sockfd epfd : ℤ) → Echoes (epoll_loop turns sockfd epfd)
unfolding epoll_loop EchoOnly
epoll_loop-Echoes zero sockfd epfd env t h = ends h
epoll_loop-Echoes (suc turns) sockfd epfd env t h =
    let r = env t (epoll_wait epfd) in
    let found = take (to_nat r.ret) r.out in
    if-Echoed env (is_minus_one r.ret) _ _ (ends h) (
      then_do-Echoed env (epoll_events sockfd epfd found env (epoll_wait epfd ∷ t)) _
        (epoll_events-Echoes sockfd epfd found env (epoll_wait epfd ∷ t) h)
        (λ u. epoll_loop-Echoes turns sockfd epfd))

epoll_server-Echoes : (turns port : ℕ) → Echoes (epoll_server turns port)
unfolding epoll_server EchoOnly
epoll_server-Echoes turns port env t h =
    then_do-Echoed env (server port env t) _ (server-Echoes port env t h) (λ sockfd env' u k.
      let e = (env' u epoll_create).ret in
      if-Echoed env' (is_minus_one sockfd) _ _ (ends k) (
        if-Echoed env' (is_minus_one e) _ _ (ends k)
          (epoll_loop-Echoes turns sockfd e env' (epoll_add e sockfd ∷ epoll_create ∷ u) k)))

-- Whatever the network does, and for however many turns they are watched, echo-server, mp-echo-server
-- (its parent, and a child from the fork on), select-echo-server and epoll-echo-server send a client only
-- what they have read from it just before, and the whole of that: in their runs every `write` stands directly behind a `read` of the
-- same descriptor, and writes the bytes that the `read` has returned; a `write` with the count -1 stands
-- directly behind a `read` that has failed.
pub echo_servers-EchoOnly :
    (turns port : ℕ) (env : Env)
    → EchoOnly env (echo_server turns port env []).1
      × EchoOnly env (mp_echo_server turns port env []).1
      × EchoOnly env (select_server turns port env []).1
      × EchoOnly env (epoll_server turns port env []).1
unfolding EchoOnly
echo_servers-EchoOnly turns port env = (
  (echo_server-Echoes turns port env [] tt).echoes,
  (mp_echo_server-Echoes turns port env [] tt).echoes,
  (select_server-Echoes turns port env [] tt).echoes,
  (epoll_server-Echoes turns port env [] tt).echoes,
)
