-- ===== src/Ping/Stats.antt =====
-- What ping counts.
use mathlib.Core.Path.{subst}
use socketlab.Base.{
  ℕ, zero, suc, ◌+◌, ◌^◌, ◌≤◌, ◌<◌, ◌≡◌, ◌⊎◌, refl, true, false, arith, List, ◌∷◌, htons, u16,
}
use socketlab.Base.Int.{ℤ, is_neg, is_zero, to_nat, bits32}
use socketlab.Sys.{Env, Call, socket, gethostbyname, getpid, clock_gettime, Addr, inet}
use socketlab.Sys.Ends.{Ends, then_do-Ends}
use socketlab.Net.SockIf.{af_inet, sock_raw}
use socketlab.Net.Common.{make_sockaddr}
use socketlab.Netpackets.Ipv4.{long_at}
use socketlab.Clock.{get_timestamp_us}
use socketlab.Ping.{
  RecvData, PingStats, rtt_stats, echo_request, send_icmp_echo, send_packet, recv_icmp_echo,
  count_reply, ping_turn, ping_loop, ping, recv_success, ipproto_icmp,
}
use socketlab.Util.Round.{u64_min, u64_max}
use socketlab.Ping.Wire.{echo_request-checks}

-- The statistics after `k` requests.
pub record Counts (k : ℕ) (s : PingStats) : Type 0 where
  pub all_sent : s.sent ≡ k
  pub answered : s.recv ≤ k
  pub split : s.lost + s.rtt_count ≡ s.recv
  pub ordered : s.min_rtt ≤ s.max_rtt

count_reply-Counts :
    (k start : ℕ) (code : ℤ) (d : RecvData) (s t : PingStats)
    → k < 2 ^ 31
    → Counts k s
    → t ≡ record s { sent = suc k }
    → Counts (suc k) (count_reply start code d t)
unfolding count_reply rtt_stats u64_min u64_max
count_reply-Counts k start code d s t h v e = ground arith

-- A lookup of the host gives no null pointer, at whatever time.
abbrev pub Resolves : Env → List ℕ → Type 0
Resolves env ip = (t : List Call) → is_zero (env t (gethostbyname ip)).ret ≡ false

-- No condition.
abbrev Any : {A : Type 0} → A → Type 0
Any a = a ≡ a

send_packet-Ends :
    (sock : ℤ) (addr : Addr) (pid seq : ℕ) (env : Env) (t : List Call)
    → Ends (λ (r : ℤ). Any r) (send_packet sock addr (echo_request pid seq) env t)
unfolding send_packet
send_packet-Ends sock addr pid seq env t = rw (echo_request-checks pid seq).2 refl

send_icmp_echo-Ends :
    (sock : ℤ) (ip : List ℕ) (seq : ℕ) (env : Env) (t : List Call)
    → Resolves env ip
    → Ends (λ (r : ℤ). Any r) (send_icmp_echo sock ip seq env t)
unfolding send_icmp_echo make_sockaddr
send_icmp_echo-Ends sock ip seq env t resolves = rw (resolves t) (
    send_packet-Ends sock (inet af_inet (htons (u16 0)) (long_at (env t (gethostbyname ip)).out))
      (bits32 (env (gethostbyname ip ∷ t) getpid).ret) seq env (getpid ∷ gethostbyname ip ∷ t))

recv_icmp_echo-Ends :
    (junk : List ℕ) (sock : ℤ) (d : RecvData) (env : Env) (t : List Call)
    → Ends
        (λ (r : ℤ × RecvData). (r.0 ≡ recv_success) ⊎ (is_neg r.0 ≡ true))
        (recv_icmp_echo junk sock d env t)
unfolding recv_icmp_echo get_timestamp_us
recv_icmp_echo-Ends junk sock d env t = ground arith

-- A turn.
ping_turn-Counts :
    (junk : List ℕ) (sock : ℤ) (ip : List ℕ) (k seq : ℕ) (s : PingStats) (d : RecvData) (env : Env)
    (t : List Call)
    → Resolves env ip
    → k < 2 ^ 31
    → Counts k s
    → Ends
        (λ (r : PingStats × RecvData). Counts (suc k) r.0)
        (ping_turn junk sock ip seq (s, d) env t)
unfolding ping_turn get_timestamp_us
ping_turn-Counts junk sock ip k seq s d env t resolves h v =
    then_do-Ends (λ (r : ℤ). Any r) (λ (r : PingStats × RecvData). Counts (suc k) r.0) env
      (send_icmp_echo sock ip seq env (clock_gettime ∷ t)) _
      (send_icmp_echo-Ends sock ip seq env (clock_gettime ∷ t) resolves)
      (λ r u _.
        then_do-Ends (λ (r : ℤ × RecvData). (r.0 ≡ recv_success) ⊎ (is_neg r.0 ≡ true))
          (λ (r : PingStats × RecvData). Counts (suc k) r.0) env (recv_icmp_echo junk sock d env u)
          _ (recv_icmp_echo-Ends junk sock d env u)
          (λ c w _. count_reply-Counts k _ c.0 c.1 s _ h v (ground arith)))

ping_loop-Counts :
    (n : ℕ) (junk : List ℕ) (sock : ℤ) (ip : List ℕ) (i k m : ℕ) (s : PingStats × RecvData)
    (env : Env) (t : List Call)
    → Resolves env ip
    → m < 2 ^ 31
    → k + n ≡ m
    → Counts k s.0
    → Ends (λ (r : PingStats × RecvData). Counts m r.0) (ping_loop junk sock ip i n s env t)
unfolding ping_loop
ping_loop-Counts zero junk sock ip i k m s env t resolves h e v =
    subst (λ j. Counts j s.0) (omega arith) v
ping_loop-Counts (suc n) junk sock ip i k m (s, d) env t resolves h e v =
    then_do-Ends (λ (r : PingStats × RecvData). Counts (suc k) r.0)
      (λ (r : PingStats × RecvData). Counts m r.0) env (ping_turn junk sock ip (i + 1) (s, d) env t)
      _ (ping_turn-Counts junk sock ip k (i + 1) s d env t resolves (omega arith) v)
      (λ r u w.
        ping_loop-Counts n junk sock ip (i + 1) (suc k) m r env u resolves h (omega arith) w)

-- If the socket can be opened, every lookup of the host gives an address and `n` is an `int`, then
-- `ping`, from blank statistics, returns whatever else the system answers: it has counted `n` requests,
-- or none for a negative `n`, and no more answers than that, an answer is either counted as lost or its round trip is in the
-- statistics, and the shortest round trip is not above the longest.
pub ping-Counts :
    (junk : List ℕ) (d : RecvData) (ip : List ℕ) (n : ℤ) (s : PingStats) (env : Env) (t : List Call)
    → to_nat n < 2 ^ 31
    → is_neg (env t (socket af_inet sock_raw ipproto_icmp)).ret ≡ false
    → Resolves env ip
    → Counts 0 s
    → Ends (λ (r : PingStats). Counts (to_nat n) r) (ping junk d ip n s env t)
unfolding ping
ping-Counts junk d ip n s env t h opens resolves v = rw opens (
    then_do-Ends (λ (r : PingStats × RecvData). Counts (to_nat n) r.0)
      (λ (r : PingStats). Counts (to_nat n) r) env
      (ping_loop junk fd ip 0 (to_nat n) (s, d) env (socket af_inet sock_raw ipproto_icmp ∷ t)) _
      (ping_loop-Counts (to_nat n) junk fd ip 0 0 (to_nat n) (s, d) env
        (socket af_inet sock_raw ipproto_icmp ∷ t) resolves h (omega arith) v)
      (λ r u w. w))
  where
    fd : ℤ
    fd = (env t (socket af_inet sock_raw ipproto_icmp)).ret
