-- ===== src/Sys.antt =====
-- Calls of the operating system and of the C library's network functions. Their answers are a
-- parameter: any function of the calls made before. A run keeps its calls, latest first, and ends
-- with a value, with `exit`, or at an access outside an object.
pub mod Files
pub mod Ends
pub mod Lan
use socketlab.Base.{ℕ, List, [], ◌∷◌, ◌++◌, length, drop, Option, ◌≡◌, Bool, if◌then◌else◌}
use socketlab.Base.Int.{ℤ, is_neg, is_minus_one}

-- `struct sockaddr_in`, `struct sockaddr_ll` and `struct sockaddr_nl`, by the fields that the code fills.
pub data Addr : Type 0 where
  inet : (family port s_addr : ℕ) → Addr
  link : (family protocol : ℕ) → (ifindex : ℤ) → (hatype halen : ℕ) → (mac : List ℕ) → Addr
  netlink : (family pid groups : ℕ) → Addr
  no_addr : Addr

-- Texts are their bytes. `write_negative` is `write` with a negative count, for the kernel one above
-- SSIZE_MAX.
pub data Call : Type 0 where
  socket : (af type protocol : ℕ) → Call
  close : ℤ → Call
  bind : ℤ → Addr → Call
  listen : ℤ → ℕ → Call
  accept : ℤ → Call
  connect : ℤ → Addr → Call
  sendto : ℤ → List ℕ → Addr → Call
  recvfrom : ℤ → ℕ → Call
  recvmsg : ℤ → ℕ → Call
  poll : ℤ → ℕ → Call
  ioctl : ℤ → ℕ → List ℕ → Call
  setsockopt : ℤ → ℕ → List ℕ → Call
  getsockopt : ℤ → ℕ → ℕ → Call
  if_nametoindex : List ℕ → Call
  inet_pton : List ℕ → Call
  gethostbyname : List ℕ → Call
  clock_gettime : Call
  getpid : Call
  perror : Call
  read : ℤ → ℕ → Call
  write : ℤ → List ℕ → Call
  write_negative : ℤ → Call
  send : ℤ → List ℕ → Call
  recv : ℤ → ℕ → Call
  access : List ℕ → Call
  stat : List ℕ → Call
  fopen : List ℕ → (for_writing : Bool) → Call
  fread : ℤ → ℕ → Call
  fwrite : ℤ → List ℕ → Call
  fclose : ℤ → Call
  opendir : List ℕ → Call
  readdir : ℤ → Call
  closedir : ℤ → Call
  chdir : List ℕ → Call
  getcwd : Call
  select : (max_fd : ℕ) → List ℕ → Call
  epoll_create : Call
  epoll_add : ℤ → ℤ → Call
  epoll_del : ℤ → ℤ → Call
  epoll_wait : ℤ → Call
  inet_addr : List ℕ → Call
  fgets : (size : ℕ) → Call
  scanf_int : Call
  scanf_char : Call
  fork : Call
  execvp : List ℕ → List (List ℕ) → Call
  waitpid : ℤ → Call
  readline : (prompt : List ℕ) → Call

-- What a call returns (a pointer is its address, and 0 a null pointer): its value, the bytes that it writes for the caller, and `errno`.
pub record Reply : Type 0 where
  pub ret : ℤ
  pub out : List ℕ
  pub errno : ℕ

abbrev pub Env : Type 0
Env = List Call → Call → Reply

pub data Outcome (A : Type 0) : Type 0 where
  done : A → Outcome A
  exited : ℕ → Outcome A
  faulted : Outcome A

abbrev pub Sys : Type 0 → Type 0
Sys A = Env → List Call → Outcome A × List Call

abbrev pub pure : {A : Type 0} → A → Sys A
pure a env t = (done a, t)

abbrev pub exit : {A : Type 0} → ℕ → Sys A
exit status env t = (exited status, t)

abbrev pub fault : {A : Type 0} → Sys A
fault env t = (faulted, t)

abbrev pub call : Call → Sys Reply
call c env t = (done (env t c), c ∷ t)

abbrev pub then_do :
    {A B : Type 0} → Outcome A × List Call → (A → Sys B) → Env → Outcome B × List Call
then_do (done a, t) f env = f a env t
then_do (exited s, t) f env = (exited s, t)
then_do (faulted, t) f env = (faulted, t)

infixl 5 ◌>>=◌ ◌>>◌
abbrev pub ◌>>=◌ : {A B : Type 0} → Sys A → (A → Sys B) → Sys B
◌>>=◌ m f env t = then_do (m env t) f env

abbrev pub ◌>>◌ : {A B : Type 0} → Sys A → Sys B → Sys B
m >> k = m >>= λ _. k

-- `if` between two runs.
infix 1 when◌run◌otherwise◌
abbrev pub when◌run◌otherwise◌ : {A : Type 0} → Bool → Sys A → Sys A → Sys A
when◌run◌otherwise◌ b m k env t = if b then m env t else k env t

-- The calls report failure by -1 alone.
pub record IsPosix (env : Env) : Type 0 where
  pub minus_one : (t : List Call) (c : Call) → is_neg (env t c).ret ≡ is_minus_one (env t c).ret

-- A buffer whose first bytes are written: the others stay as they were.
abbrev pub filled : List ℕ → List ℕ → List ℕ
filled out old = out ++ drop (length out) old
