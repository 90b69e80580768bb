-- ===== src/Itfs.antt =====
-- src/get_itfs.c: the interfaces and their addresses, as `getifaddrs` lists them. Its list and
-- `getnameinfo` are parameters.
mod Tests
use socketlab.Base.{
  ℕ, ◌<◌, ◌≡◌, refl, List, [], ◌∷◌, Option, none, some, Bool, ◌||◌, ◌==◌, if◌then◌else◌, length,
  arith, ap, All,
}
use mathlib.Core.Option
use socketlab.Base.Int.{ℤ, pos, negsuc}

-- An address: its family, and its bytes.
pub record SockAddr : Type 0 where
  pub family : ℕ
  pub bytes : List ℕ

-- `struct ifaddrs`; `ifa_addr` may be a null pointer.
pub record Ifaddrs : Type 0 where
  pub ifa_name : List ℕ
  pub ifa_addr : Option SockAddr

-- What is printed: the name and the family, and the address for the families that have one.
pub data Output : Type 0 where
  itf : (name : List ℕ) (family : ℕ) → Output
  addr : (host : List ℕ) → Output

-- How the program ends, with what it has printed: a value that `main` returns, or a null pointer that
-- it follows.
pub data Ended : Type 0 where
  returned : ℤ → List Output → Ended
  null_pointer : List Output → Ended

abbrev pub before : Output → Ended → Ended
before p (returned n ps) = returned n (p ∷ ps)
before p (null_pointer ps) = null_pointer (p ∷ ps)

-- AF_INET and AF_INET6
abbrev pub has_host : ℕ → Bool
has_host family = (family == 2) || (family == 10)

module _ (getnameinfo : SockAddr → Option (List ℕ)) where
  -- The part of a turn behind `getnameinfo`.
  abbrev pub print_host : Option (List ℕ) → Ended → Ended
  print_host none rest = returned (negsuc 0) []
  print_host (some host) rest = before (addr host) rest

  abbrev pub print_addr : List ℕ → Option SockAddr → Ended → Ended
  print_addr name none rest = null_pointer []
  print_addr name (some a) rest =
      before (itf name a.family)
        (if has_host a.family then print_host (getnameinfo a) rest else rest)

  unfoldable pub print_itfs : List Ifaddrs → Ended
  print_itfs [] = returned (pos 0) []
  print_itfs (i ∷ itfs) = print_addr i.ifa_name i.ifa_addr (print_itfs itfs)

  unfoldable pub get_itfs : Option (List Ifaddrs) → Ended
  get_itfs none = returned (negsuc 0) []
  get_itfs (some itfs) = print_itfs itfs
