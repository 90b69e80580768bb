-- ===== src/Util/Itf/Descriptors.antt =====
-- The interface functions of util.c close their socket, and fill the address or fail.
use socketlab.Base.{ℕ, List, refl, arith, Bool, true, false}
use socketlab.Sys.{Env, Call, IsPosix, Sys, socket}
use socketlab.Sys.Files.{open_fds, HasOpen}
use socketlab.Net.SockIf.{Fills, af_inet, sock_dgram}
use socketlab.Net.SockIf.Descriptors.{FillsOrFails}
use socketlab.Util.Itf.{get_itf_mac, get_itf_ip4, get_itf_subnet_mask}

-- A run leaves the sockets as they were, and agrees with its value.
abbrev pub IsClean : Sys Fills → Env → List Call → Type 0
IsClean m env t = HasOpen env (open_fds env t) (m env t) × FillsOrFails (m env t).0

-- Where the calls report failure by -1 alone, `get_itf_mac`, `get_itf_ip4` and
-- `get_itf_subnet_mask` return, leave the same sockets open as they found, and return 0 with the
-- address filled, or a negative value with the address untouched.
pub util_itf-IsClean :
    (itf : List ℕ) (is_null : Bool) (env : Env) (t : List Call)
    → IsPosix env
    → IsClean (get_itf_mac itf is_null) env t
      × IsClean (get_itf_ip4 itf is_null) env t
      × IsClean (get_itf_subnet_mask itf is_null) env t
unfolding get_itf_mac get_itf_ip4 get_itf_subnet_mask open_fds
util_itf-IsClean itf true env t posix = ((refl, refl), (refl, refl), (refl, refl))
util_itf-IsClean itf false env t posix =
    let opens = posix.minus_one t (socket af_inet sock_dgram 0) in
    (
      (ground (arith, opens), ground (arith, opens)),
      (ground (arith, opens), ground (arith, opens)),
      (ground (arith, opens), ground (arith, opens)),
    )
