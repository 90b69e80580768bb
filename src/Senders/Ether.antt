-- ===== src/Senders/Ether.antt =====
-- `main` of src/send_ether.c, with its arguments; `proto` is what `sscanf` reads in the third. (The
-- check of their count comes after they are read.)
use socketlab.Base.{ℕ, List, false, u16, replicate}
use mathlib.Core.Option
use socketlab.Base.Int.{ℤ, pos, is_neg}
use socketlab.Sys.{Sys, socket, close, perror, pure, exit, call, ◌>>=◌, ◌>>◌, when◌run◌otherwise◌}
use socketlab.Net.SockIf.{af_packet, sock_raw, bind_itf, get_itf_hwaddr}
use socketlab.Net.Arping.{send_ether_frame}
use socketlab.Util.Mac.{mac_aton}

-- DIE_IF
abbrev die_if_neg : {A : Type 0} → ℤ → Sys A → Sys A
die_if_neg code rest = when is_neg code run (do call perror; exit 1) otherwise rest

unfoldable pub send_ether : List ℕ → List ℕ → ℕ → List ℕ → Sys ℤ
send_ether itf s_mac proto data_text = do
  s ← call (socket af_packet sock_raw 0)
  die_if_neg s.ret (
      let (parsed, dest_mac) = mac_aton s_mac (replicate 6 0) in
      when is_neg parsed run exit 1 otherwise (do
        b ← bind_itf s.ret itf
        die_if_neg b (do
          (found, addr) ← get_itf_hwaddr itf false
          die_if_neg found (do
            r ←
                send_ether_frame s.ret dest_mac (Option.get_or addr (replicate 6 0)) (u16 proto)
                  data_text
            die_if_neg r (do call (close s.ret); pure (pos 0))))))
