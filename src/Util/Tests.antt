-- ===== src/Util/Tests.antt =====
-- The functions of util.c at concrete inputs.
use socketlab.Base.{some, ℕ, ◌≡◌, ◌^◌, suc, refl, List, [], ◌∷◌, arith, replicate}
use socketlab.Base.Int.{pos, negsuc}
use socketlab.Sys.{Env, done, exited, fork, execvp, waitpid}
use socketlab.Util.Dump.{hexdump, hexdump1, scan_all, hexdump_reads_back}
use socketlab.Util.Exec.{os_exec, waiting, os_exec-runs}
use socketlab.Util.Round.{round_two}
use socketlab.Util.Round.Power.{round_two-least}
use socketlab.Util.Mac.{mac_aton, mac_ntoa, hex_char, hex_byte, join}
use socketlab.Util.Mac.RoundTrip.{mac_aton-mac_ntoa}

-- The one power of two that is not left as it is.
round_one : round_two 1 ≡ 2
unfolding round_two
round_one = refl

round_two-least_example : round_two 100 ≡ 2 ^ suc 6
round_two-least_example = round_two-least 6 100 (omega arith) (omega arith) (omega arith)

abbrev mac : List ℕ
mac = 0x02 ∷ 0x0a ∷ 0xff ∷ 0 ∷ 0x10 ∷ 0x9b ∷ []

-- 02:0a:ff:00:10:9b
ntoa_run :
    mac_ntoa mac
    ≡ 48 ∷ 50 ∷ 58 ∷ 48 ∷ 97 ∷ 58 ∷ 102 ∷ 102 ∷ 58 ∷ 48 ∷ 48 ∷ 58 ∷ 49 ∷ 48 ∷ 58 ∷ 57 ∷ 98 ∷ []
unfolding mac_ntoa join hex_byte hex_char
ntoa_run = refl

mac_aton-mac_ntoa_example : mac_aton (mac_ntoa mac) (replicate 6 0) ≡ (pos 0, mac)
mac_aton-mac_ntoa_example = mac_aton-mac_ntoa mac (replicate 6 0) refl refl (omega arith)

abbrev block : List ℕ
block = 0xde ∷ 0xad ∷ replicate 15 7

hexdump_reads_back_example :
    (text : List ℕ) × (hexdump block 17 ≡ some text)
    × (hexdump1 (58 ∷ []) block 17 ≡ some (58 ∷ text))
    × (scan_all 20 text ≡ block)
hexdump_reads_back_example = hexdump_reads_back (58 ∷ []) block 20 (omega arith) (omega arith)

-- "ls" and "-l"
abbrev ls : List ℕ
ls = 108 ∷ 115 ∷ []

abbrev long : List (List ℕ)
long = (45 ∷ 108 ∷ []) ∷ []

-- The first `waitpid` fails with ECHILD, the second brings status 256.
abbrev parent : Env
parent t fork = record { ret = pos 9; out = []; errno = 0 }
parent (fork ∷ t) (waitpid pid) = record { ret = negsuc 0; out = []; errno = 10 }
parent t c = record { ret = pos 9; out = 0 ∷ 1 ∷ 0 ∷ 0 ∷ []; errno = 0 }

abbrev child : Env
child t fork = record { ret = pos 0; out = []; errno = 0 }
child t c = record { ret = negsuc 0; out = []; errno = 2 }

os_exec-runs_example :
    (os_exec 2 ls long parent [] ≡ (done (some 256), waiting (pos 9) 1 (fork ∷ [])))
    × (os_exec 2 ls long child [] ≡ (exited 127, execvp ls (ls ∷ long) ∷ fork ∷ []))
os_exec-runs_example =
    os_exec-runs 2 1 9 ls long (0 ∷ 1 ∷ 0 ∷ 0 ∷ []) parent child [] (omega arith) (omega arith) refl
      (refl, refl, (refl, refl)) (omega arith) refl refl
