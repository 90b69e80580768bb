-- ===== src/Sys/Lan.antt =====
-- A network for the tests: answers of the system on which every call succeeds, on an interface with
-- a MAC and an address.
use socketlab.Base.{ℕ, refl, List, [], ◌∷◌, ◌++◌, replicate, if◌then◌else◌, ◌==◌, length}
use socketlab.Base.Int.{pos}
use socketlab.Sys.{Call, socket, sendto, ioctl, if_nametoindex, inet_pton, Env, IsPosix}

abbrev pub mac : List ℕ
mac = 2 ∷ 0 ∷ 0 ∷ 0 ∷ 0 ∷ 1 ∷ []

abbrev pub ip : List ℕ
ip = 10 ∷ 0 ∷ 0 ∷ 1 ∷ []

abbrev pub target : List ℕ
target = 10 ∷ 0 ∷ 0 ∷ 9 ∷ []

-- The answer to an `ioctl`: for SIOCGIFHWADDR the MAC, else the address.
abbrev itf_answer : ℕ → List ℕ
itf_answer request =
    if request == 0x8927
    then 1 ∷ 0 ∷ (mac ++ replicate 8 0)
    else 2 ∷ 0 ∷ 0 ∷ 0 ∷ (ip ++ replicate 8 0)

abbrev pub lan_ret : Call → ℕ
lan_ret (socket af type protocol) = 3
lan_ret (if_nametoindex itf) = 2
lan_ret (inet_pton text) = 1
lan_ret (sendto fd frame addr) = length frame
lan_ret c = 0

abbrev pub lan_out : Call → List ℕ
lan_out (ioctl fd request itf) = itf_answer request
lan_out (inet_pton text) = target
lan_out c = []

abbrev pub lan : Env
lan t c = record { ret = pos (lan_ret c); out = lan_out c; errno = 0 }

pub lan-IsPosix : IsPosix lan
lan-IsPosix = record { minus_one = λ t c. refl }

-- The same without the interface.
abbrev no_itf_ret : Call → ℕ
no_itf_ret (if_nametoindex itf) = 0
no_itf_ret c = lan_ret c

abbrev pub no_itf : Env
no_itf t c = record { ret = pos (no_itf_ret c); out = lan_out c; errno = 0 }
