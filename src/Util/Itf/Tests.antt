-- ===== src/Util/Itf/Tests.antt =====
-- The interface functions of util.c on a network of the tests.
use socketlab.Base.{ℕ, List, [], ◌∷◌, false}
use socketlab.Sys.Lan.{lan, lan-IsPosix}
use socketlab.Util.Itf.{get_itf_mac, get_itf_ip4, get_itf_subnet_mask}
use socketlab.Util.Itf.Descriptors.{IsClean, util_itf-IsClean}

-- eth0
abbrev eth0 : List ℕ
eth0 = 101 ∷ 116 ∷ 104 ∷ 48 ∷ []

util_itf-IsClean_example :
    IsClean (get_itf_mac eth0 false) lan []
    × IsClean (get_itf_ip4 eth0 false) lan []
    × IsClean (get_itf_subnet_mask eth0 false) lan []
util_itf-IsClean_example = util_itf-IsClean eth0 false lan [] lan-IsPosix
