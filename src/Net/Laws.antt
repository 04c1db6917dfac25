-- ===== src/Net/Laws.antt =====
-- To4 and Equal on 4-byte addresses.
use mvp_vpn_lite.Base.{◌≡◌, true, some, length, equal_refl, equal→eq, arith, length-drop}
use mvp_vpn_lite.Net.Defs.{Ip, to4, ip_equal}

pub to4_of_length : (ip : Ip) → length ip ≡ 4 → to4 ip ≡ some ip
unfolding to4
to4_of_length ip e = ground arith

-- What To4 returns has four bytes.
pub length-to4 : (ip ip4 : Ip) → to4 ip ≡ some ip4 → length ip4 ≡ 4
unfolding to4
length-to4 ip ip4 e = ground (arith, length-drop 12 ip)

pub ip_equal_refl : (ip : Ip) → ip_equal ip ip ≡ true
unfolding ip_equal
ip_equal_refl ip = ground (arith, equal_refl ip)

-- On two 4-byte addresses Equal is equality.
pub ip_equal→eq : (ip x : Ip) → length ip ≡ 4 → length x ≡ 4 → ip_equal ip x ≡ true → ip ≡ x
unfolding ip_equal
ip_equal→eq ip x h k e = ground (arith, equal→eq ip x)
