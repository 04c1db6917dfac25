-- ===== src/Client/Path/Tests.antt =====
-- Runs of the cooldown.
use mvp_vpn_lite.Base.{◌*◌, ◌≡◌, refl}
use mvp_vpn_lite.Client.Path.{second, client_path_cooldown}

three_failures : client_path_cooldown 3 ≡ 4 * second
unfolding client_path_cooldown
three_failures = refl

many_failures : client_path_cooldown 100 ≡ 16 * second
unfolding client_path_cooldown
many_failures = refl
