-- ===== src/Server/Session/Tests.antt =====
-- The session at a concrete interleaving.
use mvp_vpn_lite.Base.{arith, List, [], ◌∷◌}
use mvp_vpn_lite.Server.Session.{new_server_tun_session, append_path}
use mvp_vpn_lite.Server.Session.Invariant.{
  Op, joins, leaves, takes, run, joined, Fresh, IsAt, session-IsAt,
}

abbrev ops : List Op
ops = joins 0 10 ∷ joins 1 11 ∷ takes ∷ joins 0 12 ∷ leaves 10 ∷ takes ∷ []

session-IsAt_example : IsAt (joined [] ops) (run new_server_tun_session ops)
unfolding Fresh append_path
session-IsAt_example =
    session-IsAt ops (tt, ((omega arith, tt), ((omega arith, (omega arith, tt)), tt)))
