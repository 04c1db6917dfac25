-- ===== src/Server/Run/Tests.antt =====
-- The start of a TUN server.
use mvp_vpn_lite.Base.{none, []}
use mvp_vpn_lite.Server.Run.{start_server}
use mvp_vpn_lite.Server.Run.Start.{Started, start_server-Started}
use mvp_vpn_lite.Server.Run.Sample.{tun, tun-Opening, with_files, cfg, quiet}

start_server-Started_example :
    Started tun
      (λ d. d)
      tun-Opening
      with_files
      cfg
      []
      (start_server tun (λ cidr. none) with_files cfg [])
start_server-Started_example =
    start_server-Started tun (λ d. d) tun-Opening with_files cfg (λ cidr. none) [] quiet
