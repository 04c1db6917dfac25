-- ===== src/Server/Accept/Tests.antt =====
-- Connections whose client sends two bytes and goes.
use mvp_vpn_lite.Base.{ℕ, ◌-◌, none, List, [], ◌∷◌, ok}
use mvp_vpn_lite.Io.{eof, Write}
use mvp_vpn_lite.Policy.{PacketPolicy}
use mvp_vpn_lite.Stats.{no_counts}
use mvp_vpn_lite.Server.Session.{ServerPath}
use mvp_vpn_lite.Server.Session.Invariant.{Op, joins, takes, leaves}
use mvp_vpn_lite.Server.Accept.{ServerQuic, Handled, DemoHandler, TunHandler}

-- The open connections are counted.
abbrev quic : ServerQuic ℕ
quic = record {
  accept_stream = λ conn w. (ok 5, w);
  close_conn = λ conn w. w - 1;
  close_stream = λ stream w. w;
  reader = λ stream w. record { pending = 0 ∷ 1 ∷ []; end = eof };
}

abbrev no_write : Write (List ℕ)
no_write w bytes = (none, w)

abbrev open_policy : PacketPolicy
open_policy = record { allowed_cidr = none }

abbrev before : List ServerPath
before = record { id = 0; stream = 9 } ∷ []

-- Another path joins, a packet is sent, and the first path leaves.
abbrev meanwhile : List Op
meanwhile = joins 0 6 ∷ takes ∷ leaves 9 ∷ []

abbrev tun : Handled ℕ (TunHandler (List ℕ))
tun = record {
  network = 2;
  state = record {
    session = record { paths = before; next_path = 0 };
    device = [];
    counters = no_counts;
  };
}

abbrev demo : Handled ℕ (DemoHandler (List ℕ))
demo = record { network = 2; state = record { writer = []; counters = no_counts } }
