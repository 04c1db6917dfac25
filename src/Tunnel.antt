-- ===== src/Tunnel.antt =====
-- The TUN mode from the client's device to the server's: sendTUNPackets of
-- internal/quictransport/client.go, and the loop of handleTUNQUICConnection of
-- internal/quictransport/server.go on what it has written; and back, with forwardDevicePackets and
-- receivePathPackets.
pub mod Routes
pub mod Sends
pub mod Forwards
pub mod Delivers
mod Tests
use mvp_vpn_lite.Base.{
  ℕ, ◌+◌, ◌%◌, Option, none, some, List, [], ◌∷◌, ◌++◌, length, get_elem?, ◌==◌, if◌then◌else◌,
}
use mvp_vpn_lite.Io.{Write}
use mvp_vpn_lite.Stats.{Counters}
use mvp_vpn_lite.Client.Path.{ClientPath}
use mvp_vpn_lite.Client.PathSet.{new_client_path_set}
use mvp_vpn_lite.Client.Send.{ClientShared}
use mvp_vpn_lite.Server.Session.{ServerPath}
use mvp_vpn_lite.Server.Forward.{Shared}
use mvp_vpn_lite.Device.Reads.{Event, read, packet, LoopState}

-- The bytes written on each stream. Every stream takes what it is given.
abbrev pub Streams : Type 0
Streams = ℕ → List ℕ

abbrev pub streams_write : ℕ → Write Streams
streams_write stream w bytes = (none, λ s. if s == stream then w s ++ bytes else w s)

-- A device that gives the packets one after the other.
abbrev pub reads : {E : Type 0} → List (List ℕ) → List (Event E)
reads [] = []
reads (p ∷ packets) = read (packet p) ∷ reads packets

-- The stream of each packet: those of so many places in turn, from an index on.
unfoldable pub routes : (ℕ → ℕ) → ℕ → ℕ → List (List ℕ) → List (ℕ × List ℕ)
routes stream_at count i [] = []
routes stream_at count i (p ∷ packets) =
    (stream_at i, p) ∷ routes stream_at count ((i + 1) % count) packets

-- The stream of the path at an index.
abbrev pub client_stream : List ClientPath → ℕ → ℕ
client_stream paths i = elim (get_elem? paths i) [ none ↦ 0 | some path ↦ path.stream ]

abbrev pub server_stream : List ServerPath → ℕ → ℕ
server_stream paths i = elim (get_elem? paths i) [ none ↦ 0 | some path ↦ path.stream ]

-- The packets of one stream.
unfoldable pub routed : ℕ → List (ℕ × List ℕ) → List (List ℕ)
routed stream [] = []
routed stream ((s, p) ∷ sent) =
    let rest = routed stream sent in if stream == s then p ∷ rest else rest

-- A client whose paths are new, on streams that nothing has been written on.
abbrev pub new_client : List ClientPath → Counters → ℕ → LoopState (ClientShared Streams)
new_client paths c clock_reads = record {
  shared = record {
    path_set = new_client_path_set paths;
    streams = λ stream. [];
    counters = c;
    clock_reads = clock_reads;
  };
  retryable_read_errors = 0;
}

-- A server's session with its paths, on streams that nothing has been written on.
abbrev pub new_server : List ServerPath → Counters → LoopState (Shared Streams)
new_server paths c = record {
  shared = record {
    session = record { paths = paths; next_path = 0 };
    streams = λ stream. [];
    counters = c;
  };
  retryable_read_errors = 0;
}
