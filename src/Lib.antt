-- ===== src/Lib.antt =====
-- A model of mvp-vpn-lite, a VPN demo that carries IPv4 packets over one or two QUIC connections,
-- and theorems about it.
--
-- The parts. A client and a server exchange raw IPv4 packets in length-prefixed frames on one
-- stream of each QUIC connection. In the demo mode the client builds ICMP echo requests, the server
-- answers them and the client checks the answers. In the TUN mode each side reads packets from a
-- TUN device and writes them to the next path, and writes what it receives to the device.
--
--   Base            lists measured by native numbers, lists of open handles, Go results (value, error or panic), masks and
--                   shifts as arithmetic, int64 numbers
--   Net, Io         what the sources call of Go's packages net and io
--   Packet          internal/packet: Checksum (checksum.go), Icmp (icmp.go), Ipv4 (ParseIPv4Packet)
--                   and Echo (the builders of ipv4.go)
--   Framing         internal/quictransport/framing.go
--   Policy          internal/quictransport/packet_policy.go
--   Multipath       internal/multipath/scheduler.go
--   Stats           internal/stats/stats.go: the counters, Snapshot, and Render (the texts of a
--                   snapshot and LogEvery, with internal/quictransport/stats.go)
--   BuildInfo       internal/buildinfo/buildinfo.go
--   Tls             internal/quictransport/tls.go, and generateSelfSignedTLSConfig of server.go
--   Loop            how a loop ends
--   Device          internal/quictransport/device_errors.go, and isGracefulStreamEnd of server.go;
--                   Reads is the loop over a device that both sides have
--   Client          internal/quictransport/client.go: Validate (validateEchoReply), Path (health and
--                   cooldown), PathSet (clientPathSet), Backoff (reconnectBackoff and
--                   normalizeTUNReconnectIntervals), Dial (dialClientPaths and what it calls),
--                   Send (one packet in sendTUNPackets), Pump (sendTUNPackets), Receive
--                   (receivePathPackets), Reconnect (reconnectClientPath), Demo (the requests of
--                   RunClient), Run (RunClient) and TunRun (RunTUNClient; its End
--                   is pumpTUN)
--   Server          internal/quictransport/server.go: Demo (handleQUICStream), Session
--                   (serverTUNSession), Forward (writeNextPath, forwardDevicePackets),
--                   Connection (the loop of handleTUNQUICConnection), Accept (both handlers
--                   of a connection), Listen (serveQUICPath and serveTUNQUICPath), Run (the start
--                   of RunServer and runTUNServer) and Serve (both to their end)
--   TunDevice       internal/tun: Name (normalizeDeviceName) and Open on Linux
--   EnvConfig       internal/envconfig/envconfig.go
--   Flags           what both commands make of their flags
--   ClientCommand   cmd/client/main.go, which client is run and its configuration
--   ServerCommand   cmd/server/main.go, the server's configuration
--   Exit            how both mains end
--   DemoRun         the client's requests against the server's responder
--   Tunnel          packets from the client's device through its paths to the server's device, and
--                   back
--
-- How code is read. A byte is a number below 256 and a slice a list; an index or slice expression
-- out of range is the result `panic`. Unsigned arithmetic keeps its wrap, `% 2 ^ w`; a
-- time.Duration is an int64. A function with a receiver that it changes returns the new record. A
-- method that holds a mutex throughout is one step. An `error` is a constructor for each message.
-- Recursion is structural, on accessibility (the carry loop of the checksum), or on fuel in a loop
-- over a stream, where the modules named Total say how much is enough.
--
-- The device loop and the reconnecting loop run on lists of events, which are their own reads and
-- turns and what other goroutines do in between; inside one turn of a loop nothing else runs. The
-- demo's responder has answered all that was sent whenever the client reads.
--
-- Parameters: the writers under the frames, the write of the TUN device, the closing of a path, the
-- clock, the parser of a CIDR text, and interfaces (records of operations): ClientStreams for the
-- streams of the demo, Network for the QUIC dials and closings, ServerQuic and Listening for the
-- server's, Tun for the TUN package (which TunDevice fills), Unix for the calls of that package, Crypto
-- for files, randomness and certificates. What a theorem needs of them is a record of laws.
-- Counting, Opening, Listeners and Descriptors list the handles that are open, newest first
-- (Base/Handles): opening gives one that was not open, closing takes out that one, and closing it again
-- changes nothing. Steady says that a stream's reads and writes open and close no connection, and
-- Serving counts the connections that a server closes.
--
-- Not modelled: QUIC and the TLS handshake, the TUN device's file, the log, the texts of errors, the
-- parsing of the command line, the length of a timeout, goroutine scheduling below the level of a
-- method call (a device or a listener that a goroutine which waits for the context and a deferred
-- call both close is closed twice in a row). The closing of a client's paths comes after the last
-- step of its goroutines; a dial that ends later is not seen. The end-to-end modules have paths that
-- take all bytes.
pub mod Base
pub mod Net
pub mod Packet
pub mod Io
pub mod Loop
pub mod Framing
pub mod Multipath
pub mod Stats
pub mod Policy
pub mod Device
pub mod Client
pub mod Tls
pub mod Server
pub mod DemoRun
pub mod Tunnel
pub mod TunDevice
pub mod EnvConfig
pub mod BuildInfo
pub mod Flags
pub mod ClientCommand
pub mod ServerCommand
pub mod Exit
