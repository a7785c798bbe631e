-- ===== src/Lib.antt =====
-- fortivpn-go: a FortiGate VPN client, with SSL-VPN over a TUN interface and IKEv2 through strongSwan.
--
-- The program reads a configuration (internal/config), chooses an instance and a backend for it
-- (cmd/fortivpn), and runs a session. An IPsec session (internal/ipsec) drives a dedicated
-- strongSwan daemon by VICI commands, through a relay that carries ESP over TCP where UDP is closed.
-- An SSL-VPN session (internal/sslvpn) logs in at the gateway's HTTPS portal (internal/auth and
-- internal/fortinet/client.go), reads its settings from an XML document (internal/fortinet/xml.go),
-- and opens its TUN v2 endpoint, whose frames carry IP packets; a packet engine (internal/tunnel)
-- copies these between the gateway and a TUN interface (internal/tun). Both give network settings
-- (internal/network), which `--ip-mode` restricts and from which routes are installed.
--
-- Which file models what, by the repository's paths:
--   Prelude        shared names: results, lists and texts over the native numbers, Boolean tests
--   Netip          the types and tests of the package net/netip that the program calls
--   Network        internal/network/config.go: Config, ForIPMode, filterAddrs
--   Wire           readers and writers as sequences of outcomes, writeAll, io.ReadFull
--   Fortinet/Frame internal/fortinet/tunnel.go: ReadPacket, WritePacket, readFrame, makeDataFrame
--   Fortinet/Settings  internal/fortinet/xml.go: parsePrefix and parseGateway; its child Elements has
--                  parseElement and parseText, Document the loop of ParseNetworkConfig
--   Fortinet/Client  internal/fortinet/client.go: request, the logins and completeAuthentication; its
--                  children are Allocate (NetworkConfigForIPMode) and Endpoint (NewClient, url)
--   Fortinet/Open  internal/fortinet/tunnel.go: OpenTunnel2, awaitInitialTunnelResponse
--   Auth           internal/auth: the password login, and the callback of saml.go
--   Engine         internal/tunnel/tunnel.go: Run, copyDeviceToTunnel, copyTunnelToDevice
--   Sslvpn         internal/sslvpn: allocate, Probe, Connect, Run, Close and lifecycle.go; its child
--                  Held states the contract of internal/session/session.go
--   Relay          internal/ipsec/tcptransport/relay.go: ReadFrame, WriteFrame, the loops inbound and
--                  outbound; Relay/Lifecycle: Dial, fail and Close
--   Config         internal/config/config.go: the file (Validate), Resolve, AddInstance, selectors
--   Ipsec/Options  internal/ipsec/backend.go: Options, Validate, New
--   Ipsec/Vici     the messages of the daemon, as text and list of internal/ipsec/state.go read them
--   Ipsec/Negotiated  internal/ipsec/state.go: info and its checks, appendRoute
--   Ipsec/Backend  internal/ipsec/backend.go: preflight, config, Connect, Close
--   Ipsec/Monitor  internal/ipsec/backend.go: the loop of Run
--   Tun            internal/tun/tun.go and tun_linux.go: ValidateConfig, Configure, linuxAddressArgs
--   Tun/Framing    internal/tun/utun_darwin.go: framePacket, Read
--   Tun/Ifconfig   internal/tun/utun_darwin.go: Configure, configureIPv4, ipv4Netmask
--   Tun/Routes     internal/tun/routes_linux.go and routes_darwin.go: ConfigureRoutes, removeRoutes
--   Cli            cmd/fortivpn/connect.go and main.go: runConnect, withoutOption, optionValue
--   Cli/Inputs     cmd/fortivpn/main.go and ipsec.go: tunConfig, parseIPConfig, parseIPsecMode,
--                  the choice of passwordForAuthentication; Cli/Modes compares the readers of --ip-mode
--   Cli/Passwords  cmd/fortivpn/main.go: passwordForAuthentication, readTerminalPassword,
--                  readMaskedPassword, readPassword
--   Cli/Ssl        cmd/fortivpn/main.go: the options of run, runTunnelProbe and runTunnelConnect, with
--                  what the package flag gives as a parameter
--   Cli/TunCreate  cmd/fortivpn/main.go: runTun
-- A module's children hold its proofs, and its Examples the tests.
--
-- How state and effects are modelled. A Go error is a constructor of the module's error type; the
-- text of an error is left out. A pointer that may be nil is an option. A struct is a record, and a
-- method gives the new record. What the world answers is an argument: the daemon answers a command
-- by all that it was sent before (Ipsec/Backend), a system command succeeds or fails by all that
-- ran before it (Tun), the gateway answers a request by all that it was sent before
-- (Fortinet/Client), a connection gives bytes and takes bytes in the portions that its sequence
-- of outcomes says (Wire). So a statement for every such argument covers every failure at every
-- point. The packet engine, with its two goroutines, is a step function over events, and its runs are
-- the data type Engine.Reach: any order of events, and any results of the calls. A session's effects
-- are listed in order, and what they leave open is replayed from that list (Sslvpn/Held).
-- A deferred call is written out on each return. Loops recur on their lists, and need no
-- fuel; a loop that waits for events, as Run does, is given the sequence of its rounds.
--
-- Bounds. Numbers are unbounded natural numbers; a field of 16 bits is split into two bytes by
-- division and remainder, and the length checks keep its value below 2 ^ 16. Go's int stands as an
-- integer that is only compared. Texts are lists of code points, whose byte length is computed where
-- the code measures bytes; to_lower is exact on the letters that the program compares.
--
-- Parameters. Parsing and printing of addresses and prefixes (ParseAddr, ParsePrefix, String) are the
-- record AddrText, where a property assumes only that a given text is read as a given address.
-- Printing an int (Tun), the home directory and the file's protocol (Cli) are parameters as well.
-- So are net/url, the XML decoder's tokens and the cookies (the records Library, Gateway and Urls of
-- Fortinet/Client, and Dialing of Fortinet/Open), of which nothing is assumed but that the empty host
-- has no hostname. A call of Write may take some bytes and fail (Wire). ConfigureRoutes of a session
-- says whether it left routes installed and, separately, whether it gave a cleanup (Sslvpn).
--
-- Not modelled: TLS and HTTP, with the redirects that net/http follows; JSON, YAML and XML decoding;
-- the goroutines of the relay and the monitor, which enter as sequences; the order in which Go visits
-- a map; system calls that open devices; debug output; and terminal and browser handling.
pub mod Prelude
pub mod Netip
pub mod Network
pub mod Wire
pub mod Fortinet
pub mod Relay
pub mod Config
pub mod Ipsec
pub mod Tun
pub mod Cli
pub mod Engine
pub mod Auth
pub mod Sslvpn
