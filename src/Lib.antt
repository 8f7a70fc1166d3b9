-- ===== src/Lib.antt =====
-- A model of snx-rs, a VPN client for Check Point gateways.
--
-- The program has a service that owns the connection and a client that asks it for one. The command
-- server takes requests and drives a connector; a connector authenticates with the gateway and
-- makes a tunnel; a tunnel sends its events back to the server. Paths below are from the root of
-- the repository, and `core` stands for crates/snxcore/src.
--
-- Prelude: lists, tests, results and text. Text is its UTF-8 bytes. An error is a key of a
--   translated message.
-- Model: core/model.rs, core/model/params.rs and core/tunnel.rs, the types that the parts share.
--   Model/TunnelType, CertType, ColorTheme, TransportType and TlsVersion are the enumerations with
--   their conversions, Model/Params the parameters of a connection, Model/Session the rest.
-- Sexpr: core/sexpr.rs. Sexpr is the data and `get`, Sexpr/Print the encoding, Sexpr/Tree the
--   reading of the pairs that the generated parser gives. A BTreeMap is a list in key order.
-- Slim: core/tunnel/ssl/codec.rs, the framing of the SSL tunnel; the generated parser and the
--   lossy decoding of UTF-8 are parameters.
-- Obfuscate: the obfuscation in core/util.rs, with the hex crate as a parameter.
-- Server: core/server.rs. A handler is cut at each `.await`: `start` functions and `resume`
--   (Server/Handlers, Server/Events) are what runs between two waits. Server/Sections cuts them at
--   each point where they take the mutex too, with other tasks in between, and Server/Coherence
--   speaks of that, with what one run of a task keeps in Server/Sound. Server/System has the coarser steps from wait to wait, with the answers in any
--   order, and Server/Actor the same with the queue of a connector's actor; both serve to show what
--   can happen. Server/Requests runs one request with no other task in between, on fuel: the
--   theorems there say how many answers are enough.
-- Profiles: core/profiles.rs, the store of profiles; an operation gives the new state and what it
--   does to the disk. Profiles/Refinement sees it as a map.
-- Connector: core/tunnel/ssl/connector.rs, the login for an SSL tunnel; what the gateway connector
--   answers is a parameter. Model/Login has the login options of core/model/proto.rs.
-- Ipsec: core/tunnel/ipsec/connector.rs. Ipsec/Monad is the state of the connector and of what is
--   outside with an error; Ipsec/Exchange has the office mode exchange and the proposal of keys,
--   Ipsec/Challenge and Ipsec/Auth the authentication, Ipsec/Stored the stored session, Ipsec/Rekey
--   the renewals, Ipsec/Identity the identity and Ipsec/Tunnel the tunnel; Ipsec/Natt
--   is the probe of core/tunnel/ipsec/natt.rs. `challenge_code` and
--   `process_auth_attributes` call each other: the rounds are counted, and two are enough.
-- Keepalive: the loops of core/tunnel/ipsec/keepalive.rs and core/tunnel/ssl/keepalive.rs; each
--   round is a step on the number of failures. The loops have no bound: the runs are over a list of
--   what the rounds meet.
-- Resolver: the builder of the DNS settings in core/platform.rs. Resolver/Symlinks and
--   Resolver/ResolvConf are core/platform/linux/resolver.rs, with the file system as a parameter.
-- Controller: core/controller.rs, the client of the server. What it talks to is a record of
--   operations on a state of their own. The loops over challenges and statuses are on fuel:
--   Controller/Ends says how much is enough for the challenges.
-- Config: profile files. Config has `parse_config` of core/util.rs, Config/Options and Config/Save
--   `load` and `save` of core/model/params.rs, Config/Keys the options' names, Config/Order the
--   order file and the loading of all files. The crates for uuid, base64 and ipnet are parameters
--   (Config/Formats). The proof sees a file as a dictionary
--   (Config/Dictionary, Puts, Saved), whose values Config/Fields and Config/Lists read back.
-- Tunnels: core/tunnel/ssl.rs (Tunnels/Ssl, Tunnels/Hello) and core/tunnel/ipsec/imp/tun.rs
--   (Tunnels/Tun), with the routes of both in Tunnels/Routing and an account of the whole routing
--   in Tunnels/Configured; the platform is a parameter.
-- Cmdline: apps/snx-rs/src/cmdline.rs, the options merged into the parameters. Cmdline/Options says
--   what each is for.
-- Tests: runs, and the theorems at concrete inputs.
--
-- White space that `trim` takes off is ASCII here.
--
-- Not modelled: the transports of the tunnels and the loops that move their packets, the requests
-- to the gateway, the graphical application, the programs' wiring and the rest of the platform back
-- ends, which are for the most part calls of sockets, of the operating system and of the libraries
-- for TLS, HTTP, ISAKMP, JSON and D-Bus.
pub mod Prelude
pub mod Sexpr
pub mod Slim
pub mod Obfuscate
pub mod Model
pub mod Server
pub mod Profiles
pub mod Connector
pub mod Ipsec
pub mod Tunnels
pub mod Cmdline
pub mod Keepalive
pub mod Resolver
pub mod Controller
pub mod Config
mod Tests
