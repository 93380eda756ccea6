-- ===== src/Lib.antt =====
-- syncpond is a server that keeps rooms of shared key-value data: application servers write to it
-- by gRPC, and browsers read from it over websockets. This library models its Rust crates and
-- proves what makes them correct.
--
-- The parts, and how they interact. A room has numbered buckets of fragments (JSON values by key);
-- every write takes the room's next version, and a deletion leaves a null, the tombstone. The gRPC
-- service (server/crates/sp-upstream) hands each call to KernelCommandHandler
-- (server/crates/server/src/main.rs), which turns it into a command of the kernel
-- (server/crates/sp-kernel/src/kernel.rs). The kernel works on the state of the rooms
-- (server/crates/sp-kernel/src/state/mod.rs), keeps a store per room on disk
-- (server/crates/sp-kernel/src/persistance/mod.rs) and puts updates into a channel that the hub
-- (server/crates/sp-downstream/src/hub.rs) reads, which queues them for the clients that subscribe
-- to the bucket. A client connects with a token (server/crates/sp-downstream/src/connection.rs,
-- auth.rs) that the state issued. The messages between them are those of
-- server/crates/sp-protocol/src/lib.rs.
--
-- The modules.
--
-- Base: what the components share of Rust's standard library: words, Result, HashMap and HashSet
-- as lists, sorting, trimming, decimal numbers.
-- Extern: interfaces of the crates serde_json (Json, Serde), prost (Wire), rocksdb and lru (Rocks)
-- and tonic (Tonic), records of operations with the laws that are relied on; Tests has an instance
-- of each. serde_json is built without float_roundtrip, so Json reads back only the values that
-- is_exact names, whose floats and depth are such as the crate gives back.
-- Protocol: the messages.
-- State: AppState and RoomState as records and their methods as functions. A method that changes a
-- room is a function from AppState to Result AppState StateError, whose error leaves the state as
-- it was. State.Rooms, Labels, Buckets, Members, Fragments, Transactions, Views, Tokens and
-- Metrics have the methods by subject, with theorems in their children; State.Reachable has the
-- calls as a data type, their runs from AppState::new, and the invariant of all states so reached.
-- Hub: WsHub and its methods; HubInvariant and Broadcast have the laws of one operation, and
-- Sessions those of any sequence of turns at the hub's lock. Forwarding has run_forwarder, with
-- other turns at the lock between its messages, and its start.
-- Auth, Connection: the check of a token; the handshake up to the registration, and the reaction
-- to a later frame. Connection.Loop has the loop around it, and its end.
-- Persistence: PersistenceManager, and RoomPersistence as actions on a store and a cache, which
-- return a Result and what they leave; Directory reads the save directory. Scan, Records, Cached,
-- Coherent, Keys and Members have theorems.
-- Kernel: SyncpondKernel, with a function per command (Buckets, Writing, Loading), handle_command,
-- and handle_client_connected (InitialSync). WriteFragment takes its locks one after the other:
-- handle_write_fragment_among has what others do in between as an argument, and
-- handle_write_fragment is its run where they do nothing. Parsed, Written, Persisted, Delivered,
-- Stray, Reloading, Durable and InitialSync.Sent have theorems; Reachable has the kernel's events
-- over time, and its invariant.
-- Upstream: the statuses and the key check of the service; in Service the trait CommandHandler as
-- an interface and the calls of CommandServiceImpl over it, in Handler the methods of
-- KernelCommandHandler, which fill it; Statuses and Stored have theorems.
-- Client: the client library lib/rust, over the generated client as a record of calls.
-- Startup: main of server/crates/server, from the configuration to the kernel; Started has what it
-- makes, Restored what it finds of an earlier run.
-- Tests: each theorem at concrete values.
--
-- How the program is modelled. Numbers are natural numbers; the additions of a u64 wrap at 2 ^ 64,
-- as in a release build, or saturate where the code says so. A HashMap is a list of entries: the
-- order of its iteration, which Rust leaves open, is the list's, and no theorem names it. An
-- RwLock is its content and whether it is poisoned. The tokio locks make the methods of AppState
-- and of WsHub atomic, so that interleavings are sequences of calls or turns. A WriteFragment,
-- which takes several locks, is an event of the kernel as a whole and in its single steps; the
-- other commands are events as a whole. The clock, the environment, the token codec, the opening
-- of a store, the entries of the save directory, what a socket gives and whether it takes a frame,
-- whether the channel to the kernel takes the messages of connecting and disconnecting (they are
-- dropped where it is full), and the answer of a client's queue are arguments. Loops are recursion
-- on the list they walk; the only fuel is that of the decimal printing, the number itself plus
-- one, which exceeds its digits. Sequences of calls and of turns are shorter than 2 ^ 64, which no
-- running server exceeds.
--
-- Not modelled: the logging, the reading of the configuration's file, the spawning of tasks and
-- the acceptance of sockets, which are I/O; the mutexes of PersistenceManager as poisoned, since
-- nothing under them panics; the texts of errors that serde_json adds to a message; the browser's
-- client in client; the build scripts.
pub mod Base
pub mod Extern
pub mod Protocol
pub mod State
pub mod Hub
pub mod Auth
pub mod Connection
pub mod Persistence
pub mod Kernel
pub mod Upstream
pub mod Client
pub mod Startup
pub mod Tests
