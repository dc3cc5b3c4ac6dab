-- ===== src/Lib.antt =====
-- A node of a peer-to-peer file store: it cuts files into blocks, keeps the blocks under identifiers of
-- their content (CIDs), spreads them over the peers that are closest to them, and fetches what it lacks
-- from the peers that provide it. A discovery server tells the nodes of each other.
--
-- The parts, each with the module that models it and the code it stands for:
-- * Peer.Registry (internal/peer/peer_registry.go): the peers that a node knows, `Upsert`, `MarkState`,
--   `Touch`, `Remove`, `Snapshot` and the exchange with Redis. Peer.Manager (peer_manager.go): `Sweep`
--   and `Leave`.
-- * Dht.Xor, Dht.Routing, Dht.Providers and Dht.Lookup (internal/dht): distances between keys,
--   `ClosestPeerIDs`, the providers of each block, and `LookupProviders`.
-- * Network and Network.Pool (internal/network): the connections of a node.
-- * Merkle (internal/merkle): file and directory nodes, `EncodeCanonicalJSON` and `DetectType`.
-- * Replication (internal/replication): `SelectReplicaPeerIDs`, `ReplicateToAddrs` and `FetchBlock`.
-- * Scheduler (internal/scheduler/cleanup.go): one tick of `RunCleanup`.
-- * Coordinator.Host, Coordinator.Files, Coordinator.Rpc and Coordinator.Loops (internal/coordinator):
--   the node's state, `AddFile` and `GetFile`, the calls that it serves, and its background work, with
--   `mergeBootstrapPeers`. Coordinator.Identity: `loadOrCreatePeerID` and `NewPeerHost`.
--   Coordinator.Inspect: `InspectCID`. Coordinator.Catalog: `UpdateGlobalCatalog`, the list of all uploads,
--   kept in the overlay, with its lock in Redis. Coordinator.Announce: `registerBootstrap`
--   and a round of `bootstrapLoop`. Coordinator.Background: `RunLoops` and the three loops, which take the
--   ticks of their tickers and the end of the context as signals, in any order.
-- * Cluster (several nodes of internal/coordinator): the network of a node is here a map of nodes by their
--   gRPC addresses, in which a call is answered by the handlers of Coordinator.Rpc at the node of that
--   address; a handler calls no other node. Cluster.Adding is about `AddFile` on one node and the copies at
--   another, Cluster.Reading about `GetFile` on a node that lacks the blocks, and Cluster.Delivering about
--   both together.
-- * Http and Api (internal/api): the response writer, the handlers of the HTTP API with the extension of an
--   upload and the graph of the peers, `RegisterRoutes` and `CORSMiddleware`. They call the node only.
-- * Cli (internal/cli/cli.go): `normalizeInterspersedFlags`, and Cli.Commands: `Run` and its commands, which
--   use the block store without a node.
-- * Node (cmd/node): the flags and the start of `node serve`.
-- * Bootstrap (cmd/bootstrap/main.go): the handlers of the discovery server. Bootstrap.Start: its start
--   from the environment, and the way of a request to its handler by `http.ServeMux`.
-- * Gen and Utils (internal/gen, internal/utils): the messages and the constants.
--
-- A component's state is a record, and an operation is a function from the state before to its result and
-- the state after. A mutex makes a method one step, so that interleavings are sequences of calls. Go
-- strings and byte slices are lists of numbers; times and durations are natural numbers of nanoseconds. A
-- Go map is an association list, and the order in which `range` visits it is a parameter of every loop
-- (Base.Order), as is the order in which the goroutines of a lookup answer. Within one operation a loop
-- over equal maps is given equal orders.
--
-- What lies outside is a parameter: gRPC with the other nodes (Network.Grpc, whose `World` carries the
-- whole history, so that an answer may depend on it; a call that runs out of time is an error), the block
-- store (Storage; its package internal/storage is not in the repository), `encoding/json` (Merkle.Json, and
-- Api.Views for four answers), the disk and its temporary files (Os.Disk), Redis as the catalog calls it
-- (Coordinator.Host), the HTTP client (Http.HttpClient), and the parsers of flags. Their laws are named
-- where they are used: StorageLaws says that a stored block is found under its CID, that it is not lost,
-- and that a file is its chunks; JsonLaws says that the canonical text of a file node is read back;
-- DiskLaws says that a file holds what was written to it; CidLaws says that a CID belongs to one block and
-- is valid, and that a store keeps a block under its own CID. All loops are structural recursions over lists,
-- or, for the lock of the catalog, over the number of waits that its context allows. Two functions are
-- on fuel: one writes a number in decimal digits, with more fuel than the number (`number-decimal` of
-- Base.Decimal shows that this is enough), and one trims a text, with the length of the text as its fuel
-- (`skip_all_done` of Merkle.Trimming).
--
-- Not modelled: when a ticker fires; the CORS headers of the discovery server; failures and expiry in the
-- Redis of a registry, whose commands are kept as a list; the servers, the signals and the shutdown of the programs; the dial
-- options and deadlines of gRPC; generated marshalling code; logging; the placeholders of
-- internal/scheduler/rebalance.go and internal/heartbeat, which nothing calls.
pub mod Base
pub mod Utils
pub mod Os
pub mod Http
pub mod Api
pub mod Peer
pub mod Gen
pub mod Network
pub mod Storage
pub mod Merkle
pub mod Dht
pub mod Replication
pub mod Scheduler
pub mod Coordinator
pub mod Cluster
pub mod Bootstrap
pub mod Cli
pub mod Node
pub mod Tests
