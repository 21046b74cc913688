-- ===== src/Lib.antt =====
-- Zstore: an object store over zoned NVMe devices, in C++. An HTTP gateway takes S3 requests, hashes
-- the key of the object, looks the key up in a map from hashes to three device addresses, and reads or
-- appends through SPDK with request contexts from a pool.
--
-- The modules, with the code that each is about:
--   Common   names, lemmas on lists and little-endian numbers, and the results of calls that can stop
--   Conf     src/include/configuration.h: the settings, as a record that every statement ranges over
--   Hash     src/object.cc and src/include/types.h: key hashes, their text and their seeds
--   Object   src/object.cc and src/include/object.h: objects on disk, chunk lists, splitting
--   Pool     src/common.cc and src/include/types.h: RequestContext and RequestContextPool
--   Store    src/zstore_controller.cc: the object map and the device hash, with createMapEntry
--   Device   src/zone.cc and src/device.cc: the zones of a device and the set of available zones
--   Http     src/http_server.cc and src/include/boost_utils.h: parse_url and the responses
--   Request  src/common.cc: the requests to the devices and what an answer does to them
--   Gateway  src/http_server.cc: GET, PUT, POST and DELETE of awaitable_on_request, and the loop of
--            do_session (Gateway.Session) that calls them; Gateway.Chunked is GET of large objects,
--            and Gateway.Overlap has requests that wait for SPDK at the same time
--   Setup    src/zstore_controller.cc and src/device.cc: SetParameters, ConfigureSpdkQpairs and Init up
--            to ReadZoneHeaders; Setup.Sessions has clients of the state that it has then
--   Placement   src/zstore_controller.cc: PopulateMap, which fills the map for an experiment
--   Checkpoint  src/zstore_controller.cc: Map2Tx, Map2Gc, the two workloads of Checkpoint, and in
--               Checkpoint.Round the whole of it, for a leader and for a follower
--   Election    src/zstore_controller.cc: checkChildrenChange, getNodeData and checkTxChange
--   Zookeeper   what src/zstore_controller.cc uses of ZooKeeper, as an interface
--   Transaction src/zstore_controller.cc: createZnodes, ZkSet, the nodes that the leader of a
--               checkpoint prepares, checkTxChange with its deletions, and the watchers
--   PhaseTwo    src/zstore_controller.cc: WaitForPhase2 and ReleaseKey, as a step relation with
--               their locks
--   Rdma        src/rdma_utils.cc and src/rdma_common.cc: both ends of a connection between gateways,
--               the event loop with its callbacks, and the messages and writes between the ends
--
-- State is passed on explicitly. A pool is an address-indexed store of contexts with the list of the
-- available ones; its methods and the operations of the map are atomic, as the lock and the container
-- make them. Pool.Held says which context is in use by whom. A call that can stop (a failed assert, an
-- access outside a buffer, a null pointer, an exception) returns a Result. Unsigned fields wrap where
-- the code computes with them. Loops are recursions over lists or over the number of rounds. Two have
-- fuel: the batches of Checkpoint, with one round more than there are requests, which is proved to be
-- enough, and std::to_string, with one round more than the value of the number. getNodeData recurses
-- over what its node holds in each round.
--
-- Not under src/, and so parameters: SHA-256 of OpenSSL (`digest`, `key_of`), spdk_zmalloc (`zmalloc`),
-- malloc (`alloc`, `fresh`), std::rand (`rand`), the memory of std::string and std::vector objects
-- (`string_object`, `header`), the answers of SPDK (`Completion`, `filled`) and its
-- controllers (`Spdk`), ZooKeeper, which is the interface of Zookeeper with a list of nodes as an
-- instance, and boost::concurrent_flat_map, which is the interface FlatMap with an association list as
-- an instance. What a C++ object holds before it is set, or after it was moved from, is a parameter as well.
--
-- Requests of several clients interleave at the awaits in the code. In Gateway an answer of SPDK comes at
-- once, so that a request is one step. Gateway.Overlap cuts a request at its co_await: `begin` is what
-- comes before it and `finish` what comes after it, a server is a gateway with the requests that wait,
-- and a move is a request that arrives or one that goes on, in any order. There the answers to the three
-- appends of a PUT come together, and a listing or a request for an object larger than a chunk is still
-- one step. What a request does between two waits is one move, though several threads of the HTTP server
-- run such pieces in parallel: the pool, the map and the sets that they share lock each operation. Memory
-- that is freed is not tracked.
--
-- Init is modelled up to and with ReadZoneHeaders, and a client after it meets the state that Init has then.
-- In Rdma.Events the rc_init of the detached server thread is taken to come before that of
-- RdmaClientConnect, which nothing in the code enforces.
-- Rdma.Link is a connection whose client has the callbacks of a client, which RdmaClientConnect, by the
-- overload that it names, does not set.
--
-- Not modelled: src/utils/finish_zones.cc, which does not compile; replayed workloads, which have a pool
-- of contexts for each length; do_listen, which accepts connections with Asio; what Init does after
-- ReadZoneHeaders, and what main.cc and the I/O threads pass to SPDK; and the vendored tinyxml2, to which
-- a listing is a tree of elements.
pub mod Common
pub mod Hash
pub mod Conf
pub mod Object
pub mod Pool
pub mod Store
pub mod Device
pub mod Http
pub mod Request
pub mod Gateway
pub mod Placement
pub mod Checkpoint
pub mod Election
pub mod PhaseTwo
pub mod Rdma
pub mod Setup
pub mod Zookeeper
pub mod Transaction
