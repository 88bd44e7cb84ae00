-- ===== src/Lib.antt =====
-- Galois, a distributed file system for persistent memory: a metadata path over RPC and a data path of
-- erasure-coded pages over RDMA.
--
-- The program and the files that model it:
--   * A client (src/fs/LocofsClient.cpp) turns a path into a file key, asks the metadata servers
--     by RPC, and moves the data of a file page by page. Client/Keys has the private helpers
--     (`_check_path`, `_get_uuid`, `_get_file_key`, `_get_file_stat`, ...), Client/Calls the
--     calls on names and attributes, Client/Transfer the loops over blocks, Client/Files `write`
--     and `read` as a whole, Client/Cluster the state that a client meets, and Client/Cache the
--     cache of directory ids (include/fs/lru_cache.h). Client/FileBytes takes a file as an array
--     of bytes, Client/TurnBytes and Client/WriteBytes follow a write to it, over Client/Bytes,
--     and Client/ReadBack, Client/Sized and Client/Written the calls `write`, `stat` and `read`
--     one after another. Client/Layered has the loops on the erasure-coded layer itself,
--     Client/LayeredPages, Client/LayeredLoops and Client/LayeredFile what they do there, and
--     Client/Coded and Client/CodedFile the whole calls on that layer. Client/CacheThreads is the
--     cache under several threads. Client/Found and Client/Created follow calls through the cache and
--     the server, and Client/Mount has the servers that a client takes from the configuration
--     (`parseConfig`).
--   * The directory server (src/fs/DMServer.cpp over src/fs/DMStore.cpp) keeps the tree: a key
--     "parent uuid:name" gives a uuid, and a uuid gives an inode. Directory/Store has the state and the
--     resolution of paths, Directory/Operations the operations, Directory/Server the handlers, the
--     start, and runs of requests.
--   * The file server (src/fs/FMServer.cpp over src/fs/FMStore.cpp) keeps the two inodes of each file
--     under the key "directory uuid:name": File/Store, File/Operations, File/Server.
--   * Both keep their data in src/fs/KVStore.cpp and src/fs/EntryList.cpp: Storage.
--   * ECAL (src/ecal.cpp, include/ecal.hpp, include/datablock.hpp) spreads a page over the three nodes of
--     a group, two blocks of data and one of parity: Ecal/Layout the positions, Ecal/Blocks `readBlock`
--     and `writeBlock`, and Ecal/Recovery and Ecal/Refinement the array of pages that they make up.
--     Ecal/Transfers has the two with the regions that they borrow from the socket, Ecal/Lending and
--     Ecal/Borrowed what becomes of these.
--     Ecal/ReedSolomon is the general code of include/ec/rs.hpp, which the layer does not use.
--   * The slots of the RPC interface are taken from an atomic bitmap (include/bitmap.hpp): Bitmap.
--   * A socket (src/network/rdma.cpp, include/network/rdma.hpp) links a node to its peers and posts
--     requests to them: Rdma/Socket has its state, what it posts and the handlers of events,
--     Rdma/Events the events in any order, Rdma/Registered what holds of the links then, Rdma/Links and
--     Rdma/Loss what becomes of them when the events are orderly,
--     Rdma/Completions the polling, and Rdma/Contexts the ids of the requests. Rdma/Regions lends the
--     buffers of a peer, Rdma/WorkId packs ids, and Rdma/Peers tells which peers are alive and logs
--     the writes of a degraded group.
--   * Calls over the socket (src/network/rpc.cpp): Rpc/Interface has the queues between the threads, the
--     turns of the two listeners and a call, Rpc/Traffic all orders of these turns, Rpc/Delivery what
--     the threads are handed, Rpc/Answers what a call meets, Rpc/Sync the meeting of all nodes as a
--     step relation, Rpc/Meeting its invariant and Rpc/Progress its end.
--   * Calls over eRPC (include/network/netif.hpp, src/network/netif.cpp): Netif/Sessions the connections
--     of a client, Netif/Connected which they are, Netif/Calls `rpcCall`, Netif/Responses what it
--     gives, and Netif/Memory the handlers for the memory. Netif/Dispatch has the functions that the main
--     functions of the servers register and the calls that meet them, and Netif/Serving the loop of a
--     server under interrupts.
--   * The nodes are configured in a file (src/config.cpp, include/config.hpp): Config/Load the constructor
--     and the lookups, Config/Found what they find, Config/Machine the environment and the memory device.
--     Config/Start has the constructors that fill the global configurations, and Config/Started what
--     they leave.
--   * Three layers of src/test take the place of ECAL in measurements: Variants/Replicated
--     (ecal_repl.cpp), Variants/Plain (ecal_none.cpp), and Variants/TypeTwo with Variants/TypeTwoLaws
--     (ec_type2.cpp), over the memory of Variants/Areas.
--   * Messages has the requests and replies (include/network/msg.hpp).
--   * Shared has the names and lemmas that all files use. Samples and SampleCode are concrete libraries,
--     and Examples the tests.
--
-- Code that is not in the repository is an interface, a record of operations with the documented
-- behaviour as laws: Kyoto Cabinet, Boost's archives and paths (External), and ISA-L (Ecal/Code).
--
-- Conventions. A number of the program is a native natural number, with the wrap-around of the machine
-- written out where the code can reach it. A text is the list of its bytes. A result code is an integer.
-- Code with undefined behaviour has the result `none`. What the source reads before it is written, and
-- the time, are arguments. A mutex that is held for a whole operation makes the operation one step;
-- the exchanges of the bitmap's loops see the words that other threads left, as a list of rounds.
--
-- Bounds. The loops of `write` and `read` run on fuel, the number of bytes to move, since each turn moves
-- one byte or more. The loops of the bitmap end with their list of rounds. Every other loop goes over a
-- list or over the nodes of a group.
--
-- The turns of a loop that waits are a list of what it meets. Every order of threads, nodes or events is a
-- step relation with its reachable states.
--
-- Not modelled: what the RDMA library does with a request; in Ecal a transfer to a live peer is done once
-- it is posted, and which peers are alive is a function. The parameters of connections, queue pairs and memory
-- regions, which are calls of the library alone; the debugging constructor and the empty handlers of
-- the eRPC interface; the recovery code that the preprocessor removes; benchmarks; the main functions
-- but for what they register and their loop; and eRPC, whose responses are arguments.
pub mod Shared
pub mod External
pub mod Messages
pub mod Storage
pub mod Directory
pub mod File
pub mod Bitmap
pub mod Ecal
pub mod Variants
pub mod Rdma
pub mod Rpc
pub mod Config
pub mod Netif
pub mod Client
pub mod Samples
pub mod SampleCode
pub mod Examples
