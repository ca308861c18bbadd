-- ===== src/Lib.antt =====
-- The RawDish filesystem (src/, C++): a peer-to-peer store of fixed-size blocks. A node keeps its
-- blocks as files of a directory (a block store), tells from a bloom filter which blocks a store
-- may have, and shares a directory of services with its peers over RPC.
--
-- BloomFilter models src/util/bloomfilter.h and src/util/bloomfilter.cc: the record has the fields
-- of the class, the buffer `_hash` is a list as long as its allocation, an access outside it is the
-- fault `none`, and `hash`, `reset`, `set`, `mayContain`, `serialize`, `deserialize`, the copy
-- constructor and `operator=` are functions of the same names in antt's spelling (`may_contain`,
-- `copy`, `assign`; `fnv_hash` is `hash`). Machine arithmetic wraps at 32 and 64 bits. Reports,
-- Membership, Codec and Copy hold its theorems.
--
-- Posix is the interface to the operating system that the block store calls, with the documented
-- behaviour it relies on as laws; FileBlockStore.MemFs is a directory in memory that fills it.
--
-- FileBlockStore models src/blockstore/fileblockstore.h and src/blockstore/fileblockstore.cc:
-- `put_block`, `get_block`, `remove_block`, `next`, `regenerate` (the method
-- `regenerateBloomFilterAndBlockSet`), `create` (the constructor) and `num_total_blocks` are its
-- methods, with the world of the operating system passed on from call to call. The store writes a
-- BloomFilter and a set of keys beside the files.
--
-- StdHeap is the interface to the heap functions of the C++ standard library, with their documented
-- behaviour as laws: `push_heap` and `pop_heap` have laws for heaps only. LruCache models
-- `LRUCache` of src/util/lrucache.h over it: the vector and the map hold addresses of entries,
-- which stand in a store, and a use of an address with no entry is the fault `none`. `invalidate`,
-- `get`, `put` (in the parts `replace`, `add` and `evict`) and `destroy` (the destructor) are its
-- methods. Heap, Invariant, Access, Eviction, Insertion, Put, Oldest, Invalidate and Runs hold its
-- theorems (Runs has sequences of calls and the destructor); Recency is the list of entries, the
-- last used first, that the cache stands for, and Refinement with Evictions, Puts and Answers
-- relates the two; Ranges fills the interface.
--
-- Sockets is the interface to `rand` and to listening sockets, and the loop that searches for a
-- port, which is bounded by a number of rounds.
--
-- ServiceNode models `ServiceNode::Internal` of src/rpc/service_node.h and src/rpc/service_node.cc:
-- the maps `_peers`, `_groups` and `_group_callbacks` are lists in the order of their keys
-- (Base.OrdMap). A method is one step, a function from the state to the new state and to the calls
-- it makes, in order; the mutex of the node makes it one, except that `shutdown` and the first test
-- of `RPCAddPeer` do not take the mutex. Groups, Events, Replicas, Introduction and Peers hold its
-- theorems, Notices what each peer and each callback is told, and Views, with Hearing, Steps and
-- Runs, what a callback knows of its group after any run of a node. ServiceNode.Service models the
-- class around it: `create`, `create_at`, the constructor and its registrations, the destructors
-- (`destroy`), what a registered function does with packed arguments (`perform`) and how a call to
-- a peer is made (`make_call`); Delivery holds its theorems. ServiceNode.Methods has the methods of
-- the class that pass on to `Internal` (`call_method`).
--
-- ServiceNode.Mesh is a network of any number of nodes: their states and the calls on their way
-- from one to another. A client of a node is named by the node at its other end. An event is a
-- change by a node (`changes`), an address that is given to a node (`joins`), or the task of one
-- call (`delivers`): the tasks of a connection run on a pool of threads, so any call of a link may
-- be the next one to be carried out. Entries, Ownership, Owners and Settling are about names that
-- one node changes, Loads, Counting and Totals about names that every node adds, Crossing about
-- changes that cross. Telling, Greeting, Spread, Silence, Discovery, Acquaintance, Within, Progress
-- and Gathering are about the addresses of the peers.
--
-- Msgpack is the interface to the msgpack library: objects in a stream, and objects that fill their
-- buffer. Rpc models src/rpc/rpc.h and src/rpc/rpc.cc over it: `call`, `on_receive`, `disconnect`
-- and `on_disconnect` are methods of `RPCClient`, with the futures that wait named by numbers;
-- `register_function`, `on_request` and `run_task` are the server's side. The loop of `onReceive`,
-- `drain`, runs on as much fuel as the buffer has bytes, and one more: an object has at least one
-- byte, and theorems state that this is enough. Stream, Client, Calls, Server and RoundTrip hold
-- the theorems. Rpc.Connections models `RPCServer` and the connections that it accepts
-- (`on_accept`, `set_accept_callback`, `destroy_server`, and `serve` for `onReceive` of one of
-- them); Interleaving holds its theorem. Rpc.Frames is a small packing that fills the interfaces.
-- The nodes of ServiceNode and BlockStoreNode and their peers talk over this layer.
--
-- Benchmark models src/rpc/rpc_benchmark.cc over it: `add_args2` is the function that its server
-- registers, `start_rpcs` the calls of one client and `check_value` the callback of their futures,
-- with an `int` as its 32 bits (`2 * i + 1` wraps around) and the signals of the notification
-- counted. Answers and Completion hold its theorems.
--
-- RemoteBlockStore models the registration of a block store with a server and the conversions of
-- src/blockstore/remoteblockstore.h: `register_remote_block_store` puts one function for each
-- method of a FileBlockStore under a name, and `get_block_helper` is what the proxy makes of an
-- answer. RemoteBlockStore.Methods has the functions that are bound to the names (`apply`,
-- `run_method`) and the methods of the proxy (`remote_call` is the call that each makes,
-- `remote_method` adds what becomes of its answer), with types that depend on the method; Names,
-- Blocks and Proxy hold the theorems.
--
-- BlockStoreNode models src/blockstore/blockstore_daemon.h and src/blockstore/blockstore_daemon.cc:
-- `rpc_add_peer`, `rpc_add_block_store`, `remove_peer`, `add_block_store` and `put_block_helper`
-- are its operations on the maps `_peers` and `_blockstores`. Owners, Announce and Life hold its
-- theorems. BlockStoreNode.Daemon has its constructor, `start`, and its RPC functions on packed
-- arguments.
--
-- Url models `URL` of src/util/url.h: `parse`, in the four steps of the method, and `to_string`.
-- Strings, Digits and RoundTrip hold its theorems. Decimal printing has as much fuel as the number
-- and one more, which is enough since a number has at most as many digits.
--
-- The other loops are recursions on the list they go over. The loop of a caller of `next` is
-- bounded by a number of rounds, and a theorem states how many are enough.
--
-- Base holds what the modules share: lists and bits over the native numbers, byte strings as keys
-- of ordered maps, and the integers that count members, which wrap around as an `int` of 32 bits.
--
-- Not modelled: freeing memory outside LruCache, logging, threads and the event loop (third_party),
-- the encoding of msgpack, the waiting in `stop` of a BlockStoreNode, the closing of a directory in
-- the destructor of a FileBlockStore, the handle that its regeneration opens and closes (the world
-- does not count it), the command line of src/rpc/fileutil.cc, which calls an older interface of
-- the client and is not built, and the unit tests.
mod Base
pub mod BloomFilter
pub mod Posix
pub mod FileBlockStore
pub mod StdHeap
pub mod LruCache
pub mod Msgpack
pub mod Rpc
pub mod Benchmark
pub mod Sockets
pub mod ServiceNode
pub mod BlockStoreNode
pub mod Url
pub mod RemoteBlockStore
