-- ===== src/Lib.antt =====
-- monster-db is a Redis-compatible server in Go. This library models the data structures under
-- internal/ds that hold lists, sets and indices, the wire protocol of internal/resp, the
-- subscriptions of internal/server, and the keyspace of internal/store with its expiry, its eviction,
-- the commands on keys, lists, sets, sorted sets and Bloom filters, the clients that wait for a list
-- and the transactions, and proves what they promise.
--
-- - Prelude and its children: the shared names; integers and their machine words (Int); byte
--   slices, with the copies, slices and little-endian words of Go (Bytes); bit operations (Bits, BitTests);
--   lists (Lists); maps with string keys (Dict); texts (Text).
-- - Listpack: internal/ds/listpack.go. A listpack is the content of its slice and the bytes of its
--   spare capacity, since `grow` and `remove` reslice. Codec has the encoders and decoders of one
--   entry; Entries says which bytes hold a list of values; Insert, Splice, Fill, LaidOut, Integers, Strings
--   and Laws prove the operations against that. Lengths and words have their wrap-around.
-- - Quicklist: internal/ds/quicklist.go. The doubly linked chain is the list of its nodes' listpacks;
--   `prev`, `next`, `head` and `tail` are positions in it. What a method appends to its client is a
--   list of `Runtime.Reply` (internal/runtime/runtime.go). Nodes says which chain stands for a list
--   of values; Add, Scan, Pop, Range and Slice prove the methods against that.
-- - Intset: internal/ds/intset.go. Packed says which bytes stand for a sorted list of members;
--   Search, Members, Kept and Update prove the methods against that.
-- - Resp: internal/resp/resp.go. `strconv.AppendInt` is the parameter `format_int`, what it appends
--   for an integer; the hypothesis `Command.Formats` says that these are decimal digits. Decimal has
--   the lengths, Command the arrays of strings that commands are, Encode the dispatch on a value.
-- - Parser: internal/server/redis_parser.go; what it returns is what `Session.Respond.respond` takes.
--   `strings.ToUpper` is a parameter.
-- - Bst and Trie: internal/ds/bst.go and internal/ds/binary_trie.go, pointers as subtrees.
-- - Pubsub: `Subscribe`, `Unsubscribe`, `Publish`, `cleanupClient` and `NewClient` of
--   internal/server/client.go and `removeClient` of internal/server/redis_cmd.go, on the maps of internal/server/state.go.
--   Runs has the states that these operations reach.
-- - Client: the reply buffer, the flags and the transaction queue of internal/server/client.go, and
--   `encodeCommand` of internal/server/redis_cmd.go.
-- - Lfu: internal/store/lfu.go, and `getIdleTime` of internal/store/eviction.go. The clock, and
--   whether the random draw is below its bound, are arguments; words are uint32.
-- - TypeString: internal/store/type_string.go and internal/store/typeencoding.go.
-- - Eviction: internal/store/evictionpool.go. `sort.Sort` and the capacity that `append` chooses for a
--   slice that is full are parameters.
-- - Keyspace: internal/store/store.go, expire.go, object.go and eviction.go. `Db` has the maps `store`
--   and `expires`, the eviction pool, the number of keys in the statistics, and the keys with which
--   `SignalModifiedKey` and `MarkReady` were called. An object holds what its pointer leads to, since
--   no two objects share one. `Moment` has what a command reads from outside: each clock once, the
--   random draws, and the order in which a range visits the store; `Host` the configuration.
--   Consistent has the invariant, Ready and Fresh what a store of a new key does, Behind the changes
--   behind the pointer of an object.
-- - Command: what the commands share: `Strconv` for `strconv.ParseInt` and `FormatInt`, the replies and
--   the keyspace that a command leaves, and the texts of internal/store/eval.go.
-- - KeyCmd, ListCmd and SetCmd: internal/store/key_cmd.go, list_cmd.go and set_cmd.go, a function for
--   each `Execute`; HoldsList and HoldsSet say which lists and sets a key stands for, by the
--   theorems on Quicklist and Intset. Kept has for each command that the invariant stays.
-- - Skiplist: internal/ds/skiplist.go. The pointers `forward[i]` are the chains that they lead through,
--   one for each level from 0 up, and a node is known by a number in place of its address. Walk has
--   the walks from the highest level down, Linked what is well formed, Insert, Find, Remove,
--   Unlink and Delete the methods, Tied what becomes of members with one score.
-- - Zset and ZsetCmd: internal/store/zset.go and zset_cmd.go. Ordered has sorted sets whose members
--   have different scores, Interval the ranges, Scored the commands in turn. The random
--   numbers of `randomLevel` are a part of `Moment`.
-- - Bloom and BloomCmd: internal/ds/bloom.go and internal/store/bloom_cmd.go. `Hashing` has what comes
--   from murmur3 and from the floating point of NewBloomFilter. Marked has the positions that are
--   marked, Kept what stays in a filter, Asked the commands in turn; Prelude/BitTests has the bits.
-- - Blocked: internal/store/blocking_cmd.go, and what internal/server/client.go and server.go do with
--   clients that wait for a list. Its state has the keyspace, what a client has of this, and the maps
--   `waitingKeys` and `readyKeys` of internal/server/state.go; Served has the clients that
--   get a value, Overdue those whose time has passed.
-- - Session: `respond` of internal/server/redis_cmd.go, internal/store/tx_cmd.go, the registry of
--   internal/store/store.go, and the watched keys of internal/server/client.go and server.go. A world
--   has the keyspace, the clients with their flags and queues, and `watchedKeys`; every command on
--   keys takes the next moment of a clock. `Env.elsewhere` has the registered commands that are not
--   modelled. Sound, Registry and Runs have the invariant of the runs of
--   modelled commands, Queue the commands that wait, Watched
--   the transactions that are given up, Serial those that run.
-- - Tests: small inputs.
--
-- A panic of the code is the result `none` of an Option, or `fault` for the decoder. Loops over bytes
-- run on fuel: the length of the listpack's content for the loops over one node, the number of
-- members and one for the search of a set, the length of the data for the decoder's loop. The
-- theorems on those functions say that they return a result, and so that the fuel is enough.
-- The fuel of `Resp.decode_one` bounds how deep arrays nest; arrays of strings need two. That of
-- `Session.find` bounds how deep EXEC stands in EXEC; no queue ever holds EXEC, so one is enough.
--
-- Not modelled: that memory runs out, as at the `make` of internal/resp/resp.go for an array that
-- announces more elements than fit; the statistics; the geospatial code, which is floating point; files, sockets and the event loop.
pub mod Blocked
pub mod Bloom
pub mod BloomCmd
pub mod Bst
pub mod Client
pub mod Command
pub mod Eviction
pub mod Intset
pub mod KeyCmd
pub mod Keyspace
pub mod Lfu
pub mod ListCmd
pub mod Listpack
pub mod Parser
pub mod Prelude
pub mod Pubsub
pub mod Quicklist
pub mod Resp
pub mod Runtime
pub mod Session
pub mod SetCmd
pub mod Skiplist
pub mod Tests
pub mod Trie
pub mod TypeString
pub mod Zset
pub mod ZsetCmd
