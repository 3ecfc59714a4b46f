-- ===== src/Lib.antt =====
-- BFE: the balancing and the routing of requests, as a model of the Go code.
--
-- A request first gets a product, by its host (bfe_route/host_table.go over the label trie of
-- bfe_route/trie), and a cluster, by the product's rules. The cluster's BalanceGslb
-- (bfe_balance/bal_gslb) then chooses a sub-cluster by the hash of the request's key, and the
-- sub-cluster's BalanceRR (bfe_balance/bal_slb) one of its backends (bfe_balance/backend). Failures of
-- a backend start a health checker, which brings it back with a slow start. In front of the endpoint
-- picker of a cluster stands a circuit breaker. Modules hook into these steps by filters
-- (bfe_module): mod_block refuses connections and requests, by a dictionary of addresses and by rules,
-- and mod_prison those whose sign comes too often.
--
-- The modules and the code:
--   Common      tests, lists, texts, maps, sorting and signed integers that the others share.
--   Backend     backend/bfe_backend.go: BfeBackend and its methods. Backend.Checker has the checker of
--               health_check.go beside the requests, as events that interleave, one for each critical section;
--               Backend.Recovery the loop of `check` alone.
--   Slb         bal_slb: Slb.Backends is backend_rr.go; the others are bal_rr.go: Slb.Balancer (the
--               record, Init, checkSlowStart), Slb.Update, and one module per algorithm, Slb.Smooth,
--               Slb.Simple, Slb.LeastConns and Slb.Sticky, which Slb.Balance puts together.
--               Slb.SlowStart follows a slow start, and Slb.Update.Keeps what an update keeps.
--   Breaker     bal_gslb/epp_breaker.go: Breaker.Window reads its ring as a window of results,
--               Breaker.Machine and Breaker.Cooldown its states.
--   Gslb        bal_gslb/sub_cluster.go and bal_gslb.go: Gslb.Weights (Init), Gslb.Reload,
--               Gslb.HashKey, Gslb.Select (a sub-cluster by hash, at random, by a sticky session),
--               Gslb.Balance (Balance, PickBackend) and Gslb.Epp (BalanceEpp, the configuration).
--   Route       Route.Trie is bfe_route/trie/trie.go, Route.Host the treatment of host names with
--               bfe_util/string_reverse, Route.HostTable bfe_route/host_table.go, and Route.BasicRule
--               bfe_config/bfe_route_conf/route_rule_conf/basic_rule_tree.go.
--   Module      bfe_module/bfe_callback.go and bfe_handler_list.go: the points at which modules add
--               their filters, and the runs of the filters. Module.Adds says what the lists hold.
--   BytePool    bfe_util/byte_pool: the two pools of bytes and their interface, which BytePool.Pools fills.
--   NodePool    bfe_util/hash_set/node_pool.go: the lists of nodes. NodePool.Partition keeps them apart;
--               NodePool.Delete follows `del`.
--   HashSet     bfe_util/hash_set/hash_set.go. HashSet.Invariant says when a set is well-formed, HashSet.Add,
--               HashSet.Unlink and HashSet.Remove follow its operations, HashSet.Keys is the
--               specification and HashSet.Runs meets it.
--   IpDict      bfe_util/ipdict: ipdict.go, iptable.go, checkIPPair and txt_load. IpDict.Ranges, IpDict.Merge and
--               IpDict.Disjoint follow mergeItems; IpDict.Search has Sort and Search, IpDict.Load the loader
--               of txt_load, IpDict.HashedSet the set of single addresses.
--   Block       bfe_modules/mod_block: the handlers of mod_block.go; Block.Conf is product_rule_load.go and
--               action.go, Block.Loaded what its check ensures, Block.Rules the rules in their order, and
--               Block.Global the blocklist, which is an IP dictionary.
--   Prison      bfe_modules/mod_prison: access.go and rule.go. Prison.Views and Prison.Counts say what the
--               dictionaries hold after shouldDeny and recordAccess, Prison.Runs, Prison.Fair and
--               Prison.Release follow accesses one after another. Prison.Sign is prepareData, and
--               Prison.Missing its errors.
--   Semver      bfe_util/semver/semver.go; Semver.RoundTrip relates parse and String,
--               and Semver.Reads the text and the version that parse makes of it.
-- A method on a struct is a function on a record, named as in the code, that returns the new record
-- first. Methods that hold their lock for the whole call are one step. A pointer to an element of a
-- list is its position. A clock reading, a random number and a hash value are arguments.
--
-- Numbers: Go's int is an integer without bound, but for the two products of updateSlowStart, whose
-- wrap-around at 64 bits is written out, the int32 count of an AccessCounter, which is its 32 bits,
-- and the numbers of a version, which are read only below 2^64. So the products of compLCWeight and
-- the int32 links of node_pool.go do not wrap; a pool is taken to have fewer than 2^31 nodes. The
-- loop of simpleBalance runs on fuel, twice the number of backends and one more, which two laps
-- over the list never use up. All other loops are structural.
--
-- Not modelled: the EPP runtime and the calls of the endpoint picker, whose answer is an argument of
-- BalanceEpp; the probes of a health check, whose results are arguments; logging; configuration
-- files. Conditions of rules are functions of the request, the host table takes the basic rules
-- of a product as a function of host and path, and the radix tree under these (armon/go-radix) is an
-- interface with the law of its LongestPrefix, like the LRU caches of mod_prison (go-lib/lru_cache).
-- Left out of mod_prison are the rules of a product, their handler and their reload. The protocol stacks (bfe_http, bfe_http2, bfe_spdy, bfe_tls and the
-- like) are adapted copies of other libraries, and the server around them is I/O.
pub mod Common
pub mod Backend
pub mod Slb
pub mod Breaker
pub mod Gslb
pub mod Route
pub mod Module
pub mod IpDict
pub mod BytePool
pub mod NodePool
pub mod HashSet
pub mod Semver
pub mod Prison
pub mod Block
