-- ===== src/Lib.antt =====
-- OpenWorkers runner: the parts of the runner that decide, without V8 and without I/O.
--
-- The program. The runner serves workers: a public request is prepared (src/ingress.rs), resolved
-- to a worker with the help of a cache (src/resolve_cache.rs), and run in a V8 instance whose calls
-- of fetch, KV, databases and storage are limited (src/limiter.rs) and, where a worker chooses the
-- address, guarded (src/services/net_guard.rs). A Durable Object runs in at most one task, which
-- the registry (src/durable/mod.rs) starts, stops and replaces at a deployment; its alarms
-- (src/durable/alarms.rs) and the frames of its WebSockets (src/durable/sockets.rs) are events of
-- the registry, and its storage is a file of the D1 service (src/d1/mod.rs). An invalidation of the cache is also what
-- makes the registry retire the objects of old code.
--
-- The files.
--   Common        tests, lists, maps, integers and texts. A HashMap is an association list (Maps);
--                 an i64 is an integer (Int), as the times in milliseconds are far from its
--                 bounds; a text is Prim.Native.String, with Rust's operations on it (Text).
--   Durable/Depths      CallDepths and DepthGuard of src/durable/mod.rs.
--   Durable/Registry    REGISTRY, admit, serve, leave, Running::drop, retire, stop_namespace. One
--                 state holds the registry and its tasks; a step is one critical section, so any
--                 interleaving of the tasks is a list of steps (Steps). Serve has the task, Deploy
--                 the deployments and deletions; the other files prove.
--   Durable/Alarms      next, retry_at; Index has the SQL statements on the row of one object,
--                 Delivery has set and deliver, where each query, the file and the handler may
--                 fail; a history (History) also crashes between any two writes. Race shows what
--                 the history leaves out.
--   Durable/Ids   from_name, unique and parse. Interface has the crates hmac and hex; Filled meets
--                 their laws with a code over lists and a weak MAC.
--   Durable/Sockets     the table of sockets, every operation on it in any order, with what went
--                 into the channel of each socket (Closes, Once, Room, Ended, Stops); Task is the
--                 task of one socket as steps on what select! gives (Order, Pumps, Hears, Held).
--   NetGuard      ip_is_public, guard_url_host, guard_tcp_host, FilteringResolver, and the client
--                 that do_fetch of src/services/fetch.rs takes. Addresses has std::net's types
--                 and predicates; Ranges and Ranges6 compare the tests with CIDR blocks.
--   ResolveCache  Key, Cache, begin, still, store_resolution, store_worker, invalidate. Lookups has
--                 the steps: the increment of GENERATION, the clear, and the parts of a lookup
--                 (begin, query, lock and test, put), with the lock of the cache as a part of the
--                 state. `version` numbers the states of the database; `floor` and `cleared` note
--                 versions for the proofs and no operation reads them. Lru is the interface of
--                 the crate lru, and Bounded an implementation that meets its laws.
--   CodeCache     CodeCache of src/code_cache.rs, its settings and its keys. Lru is the interface of
--                 the crate lru with its order of use, Prefix and Evict are about the loop of put.
--   D1            the entries of src/d1/mod.rs: handle with its eviction, submit, close_idle,
--                 remove_files, reset_to_snapshot and the snapshot pass, as steps (Passes) on a
--                 state where a file is the number of its transactions, and a commit is the hook of
--                 SQLite and then the landing; Usages has Usage, scan and full, Keys object_key.
--   Scheduler     claim_due of src/scheduler.rs by any runners: the select, a transaction per row, an
--                 error, and the writes of the API, as steps on the tables (Once).
--   Limiter       BindingLimiter, BindingLimiters; acquire as three steps of each call.
--   WorkerPool    get_worker_semaphore of src/worker_pool.rs: the map of semaphores and its prune,
--                 with the tasks that wait for and hold permits as counts per semaphore.
--   Ingress       prepare, forwarded_by_proxy, host (Prepare), worker_route, worker_upload and
--                 scanner_probe (Names), Config::from_vars (Config), route of src/logs.rs.
--                 Headers is the interface of http::HeaderMap, and lists of values meet its laws.
-- The modules named Tests run the code on the inputs of the repository's tests, and apply each
-- result to a concrete case.
--
-- Bounds. Counters keep the wrap of their width: u64 for GENERATION, the bytes of the code cache
-- and the sizes of objects, u32 for a limiter and the permits of a socket. The results that need
-- it say how many steps stay below the wrap. Recursion is on lists, so there is no fuel but in two
-- places: the loop that evicts from the code cache has a turn for each entry there is, and the
-- runs of a failing alarm are counted up to a bound; results show that both are enough.
--
-- Parameters. Code of other crates is an argument with named laws: the LRU maps and the database
-- of the cache, the header map, HMAC and hexadecimal, the patterns of crons, the parsers of URLs,
-- addresses, UUIDs and percent escapes, the DNS lookup, rustls. Each law that a result needs is
-- met by an instance in the tests.
--
-- Not modelled: V8 and the operations of a worker (src/ops.rs, src/worker.rs, src/runtime.rs,
-- src/task_executor.rs, src/wasm_cache.rs), the clients of databases and storage (src/services),
-- the SQL that SQLite runs (src/d1/sqlite.rs) except the alarm of an object, the store and index
-- of snapshots (src/d1/archive.rs), the SQL of src/store.rs, the threads of the pool, the pumps of
-- src/websocket.rs, logs except their route, metrics, telemetry and bin/. In the D1 service, a job
-- whose caller stopped waiting and whose entry is gone is not followed further.
pub mod CodeCache
pub mod Common
pub mod D1
pub mod Durable
pub mod Ingress
pub mod Limiter
pub mod NetGuard
pub mod ResolveCache
pub mod Scheduler
pub mod WorkerPool
