-- ===== src/Lib.antt =====
-- freelite gives the containers of a cluster access to LITE, a kernel module for remote memory over
-- RDMA. An application in a container links the client library (client/lib), which sends each call
-- as a message over a Unix socket to the router of its host (router). The router makes the system
-- call, or asks the virtual cluster manager (vcm) for ids: a container has a virtual id (vid), a
-- host has a node id (nid), and the manager remembers the nid of every vid.
--
-- Which file models which part:
-- - Base and its children: shared names, 32-bit conversions, unordered_map, the state monad.
-- - Os: the calls of the operating system, a record that every definition takes as a parameter. A
--   world of type `W` stands for what is outside the process.
-- - Vcm: vcm/vcm.cpp. `get_new_vid`, `get_nid_by_vid` and the `switch` (`handle`) on the state
--   `Vcm` (vid, vid_nid_map). Vcm/Server is `server_accept_request`; Vcm/Registry is the
--   specification, a list of nids, and Vcm/Uniqueness says that the state remembers that list;
--   Vcm/Serving is about the threads.
-- - Routing: router/lib/routing.cpp. `Routing` holds its static variables, `Router` these with the
--   world. Routing/Branches splits its functions into cases; Caching, Connection and Shutdown are
--   about the maps, the socket, and a manager that has gone.
-- - Cluster: one manager and any number of routers. A history is a list of events, each a call of
--   one router, in any order; Cluster/Delivery says what the network may do, and Cluster/Invariant
--   what every step keeps. In Cluster/Requests a step is a whole request of a client to a router.
-- - Threads: the calls of router/lib/routing.cpp one access at a time, by threads of any routers,
--   with the manager between them. Threads/Worker has the steps of a thread (`Move`), the failures
--   (`Fault`) and where it stands (`Pc`), Threads/System their interleaving and what is reached;
--   Threads/Invariant is what every step keeps, Threads/Holder who holds a lock, and Threads/Calm is
--   about runs without failures, against the histories of Cluster.
-- - Rpc: inc/rpc_types.h and inc/func_code.h.
-- - Lite: router/lib/lite-lib.c, with the kernel as a parameter (`Kernel`). Lite/Numbers has the
--   numbers of the system calls (inc/lite-lib.h). Lite/Polling is about the loops, Lite/Packing
--   about the words that hold two numbers. Lite/Wrappers has the entry points that the router does
--   not call, and Lite/Replies is about their sizes.
-- - Shm: router/lib/shm.cpp.
-- - Router: router/test_router.cpp. Router/Dispatch has a function for each case of the `switch`,
--   Router/Server the thread that serves a client. Router/Effects says which parts of the world the
--   cases leave alone, and Router/Rule derives from it what every request keeps; Translation and
--   KernelCalls follow a call from the application to the kernel. Router/NoContainer has the cases
--   of the `switch` that differ in the build with NO_CONTAINER, Router/NoContainer/Server its
--   thread and Router/NoContainer/Serving what that thread leaves alone.
-- - Container: an application and its router together, from the stub to the kernel and back, and in
--   Container/LocalMemory to the memory that they share.
-- - Deployment: applications, routers and the manager together, from a join to the use of the id
--   that it gave.
-- - Listener: the main loop of vcm/vcm.cpp and router/test_router.cpp, from what the system calls
--   of a turn return; Listener/Handover is about how a thread comes by its socket. Listener/Startup
--   is `main` of both programs up to the loop, and what the router's does after its own.
-- - Client: client/lib/rpc.c. Client/Stubs has the requests of client/lib/lite-lib.c, Client/Calls
--   its functions; Client/NoContainer is the connection in the build with NO_CONTAINER. Client/Threads
--   is `rpc_handler` in several threads of an application, one access at a time, and Client/Opening
--   the same with `rpc_conn` and `rpc_disconn` and the state of every socket: Client/Opening/Races
--   has runs of threads that overlap, Client/Opening/Exclusive is about threads that do not, and
--   Client/Opening/Sockets follows the one socket that is open then.
-- - MockRouter: client/test_server.c, a stand-in for the router. Its loop is that of Listener, its
--   thread is followed in MockRouter/Replies, and MockRouter/Agreement is about the codes it knows.
-- - TestWrite: client/test_write.c; TestWrite/Writes says what it sends and which memory it sets, by
--   Client/Log, which follows the requests of a connected client; `memset` is a parameter. TestJoin: client/test_join.c, together with its router.
-- - TestRpc: client/test_rpc.c. TestRpc/Options is the reading of the options in `main`,
--   TestRpc/Threads the set-up of the threads in `run`, and TestRpc/Ring the loop of
--   `test_async_rpc_send`, whose waits run on fuel. TestRpc/Sync has the synchronous requests and both
--   threads with their buffers; TestRpc/Sync/Balance says what the receiver sends, TestRpc/Sync/Sender
--   what the sender of synchronous requests does.
-- - Latency: client/test_latency.c. Latency/Options is `main` up to the threads, Latency/Options/Setup
--   what the accepted options mean for them. Latency/Thread has the steps of a thread (`Move`), and
--   Latency/System their interleaving with the barrier, which is that of POSIX; Latency/Phases is
--   the invariant of all threads.
--
-- Outside Threads the functions that hold a mutex are one step, so that calls follow one another
-- as lists of such steps; Threads takes those of the router apart, while an answer of the manager,
-- from its `recv` to its `send`, is one step there too, and the manager closes no connection
-- there. In Client/Threads the socket stands and its calls succeed; in Client/Opening they may fail,
-- and what the messages hold is left out. The two polling loops of Lite run on fuel: the theorems
-- about them say how much is enough, one more than the number of reads until the kernel has written
-- the cell. The loops of the two servers run on a number of rounds, which is arbitrary, since only
-- the peer ends them; those of the stand-in in client/test_server.c end when its client has sent all.
-- The counter of vids is a 32-bit int with its wrap-around; the theorems about it stay below
-- 2 ^ 31 - 1. A response that the client does not initialise is a parameter (`junk`), a text that
-- overflows its field is no request at all, and reading a member of a union that was not written is
-- an outcome of its own.
--
-- Not modelled: partial sends and receives of a message and the bytes of a message on the wire, of
-- which the code assumes that one call carries a whole message; what the benchmarks print, and the
-- times that they measure, which nothing reads but one test in client/test_rpc.c, which ends the
-- program (`BUG`) under an option that is off by default; client/test_client.c, which makes each call
-- once; logging (inc/log.h) and inc/compiler.h, which keep no state.
pub mod Base
pub mod Os
pub mod Vcm
pub mod Routing
pub mod Cluster
pub mod Rpc
pub mod Lite
pub mod Shm
pub mod Router
pub mod Client
pub mod Listener
pub mod Container
pub mod Deployment
pub mod TestRpc
pub mod Latency
pub mod Threads
pub mod MockRouter
pub mod TestWrite
pub mod TestJoin
