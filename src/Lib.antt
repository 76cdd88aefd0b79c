-- ===== src/Lib.antt =====
-- A model of gorpcbench, a benchmark that drives one RPC interface over several systems, and the
-- theorems that make its own code correct.
--
-- The parts. `rpcbench` declares the interface that a system implements (`Client`: Nop, Add,
-- MultTreeValues, ToHex) and the interface of trees (`TreeNode`), and runs a matrix of cases:
-- `makeCall` draws a request, makes the call and checks the answer. `internal/binutils` puts numbers
-- and trees on a wire. `internal/rpc/<system>` holds a client and a server of each system.
--
-- The files and the code.
--   Prelude, Prelude/Tests, Prelude/Lists: tests and lists on native numbers.
--   Go: what the code takes from Go and its packages: `int64` as a 64-bit pattern that wraps around,
--     `encoding/binary`, `encoding/hex`, `copy`, errors, functions that may fail, and a connection
--     behind `bufio`.
--   Rpcbench/Values: the trees that nodes of any representation stand for.
--   Rpcbench/Held: the trees that nodes of a message hold, where reading one may fail.
--   Rpcbench/Tree: `TreeNodeImpl`, rpcbench/treenode.go, with the storage behind its slices.
--   Rpcbench/TreeNode: the interface `TreeNode` of rpcbench/interface.go with its laws; `copyTree`
--     and `treeMatchesForMult`, which go through it. Rpcbench/TreeNode/Print: `PrintTreeNode`.
--     Rpcbench/TreeNode/Copy, Matches and Views: what they do to a node that stands for a tree.
--   Rpcbench/Client: the interface `Client` of rpcbench/interface.go and its specification
--     `IsCorrect`, which the systems below are proved to meet, each on the trees that its messages
--     can hold.
--   Rpcbench/Harness: `copyLayout`, `populateWithRand`, `makeDenseTreeNode` and `makeRandomTree`.
--   Rpcbench/Setup: the clients that `newClientHarness` of rpcbench/bench_harness.go makes.
--   Rpcbench/Rng: `math/rand/v2`, a parameter with the ranges that the package documents.
--   Rpcbench/Calls: `ClientCall` and `benchClient` of rpcbench/bench_harness.go, `makeCall` of
--     rpcbench/bench_runner.go and its checks.
--   Rpcbench/Bench: the loops of rpcbench/bench_runner.go; the systems and the matrix of benches.go.
--     Rpcbench/Bench/Parallel: the workers of `runParallelBench` as interleaved steps of one state:
--     the channel of the clients, the iterations that are left, and the channel of the totals.
--   Rpcbench/RunCase: `RPCFactory` of rpcbench/interface.go, `newServerHarness` and
--     `newClientHarness` of rpcbench/bench_harness.go, and `RunCase` of rpcbench/bench_runner.go.
--     Rpcbench/RunCase/CleanUp: the clean-up of `newServerHarness`.
--   Binutils: internal/binutils/binutils.go.
--   Tcp/Server: `runConn` of internal/rpc/tcp/tcp_server.go. Tcp/Client: the calls of
--     internal/rpc/tcp/tcp_client.go. Tcp/Link and Tcp/Session: a client and a server joined.
--     Tcp/Run: the loop of `Run` that accepts connections.
--   Factory and Run below each system: its factory with the functions that make a server and a
--     client, and the `Run` of its server. Websocket/Factory: also `ServeHTTP`.
--   Shutdown: the `Run` of each server but that of gRPC under the clean-up of the harness.
--   Http1/Server and Http1/Client: the handlers of internal/rpc/http1/http1_server.go and the calls
--     of http1_client.go over a parameter `Transport`, which stands for `net/http`.
--   Grpc/Tree: internal/rpc/grpc/structdef_adapter.go and `multTree`. Grpc/Tree/Convert:
--     grpc_utils.go. Grpc/Api: the handlers of grpc_server.go and the calls of grpc_client.go over a
--     parameter `Transport`, which stands for gRPC and the generated client. It is asked to deliver
--     only messages within the 4 MB that gRPC receives by default; every test tree is within them.
--   Websocket/Socket and Websocket/Binary: `runBinaryConn` of internal/rpc/websocket/ws_server.go
--     and the binary calls of ws_client.go, over a parameter `Socket` for the websocket package.
--     Websocket/Binary/Serve and Rounds: the server on each request.
--     Websocket/Session: the binary client joined to the server.
--   Jsonutils: internal/jsonutils/jsonutils.go, with `encoding/json` on its types as a parameter.
--   Websocket/Json: `runJsonConn`, over the parameter `TextSocket`. Websocket/Json/Client: the calls
--     of ws_client.go where `isJson` is set. Websocket/Json/Rounds and Session: both joined.
--   Gocapnp/Runtime: the parameter for capnproto.org/go/capnp and the code that it generates.
--     Gocapnp/Tree: internal/rpc/gocapnp/gocapnp_helpers.go. Gocapnp/Tree/Holds and Adapter: what its
--     functions do, and that its nodes implement `TreeNode`. Gocapnp/Api: the handlers of
--     gocapnp_server.go and the calls of gocapnp_client.go over a parameter `Api`. README.md warns of
--     configurations in which this system fails; in these the hypothesis that `Api` delivers does
--     not hold, and the theorems on it say nothing.
--   Mdcapnp/Ser: the parameter for matheusd.com/mdcapnp/capnpser. Mdcapnp/Api: the fields of
--     internal/rpc/mdcapnp/handwritten_api.go. Mdcapnp/Adapter: api_adapter.go. Mdcapnp/Adapter/Node,
--     Builds and Reads: that the builder adapter implements `TreeNode`, and what both adapters do.
--     Mdcapnp/Server: mdcp_server.go. Mdcapnp/Client: mdcp_client_level0.go with the calls of
--     `testAPI`, over the parameter `Rpc` for capnprpc. Mdcapnp/Client/Fresh: mdcp_client.go.
--   Tests: test data, runs on it, and a concrete use of each theorem.
--
-- State and errors. A function takes the state that it changes and returns it beside its result;
-- `ok`, `err` and `stuck` say that it returned, returned an error, or never returned. A node holds
-- its children and the spare nodes behind them, so that storage that is used again is in the model.
-- A read delivers some part of what has arrived, as the connection's `grant` decides; theorems
-- hold for every `grant`.
--
-- Bounds and fuel. The loop of `cmdToHex` runs on fuel; as much fuel as the message has bytes is
-- enough for any message below `MaxHexEncodeSize`. The loops over a connection run on fuel as well,
-- and theorems are about their rounds. The functions on nodes of either capnp run on fuel, and as
-- much as the tree has nodes is enough. The other loops are structural.
--
-- The network is a parameter: what listening and dialling return, and the pools of goroutines that
-- the servers run in. A parallel run is a sequence of steps, each of one worker, in any order; package
-- testing hands out the iterations in batches of any size.
--
-- Not modelled: logging; the goroutines that close a connection when the context ends,
-- and the times that the code waits; `Run` of the websocket client, which nothing calls; `Run` of
-- the gRPC server, which only calls the package; the hints of a message's size; generated code.
pub mod Prelude
pub mod Go
pub mod Rpcbench
pub mod Binutils
pub mod Tcp
pub mod Http1
pub mod Grpc
pub mod Jsonutils
pub mod Websocket
pub mod Gocapnp
pub mod Mdcapnp
pub mod Shutdown
pub mod Tests
