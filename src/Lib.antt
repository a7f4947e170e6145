-- ===== src/Lib.antt =====
-- A model of the transport of gRPC over TLS with hyper and tower, in Rust (crate tonic-transport).
-- A client's channel sends requests through a stack of middlewares to a connection that is made,
-- and made again, on demand; a server accepts connections, shakes hands with them, and turns the
-- errors of its services into gRPC responses.
--
-- Common: shared names, Boolean tests, byte strings and lists. Runtime: results, panics
-- (`Exec.panic`), loops whose fuel runs out (`Exec.out_of_fuel`), polls, and the traits `Future`
-- and `tower::Service` as records of operations on a state. What the environment does between two
-- polls is part of that state, so a theorem for every `Future` is one for every behaviour.
-- Http: what is used of the http crate, as parameters: operations and, apart, their documented
-- laws. Duration: `std::time::Duration`.
-- Latest: the last value that a list of calls writes.
-- Error: src/lib.rs; Display has how errors are printed. The errors of other crates are a parameter.
-- GrpcTimeout: src/service/grpc_timeout.rs. Parse has `try_parse_grpc_timeout`, with the panics of
-- `split_at` and of u64 (an overflow panics, as in a build with overflow checks); Number the
-- library functions it calls; Middleware the service and its response future; Print writes the
-- texts that a client sends. Time is counted in polls: a timer is a future (Timer, Leaves); Ends
-- has how a request ends. Suite has the tests in the source, over any http and quickcheck crates, and
-- Fuzz what they come to.
-- Reconnect: src/service/reconnect.rs. Machine has `poll_ready`, its loop with one unit of fuel for
-- each turn, and `call`. Four units are enough where a connection is not lost as it is made.
-- Recovers is about a connection that is lost, Delivery about the errors of making one.
-- AddOrigin: src/service/add_origin.rs. UserAgent: src/service/user_agent.rs; Suite has the
-- tests in it.
-- RecoverError: src/server/recover_error.rs. Status has `try_status_from_error`, Body
-- `MaybeEmptyBody`, Middleware the service and its response future.
-- Incoming: src/server/incoming.rs. Loop has `tcp_incoming` and `select` over a list of events, in
-- which the runtime's choices are explicit; a list is finite, so no fuel is needed. Drain has what
-- the loop comes to when all handshakes have ended. Tcp has `TcpIncoming`.
-- Channel: src/channel/endpoint.rs. Builder has `ChannelBuilder`, `new` and `IntoUri` (which is in
-- src/channel/mod.rs), Setters one function for each setter, Calls their calls as data,
-- Settings what any of them come to, Domain `tls_connector`, Connect the four ways to connect. Core has `Channel` of
-- src/channel/mod.rs, Balance its `balance_list` and `balance_channel`, Listed what a list comes
-- to. What these use of hyper, tower and tokio is a parameter (`Crates`, `Dialers`, `Mpsc`).
-- Verified has what the channels of all four ways are made of.
-- Connector: src/service/connector.rs and `TlsConnector::connect` of src/tls.rs. An async block is
-- the result that it comes to; Attempt has the operator `?` for it. Io has src/service/io.rs.
-- Discovery: src/service/discover.rs. Followed has what is sent, against what a balancer gets.
-- Connection: src/service/connection.rs. Settings has what is set on hyper's builder; Stack the
-- layers `AddOrigin`, `UserAgent` and `GrpcTimeout` around the limits of tower (parameters) and
-- `Reconnect`; Reached has the states that calls lead to.
-- Server: src/server/mod.rs. Builder has `Server`, `builder` and `layer`, Setters one function for
-- each setter, Settings their calls as data; Info has src/server/conn.rs and `Certificate` of
-- src/tls.rs; Make has `Svc` and `MakeSvc`, with tracing, extensions and tower's limit as
-- parameters; Serve the ways to serve, with hyper's server as a parameter (`Hyper`) and each `await`
-- as its result. Outcome has the ways in which a request ends, and what its client is told; Requests
-- has the requests of a connection; Across and Answered join the connection of a client to a server,
-- Unknown the layers of a server to its routes.
-- Router: src/service/router.rs, and `add_service` and `add_optional_service` of src/server/mod.rs,
-- over axum's router as a parameter; Respond has `RoutesFuture` and `boxed_body`.
-- Examples: the programs in examples/src. Hello has the messages of examples/hello.proto and the
-- greeter, Number how its numbers are printed, Tls how both programs set up TLS, Server and Client
-- their `main`, as what it prints and comes to; SetUp and Ends what the server asks for and how it
-- ends. openssl and generated code are parameters.
-- Tests: examples on concrete inputs.
--
-- Not modelled: hyper's own server and client, sockets, what becomes of a sender of changes after
-- `balance_channel`, the `Debug` instances, tracing, and examples/build.rs,
-- which generates code.
pub mod Common
pub mod Runtime
pub mod Error
pub mod Duration
pub mod Http
pub mod GrpcTimeout
pub mod Reconnect
pub mod AddOrigin
pub mod UserAgent
pub mod RecoverError
pub mod Incoming
pub mod Latest
pub mod Channel
pub mod Connection
pub mod Attempt
pub mod Connector
pub mod Discovery
pub mod Server
pub mod Router
pub mod Examples
pub mod Tests
