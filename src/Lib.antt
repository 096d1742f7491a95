-- ===== src/Lib.antt =====
-- AetherServe, a router for language-model workers: admission, registry, prefixes, routing, gateway.
--
-- A request is admitted against a token bucket and a global budget (internal/admission), routed to a
-- worker of the registry's snapshot (internal/registry, internal/routing) by its load and by the prefixes
-- that the worker reports as cached (internal/prefix), and the gateway streams the worker's tokens to the
-- client, with one more attempt on another worker if the first fails early (internal/gateway). Workers
-- register and send heartbeats with their state over the wire (internal/protocol, internal/mockworker).
--
-- Files. Base and its children: shared notation, lists, results, 64-bit and 32-bit arithmetic, Go
-- strings, maps, sorting. Float: Go's float64 by its operations. Clock: Time and Duration. Model:
-- internal/model/model.go, the structs.
--   * Admission (internal/admission/admission.go): `reserve`, `release`, `in_flight` are the methods of
--     Controller and Lease. Ledger: the tokens in use and the leases. Buckets: what a reservation does to
--     the buckets.
--   * Registry (internal/registry/registry.go): `register`, `heartbeat`, `snapshot`, `healthy_count`,
--     `validate`. Valid: the validation as a predicate. Invariant: histories of calls. Snapshot:
--     the sorted copies. Versions: heartbeats.
--   * Prefix (internal/prefix/prefix.go): `fingerprints`, `longest_match`. Match: the longest match and its
--     description. Blocks: prompts that share their first blocks.
--   * Routing (internal/routing/routing.go): `select` is the method Select, cut into the loop over the sorted
--     workers (`sift`), the switch on the policy (`apply_policy`) and the rest (`conclude`). Eligibility,
--     Sift, Choose, Outcome, Policies and RoundRobin hold its lemmas.
--   * Wire and Protocol (api/gen, internal/protocol/convert.go): the messages and the conversions. RoundTrip.
--   * Gateway (internal/gateway): Stream is `receiveAttempt`, with Order for what reaches the reader; Commit is
--     `forwardCommitted`, with Transcript for what the client reads; Attempts is the loop of `handleChat`,
--     with Answers; Chat is `handleChat` from its request to its response, with Settled; Sse is the
--     text of the event stream; Server is the control plane of server.go, with Replies and Accepted; Lifecycle is
--     `New`, `Start` and `Close`, with Opened and Closed; Request is `parseRequest`, with Bounds.
--     Channel is the attempt's channel between `receiveAttempt` and its reader, with Refines; Http is what
--     a request's response says, with Documented.
--     Grpc: the codes and errors of gRPC that the router and the workers share.
--   * Tokenizer (internal/tokenizer/tokenizer.go): the canonical text and its tokens.
--   * Config (internal/config/config.go): loading and the validations. Limits.
--   * MockWorker (internal/mockworker/worker.go): the reported state. Counters: queued and running jobs.
--     Cache: the prefix cache and its eviction. Job: a generation, with Delivery for its way to the
--     client. Dispatch: the queued jobs in turn, with Idle. Queue: calls of `Generate` that interleave with
--     `dispatch`, in Jobs and Steps, with Share and Counted for the counters, Served, Tended, Progress and
--     Returns for the calls that wait, Drained for what they leave, and Numbered, Fed,
--     Feeding, Streams and Delivered for the chunks.
--     Session: `registerAndHeartbeat`, with Entries and Ready for what a worker sends, Calls and Accepted
--     for the router's answers, and Others for what other workers' calls leave. Registration:
--     `registrationLoop`, with Rejoined.
--   * Metrics (internal/metrics/metrics.go): the registry and its page. Counts: histories of calls. Page:
--     the page.
--   * Pool (internal/workerclient/client.go): the steps of calls that interleave. Owners: who closes a
--     connection.
--   * Loadgen (cmd/loadgen/main.go): Workload is `workloadItems`, with Items; Simulator the routing
--     simulator, with Prefixes, Eligible and Selected; Simulation is `main` in that mode, with
--     Counts; Client is `execute`, with Stream; Percentiles; Directory.
--   * Commands (cmd/router/main.go, cmd/mock-worker/main.go): the two programs. Exits: their exit codes.
--   * Tests: runs on small inputs, and each theorem applied to concrete data.
--
-- State. A method takes the state and returns the new one; a mutex of the source makes a call one step.
-- A reading of the clock is an argument. The atomic cursor of the router is a field that `select`
-- returns anew, so concurrent decisions are a sequence of them. A pointer to a lease is an index into a
-- list of leases.
--
-- Parameters. float64 is an instance of `Float`; what a theorem needs of IEEE 754 is a named
-- hypothesis (`OrderLaws`, `ExactLaws`, `Separated`). SHA-256 with its hex encoding is a function on
-- strings. Unsigned integers wrap where the source computes with them. A string is the list of its
-- bytes, written as numbers.
--
-- Fuel. None but that of `fingerprints`, which walks a list of tokens in blocks: its length bounds the
-- number of blocks. A bound on the tokens of a job, 8, is the worker's own.
--
-- Concurrency. In the handlers a channel or a `select` is replaced by what it yields: the receive loop takes
-- one round for each turn, with what the stream returned and whether the event was taken; the forwarding
-- loop takes what each `select` met. The pool's calls do interleave: what stands between two uses of its
-- mutex is one step of a call. So do a worker's calls of `Generate` and its dispatcher, whose channels of
-- jobs and of results are part of the state, and the receiver and the reader of an attempt; a wait ends
-- when its timer or a context does, and its length is left open.
-- The two attempts of a request are the source's bound, so the loop needs no other fuel.
--
-- Not modelled: sockets, HTTP and gRPC transport, YAML and JSON parsing, the lengths of a
-- worker's waits, logging, command-line flags, and the writing of result files. The calls that count
-- metrics are left out of the handlers.
pub mod Base
pub mod Float
pub mod Clock
pub mod Model
pub mod Prefix
pub mod Admission
pub mod Registry
pub mod Routing
pub mod Grpc
pub mod Tokenizer
pub mod Wire
pub mod Protocol
pub mod Gateway
pub mod Config
pub mod Metrics
pub mod Pool
pub mod MockWorker
pub mod Loadgen
pub mod Commands
mod Tests
