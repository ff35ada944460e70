-- ===== src/Lib.antt =====
-- A model of strobengine, a load generator whose master drives worker nodes: the control plane,
-- the metrics and their aggregation, and the engines for SSE, WebSocket, STOMP and gRPC over
-- HTTP/2, with the STOMP codec.
--
-- The parts and their files, with the code that they translate (paths from the repository's
-- root):
-- * Stomp (src/protocols/stomp_codec.rs): frames, header escaping and the incremental decoder of
--   the STOMP engine. Escape is encode_header and decode_header, Frame is Frame and its encode,
--   Decoder is Decoder with push, skip_heartbeats, compact and next_frame. Lines and RoundTrip
--   are about reading back what encode wrote, Progress about termination and the panic of a
--   slice.
-- * Stomp.Connection, Session, Engine and Authority (src/protocols/stomp.rs): Connection is the
--   socket of a session with read_frame and write_frame, and the loops that match on the broker's
--   frames; Session is StompSession with connect, ensure_subscribed and reset; Engine is produce,
--   consume, run_iteration and shutdown; Authority is parse_authority and StompEngine::new.
--   Attempts, Lifecycle, Status and Reconnects are about what iterations leave of a session,
--   Consumes, Rounds and Finishes about the rounds of the loops, Delivered and Sent about a
--   published payload at the broker.
-- * Grpc (src/protocols/grpc_h2.rs, and grpc_to_http_status of src/protocols/grpc.rs): Framing is
--   build_frame, read_response and the statuses, Sending is drive_send, Engine is the iteration
--   of GrpcH2Engine. Complete and Answered are about them.
-- * Sse (src/protocols/sse.rs): parse_sse_chunk with find_frame_end and parse_frame; Session is
--   SseSession with execute_iteration and execute_iteration_with_context. Frames and Segments are
--   about the cutting of a stream, Counting and Reported about the counters.
-- * WebSocket (src/protocols/websocket.rs): CountingSink and read_with_timeout; Publisher and
--   Subscriber are the two roles, Exchanges is PersistentWsSession, Stateless is
--   execute_iteration. Backpressure, Published, Persistent and EndToEnd are about them.
-- * Load (src/lib.rs, with LiveCounters of src/metrics/request.rs): Worker is spawn_worker and
--   the counters that the workers share, Supervisor the supervisor of a profile load test.
--   Counters, Refused and Accounts are about the counters and the report, Scaling about the
--   number of workers.
-- * Chaos (src/chaos.rs): ChaosEngine and its faults.
-- * Config (src/config.rs): LoadProfile.
-- * Metrics (src/metrics): Samples and Protocols are protocols.rs, Request is the request's
--   metric with its builder (request.rs), Accumulators, Streams, Timed and Aggregate are
--   aggregate.rs with finalize_metrics, Timeline is its timeline with that of timeline.rs; Pubsub
--   is the timestamped payload of helpers.rs. Below Aggregate, Totals, TimedTotals, Sums and
--   Common are about the counters, Presence about the sections of the report, Timelines about the
--   timeline.
-- * Distributed.State (src/distributed/state.rs): the worker's lifecycle states and
--   WorkerStateMachine::transition.
-- * Distributed.Worker (src/distributed/worker.rs): the control state that the handlers of a
--   session share, Shared, and handle_command, the heartbeat directives and the end of a run.
-- * Distributed.Telemetry (src/distributed/telemetry.rs, src/metrics/summary.rs):
--   WindowedCollector, which folds the outcomes of requests into batches, and the histogram's
--   buckets.
-- * Distributed.Master.Registry (src/distributed/master/registry.rs): the registry of workers and
--   its operations; Op lists those that change it. Sweeping is about what a sweep does, Health
--   about an evicted worker.
-- * Distributed.Master.Barrier (src/distributed/master/barrier.rs): wait_for_ready over the
--   sequence of registries that its rounds find.
-- * Distributed.Master.Metrics and Distributed.Master.Pipeline
--   (src/distributed/master/pipeline.rs): Metrics with merge_batch, merge and approx_percentile;
--   TelemetryPipeline with ingest, the sliding window, snapshot and the task's loop run_pipeline;
--   Pipeline.Report is finalize. Induction, Counts, Window, Totals and Panics are about the
--   batches that it has taken. Their messages are those of
--   proto/loadtesting/v1/load_test_controller.proto.
-- * Distributed.Master.Run (src/distributed/master/run.rs): the slot of the active run with
--   ingest_batch, record_ack and mark_telemetry_done, and the phases of start_run and abort that
--   lock it: install, after_broadcast, is_complete, finish.
-- * Prelude and Text: shared types, maps as association lists, machine words, and the parts of
--   the standard library that the code calls (UTF-8 validation, trimming, parsing a number,
--   ordering and sorting strings).
--
-- The master's server registers a worker, attaches its command stream and records its heartbeats
-- in the registry; the barrier reads the registry until enough workers are ready, and the master
-- then sends START to those it got. The worker's handle_command answers it, with the lifecycle of
-- Distributed.State. While the run lasts the workers collect their requests into batches of
-- metrics and send them; the active run passes them to its pipeline, which merges them by epoch
-- and by worker.
--
-- In a local run each worker turns in its loop, and its steps on the shared counters and the
-- channel of the metrics are interleaved with those of the others; a profile's supervisor starts
-- and cancels workers at its ticks. The engines return a RequestMetric for each iteration, whose
-- chaos fault ChaosEngine drew, and finalize_metrics receives them over a channel.
--
-- A text is the list of its bytes. usize, u64 and i64 (in two's complement) are numbers below
-- 2^64 with their wrap-around written out, as in a release build on a 64-bit target. A handler
-- runs to its end before the next event of its component. Instants are nanoseconds of a monotonic
-- clock and arguments of the operations that read them. A spawned run is a task with an id; a
-- channel is a number. The operations of f64 are a parameter of the pipeline, the metrics and the
-- load profiles, of which nothing is assumed, as are the names of the generated error classes,
-- the HDR histograms and String::from_utf8_lossy. The pipeline's task ends where the code panics,
-- so that its state is then none; a panic of the STOMP decoder ends an iteration without a
-- result. What a peer or the network does in an iteration is an argument: the reads of a body or
-- a socket in their order, with failures and timeouts, and whether a connect or a send succeeds.
-- The reads of a STOMP socket are given up to some point: a loop that wants more than that is
-- waiting, and its iteration has not returned, as with a broker that sends frames of no use for
-- ever. A hash map is an association list, whose order stands for the order of its iteration.
--
-- The decoder's loops run on fuel: the length of the unread bytes and one more. Each round of
-- either loop takes at least a line feed, so this is enough. The SSE parser's loop runs on the
-- length of its buffer, and each round drains a delimiter. The loops over a broker's frames run
-- on the bytes that are buffered or still to be read, and one more: each frame takes at least
-- one. drive_send is a recursion on the grants of credit. The supervisor's loops run on the
-- workers that are missing or too many. The barrier is a recursion on the rounds of one call.
--
-- Not modelled: sockets, TLS, gRPC and HTTP transport, the timers and the notifiers that wake the
-- barrier and the loop that waits for a run to complete, the protocol engines other than SSE,
-- WebSocket, STOMP and GrpcH2Engine, the statistics of the test summary, the report files, and
-- the Python bindings.
pub mod Prelude
pub mod Text
pub mod Config
pub mod Chaos
pub mod Metrics
pub mod Sse
pub mod Stomp
pub mod Load
pub mod Grpc
pub mod WebSocket
pub mod Distributed
