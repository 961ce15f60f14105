-- ===== src/Lib.antt =====
-- The market data backend of Beast Market, backend/beast_market/: market events come in through a callback,
-- are queued, published to a Kafka-like bus, consumed and processed, and sent to terminals over WebSocket.
--
-- Files, each with the code it is about and its correspondence to it:
--   Prelude/*     shared names, tests on native numbers, texts as lists of code points, `Result` for a call that
--                 returns or raises, dicts as association lists.
--   RawQueue      adapters.py, `BoundedRawEventQueue` and `raw_event_queue_coalesce_key`: what the callback pushes
--                 and the ingest worker pops. `RawQueue/Refinement` has the list it implements,
--                 `RawQueue/Contract` one call, `RawQueue/Runs` whole sequences of calls.
--   Bus           adapters.py, the interface `EventBus` and the validation of keys; `Bus/InMemory`, `Bus/Failing`
--                 and `Bus/Reliable` are its classes, `Bus/Attempts` and `Bus/Publish` the proofs.
--   Contracts     contracts.py: the envelope; `Contracts/Events` the three kinds of records, `Contracts/Validated`
--                 the proofs.
--   Consumer      runtime.py, `RawEventConsumerWorker`: `poll_and_process` as a recursion over the polled records,
--                 with the loop's variables in `Progress`; `Consumer/Offsets` the proofs.
--   Pool          active_pool.py, `ActiveSymbolPoolManager`, field by field and method by method; the proofs are
--                 in `Pool/Members`, `Pool/Invariant` and `Pool/Changes`.
--   Freshness     freshness.py, `SymbolFreshnessTracker`; the proofs are in `Freshness/Streams` and
--                 `Freshness/Evaluation`.
--   Hydration     symbol_runtime.py, `HistoricalHydrationService`: a call of `hydrate` is a thread that waits,
--                 loads, is finished; a run is any list of calls and turns of threads. `Hydration/Exclusive` has
--                 the proofs.
--   Runtime       symbol_runtime.py: the runtime of a symbol and what its snapshot makes of its state.
--                 `Runtime/Manager` has the state of `SymbolRuntimeManager`, its hooks and both sinks;
--                 `Runtime/Action` its methods as actions; `Runtime/Hydrate`, `Runtime/Lifecycle`,
--                 `Runtime/Eviction`, `Runtime/Messages` and `Runtime/RawEvents` the methods; `Runtime/Threads`
--                 hydrations of threads at a time. The proofs are in `Runtime/Capacity`, `Runtime/Frame`,
--                 `Runtime/Kept`, `Runtime/Attached`, `Runtime/Evicted`, `Runtime/Stuck` and `Runtime/Accounting`.
--   Bars          symbol_runtime.py, the minute bars and alerts of a snapshot; `Bars/Order`, `Bars/Converted`,
--                 `Bars/Placed`, `Bars/Entered` and `Bars/Alerts` the proofs.
--   Session       trading_session.py, and `minute_bucket` of symbol_runtime.py; `Session/Buckets` the proofs.
--   Ingest        runtime.py, `RealtimeIngestWorker` over `RawQueue`; `Ingest/Drain` the proofs.
--   Callbacks     runtime.py, the legacy callbacks: `Callbacks/Legacy` bars and ticks, `Callbacks/Queues` broker
--                 queues and order books, `Callbacks/Normalize` the functions that the ingest worker is given;
--                 `Callbacks/Kinds` the proofs.
--   Subscriptions runtime.py, `XtQuantSubscriptionManager`; `Subscriptions/Cooldown` the proofs.
--   Compute       pipeline.py, `OctopusComputeV2`. What an event does to the state of a symbol: `Compute/Edit`
--                 calls that change a state in place, `Compute/Freshness`, `Compute/Alerts`, `Compute/Minutes`,
--                 `Compute/Confirmed`, `Compute/Snapshots`, `Compute/Books` and `Compute/Policy` the parts of a
--                 state, `Compute/Changes` the methods `apply_*`. `Compute/Stage` has the stage itself, with
--                 `Compute/Stage/Handlers` and `Compute/Stage/Ticks` its methods for raw events. The proofs are in
--                 `Compute/Rollover`, `Compute/Reasons`, `Compute/Stage/Emission`, `Compute/Stage/Numbering`,
--                 `Compute/Stage/Handled`, `Compute/Stage/Sequences` and `Compute/Stage/Throttle`.
--   Collector     pipeline.py, `RealtimeCollectorV2`, over any bus; `Collector/Numbering` the proofs.
--   TerminalGateway pipeline.py, `GatewayV2`: polling processed events for messages; `TerminalGateway/Offsets`
--                 and `TerminalGateway/Commit` the proofs; `TerminalGateway/Replies` answers and recorded messages.
--   Sessions      gateway_transport.py, `GatewayV2SessionManager`: connecting, disconnecting, broadcasts and
--                 flushes; `Sessions/Delivery` the proofs; `Sessions/Requests` the branches of `handle_message`,
--                 as functions of the session of the client and of the state of the gateway and the symbol
--                 runtime, with `Sessions/Requests/Attachment`.
--   Gateway       gateway.py, `GatewayClientQueue`: one terminal's queue, bounded and coalescing. The proofs are
--                 in `Gateway/Bounds`, `Gateway/Alerts`, `Gateway/Streams`, over the scans of `Gateway/Scan`.
--   Symbols       the two normalisers of stock symbols, in runtime.py and gateway_transport.py.
--   Value         Python values, as far as JSON has them, for the dicts that the code passes around;
--                 `Value/Assign` the proofs.
--
-- Conventions. A method is a function from the state before to its result and the state after. A lock makes
-- its methods single steps. Loops are structural recursions: over a queue, over polled records, and in
-- `ReliableEventBus.publish` over the attempts left, which start at one more than the retries. Only
-- `drain_all` of Ingest runs on fuel, which is the number of its rounds: the number of entries of the queue is
-- enough. Symbols and messages of errors are texts; the shapes of ASCII decide case, spaces and digits.
--
-- Parameters: the payload of messages and events, what the standard library formats and parses (`Python` in
-- Contracts), the processors and the sink of the consumer, the consumer itself with the law that it reports
-- the offset committed last, datetimes and floats (`Clock` in Freshness), any bus below the reliable one or
-- the collector (`EventBus` in Bus), the lag of a bus (TerminalGateway), the snapshot cache of the compute
-- stage (`Services` in Compute/Stage/Handlers), the gateway and the symbol runtime behind a session (`Backend`
-- in Sessions/Requests), the result of ranking symbols, the hooks of the runtime manager (`Hooks` in
-- Runtime/Manager), datetimes (`Datetimes` in Session), arithmetic on the values of dicts (`Numbers` in Bars,
-- a product in Collector, `Arithmetic` in Compute/Confirmed), times of callbacks (`Stamps` in Callbacks), the
-- collector behind the ingest worker (`Collector` in Ingest), and the client of xtquant (`Feed` in
-- Subscriptions).
--
-- Taken for granted: `poll`, `commit` and `lag` of a bus or a consumer and writes to the spool do not raise; every bus of `GatewayV2` polls; the freshness of a snapshot has a list of reasons and a state
-- that can be hashed; a raw event has a symbol; no int in a record is too large for a float.
--
-- Not modelled: sockets, Kafka, Redis, the services of xtquant and mammoth, files, threads and timers, which
-- are I/O; the reports of ops.py, cutover.py and shadow_run.py; the reports of symbol_runtime.py; the
-- preloading of states, their backfill and the replay of historical ticks in pipeline.py; the front end in
-- market-terminal/.
pub mod Prelude
pub mod Gateway
pub mod Symbols
pub mod RawQueue
pub mod Value
pub mod Contracts
pub mod Bus
pub mod Consumer
pub mod Pool
pub mod Freshness
pub mod Hydration
pub mod Sessions
pub mod Runtime
pub mod Session
pub mod Bars
pub mod Compute
pub mod Collector
pub mod TerminalGateway
pub mod Ingest
pub mod Callbacks
pub mod Subscriptions
mod Tests
