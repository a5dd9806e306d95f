-- ===== src/Lib.antt =====
-- synclog: its TypeScript SDK, a client that keeps a local projection of a gateway's targets in
-- sync, with the memory store that comes with it; and its Go core: the log engine, its storage in
-- memory, and the gateway.
--
-- The program. A gateway (Go, pkg/gateway over pkg/synclog) keeps a log of events for each binding
-- of a target. The SDK (ts/synclog/src) reads them through a transport that the product supplies:
-- it catches up batch by batch, takes a snapshot where the gateway has dropped events that it still
-- needs, and then follows a live stream, which it starts anew after an error. What it reads is
-- decoded by the product's projection, written to a projection store, and acked, so that the
-- gateway may forget it.
--
-- The files.
-- - Protocol/ are the messages and services of ts/synclog/src/proto/synclog/v1/*_pb.ts, one module
--   for each file. A record has the fields of the message's `Message<...>` type in their order, an
--   enum its numbers in theirs, and each service its methods with the types of their input and
--   output. An optional message is an `Option`; uint64 and uint32 are ℕ, the signed ones ℤ.
-- - Target.antt is ts/synclog/src/target.ts. Below it: when two names are the same, and where the
--   text of a target stands in a name.
-- - Store.antt and Transport.antt are the interfaces of ts/synclog/src/store.ts and transport.ts.
-- - Memory.antt is ts/synclog/src/memory-store.ts, over JsMap.antt, JavaScript's `Map` in the order
--   of insertion. Below it: what each method does to each record, the order and the gaps of a
--   record's events, redelivery, clearing, and stores fed by any sequence of calls.
-- - Client.antt is ts/synclog/src/client.ts: options, requests and the choice of a binding.
--   Client/Sync.antt is `catchUp`, `#applyBatch` and `#recoverFromSnapshot`; Client/Subscribe.antt
--   is `subscribe`, its loops and its frames; Client/Backoff.antt is `#backoff`;
--   Client/Contract.antt is what the client assumes of a store, a transport and a stream, as
--   triples.
-- - Fake.antt is `FakeTransport` and `LiveTransport` of ts/synclog/test/memory-sync.test.ts.
-- - Session.antt puts them together: a client with the memory store, over any gateway whose state
--   is of any type. The modules below it are about the contracts that store and gateway meet, and
--   about whole runs. Session/Head.antt says what a gateway does that serves a log, as
--   pkg/gateway/engine.go over pkg/synclog/engine.go does: its answers, its acks, its snapshots and
--   (in Session/Head/Live.antt) its streams. Only that folder assumes it: there catch-ups, acks and
--   snapshots succeed, and a stream may break. Session/Overrun.antt is about a gateway that answers
--   with TOO_LONG each time, Session/Misfiling.antt about a binding whose key is the empty string.
-- - Log/ is pkg/synclog: Types.antt its types, Result.antt its errors and the monad of its calls,
--   Storage.antt the interfaces to storage, Engine.antt the engine. Log/Backend.antt says what the
--   engine relies on in its storage, and Log/Serving.antt is about the engine over such a storage.
-- - Storage.antt is internal/storage/memory/store.go: its state. Storage/Stream.antt is one stream;
--   Events, Waiting, Cursors, Snapshots and Admin are the operations; Calls.antt is runs of them.
--   Storage/History.antt and below compare a store with all the events that were appended;
--   Storage/Wakeups.antt and below are about its watchers; Storage/Leaving.antt carries a property
--   of the store through the calls that touch neither events nor watchers. Storage/Backend.antt and
--   Serving.antt put the engine over the store. GoMap.antt is Go's maps.
-- - Gateway/ is pkg/gateway: Types.antt the bindings and the hooks, Codec.antt the registry,
--   Bindings.antt, State.antt and Batch.antt the parts of engine.go, Engine.antt, Calls.antt and
--   Waiting.antt its calls. Selecting.antt, Passing.antt, Answers.antt, Adding.antt and
--   Watching.antt are about them.
-- - Io.antt is the monad of the asynchronous code, with its triples; Prelude.antt has the shared
--   names. Tests.antt has runs on sample data, among them the four tests of memory-sync.test.ts.
--
-- Names. A method is its name in snake case (`#applyBatch` is `apply_batch`), split where it helps:
-- the comment above a part says which part it is. `open` is `open_targets`, the constructor
-- `new_sync_client`.
--
-- Asynchronous code. A computation takes the world to an outcome and a new world: a result, a
-- thrown error, or `running`. The world is all that an awaited call can read or change, so what
-- other tasks do across an `await`, `stop` among them, is part of what that call does to the world;
-- nothing is assumed of it. In Session.antt the gateway's calls change the gateway's own state
-- alone: one subscription uses a store, and the signal is read from the gateway's state. What is
-- changed before a throw stays changed. The transport, the product's store and decoders, and the
-- runtime's timer and abort signal are parameters. A function has an identity, by which a listener
-- that closes an iterator is added to the signal and removed from it.
--
-- The Go code. A call takes a state to a value or an error, and a new state. `ctx` is left out
-- where the code passes it on. Each operation of the storage holds the mutex to its end and is one
-- step; CompactStream, which lets go of it between its loop and the truncation, is modelled as if
-- nothing came between. The time is an argument; the hooks of a gateway are parameters that may
-- keep a state of their own. The values that `%d`, `%q` and `%s` print into an error's text are
-- left out. The order of a map's entries stands for the order in which a `range` visits them. A
-- copy of bytes or of a message is the value itself.
--
-- Loops. `catchUp`, the loop over a stream and the loop of retries have no bound in the code: a
-- gateway can keep them busy for ever. They take a bound on their rounds, and end as `running`
-- where it is used up, so a run that ends with a result or a throw is one of the code. A bound is
-- enough for `catchUp` where every answer of the gateway settles the catch-up or brings a measure
-- of it down, and the bound is more than that measure; against a gateway that serves a log, where
-- it is more than the cursor is behind the head. For a subscription it is enough where it is more
-- than the retries, and enough for each run.
--
-- Numbers. A seq is a bigint in the SDK and ℕ here; counts are ℕ. In Go it is a uint64: the next
-- seq is taken modulo 2 ^ 64, and what is said of a stream asks that it has fewer events than that.
-- An int64 is an integer, with its wrap-around where the code multiplies (the age of a retention).
-- The delays are whole milliseconds; a retry delay is a double, which is the same number here, the
-- maximum where the product is infinite, and `NaN` where the product is.
--
-- Not modelled: the `Message` runtime of @bufbuild/protobuf, the JSON types and the schema
-- descriptors of the generated files; the re-exports of ts/synclog/src/index.ts; that a listener
-- registered with `once` is dropped when it fires, so the listeners are those of the calls that add
-- and remove them; in pkg/gateway, NewEngine, which only checks for nil, and the goroutines and the
-- timer of WaitGatewaySubscribe, which is modelled up to its wait; the gRPC transports, pkg/proto,
-- and the tests of the Go code.
pub mod Prelude
pub mod Protocol
pub mod Target
pub mod Io
pub mod JsMap
pub mod GoMap
pub mod Log
pub mod Storage
pub mod Gateway
pub mod Store
pub mod Memory
pub mod Transport
pub mod Client
pub mod Fake
pub mod Session
pub mod Tests
