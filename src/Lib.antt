-- ===== src/Lib.antt =====
-- The collector components for Kinesis data streams: an exporter that packs telemetry into records,
-- a receiver that reads the shards of a stream, and the lease table by which the receiver's
-- replicas share the shards.
--
-- How the parts fit together. The receiver's coordinator lists the stream's shards, seeds a lease
-- row for each, and on every pass asks the planner which shards to take, give up or steal. For each
-- lease that it acquires it starts a poller, which reads the shard, hands the records to the
-- consumer and writes the shard's checkpoint. Every write to the lease table carries the row's
-- counter and is refused if the row has moved on. The exporter cuts each batch into payloads that
-- fit in a record and sends them in bounded PutRecords calls.
--
-- Lease (internal/lease/lease.go): the row, the sentinels and the errors.
--   Lease.Memory (internal/lease/memory.go): MemoryStore with List, Ensure, Acquire, Heartbeat,
--     Checkpoint, Release and Delete as state-passing functions, each one step under the mutex. An
--     int64 counter is its bit pattern, and counter++ is taken modulo 2 ^ 64. Lease.Memory.Fencing
--     runs any list of calls by any workers.
--   Lease.Taker (internal/lease/taker.go): Plan as `plan`, with a helper for each of its loops.
--   Lease.Dynamodb (internal/lease/dynamodb.go): DynamoDBStore over any client. Rows has the items,
--     Service what DynamoDB is taken to do, and Refines compares the store with MemoryStore. List
--     runs on fuel, one unit for each page of the Scan.
-- Encoding (internal/encoding/encoding.go): encoders, decoders and codecs by name.
-- Exporter.Config (exporter/awskinesisexporter/config.go): Validate as `validate`, one error for
--   each message; regexp.Compile is a parameter.
-- Exporter.Oversize (exporter/awskinesisexporter/oversize.go): packChain as `pack_chain`, over any
--   signal codec and compressor. packSplit recurses on fuel, one more than max_attempts, which is
--   as deep as its depth test lets it go.
-- Exporter.Record (exporter/awskinesisexporter/record.go, and classifyPutRecordsError of
--   exporter.go): flush, putRecords and sleepBackoff over any client, context and clock. putRecords
--   runs on fuel 5, its number of attempts; flush on one more than the number of records, each
--   chunk taking at least one. Times are nanoseconds; the shifts are taken modulo 2 ^ 64.
-- Exporter.Emit (record.go): emit and partitionKey over any grouping, hash and source of UUIDs.
-- Exporter.Text (signal.go): clampStringAttrs and utf8SafeCut on lists of keys and values, under a
--   limit that is not negative; Exporter.Clamp adds Go's panic under a negative one.
-- Exporter.Signal: pdata's trees of resources, scopes and leaves, with what the exporter reads of
--   them and the rest as a list of numbers. CopyTo is the identity.
-- Exporter.Partition (partition.go): key plans, parts and promotions, with regexp.Compile as a
--   parameter. Exporter.Partition.Grouping (partition_grouping.go, signal_traces.go,
--   signal_logs.go): the groupings; what traces and logs do alike is one function over any leaf. A
--   bucket's maps of pointers are its own lists, with the indices of the origin.
--   Exporter.Partition.Metrics (also signal_metrics.go) descends to the data points.
-- Exporter.Split (signal_traces.go, signal_logs.go, signal_metrics.go): splitting in half.
-- Exporter.Clamp (signal_traces.go, signal_logs.go, signal_metrics.go): the clamp's walk over a
--   batch, and the codecs, on which pack_chain runs. The limit is Go's int, and under a negative
--   one, which Validate refuses, the slice of a string panics, here and in pack_chain `none`.
-- Exporter.Consume (exporter.go): newExporter, which builds an exporter of the parts above, and
--   ConsumeTraces, ConsumeMetrics and ConsumeLogs, which run emit on them. AWS, the instruments,
--   the marshalers and the compressors are parameters.
-- Receiver.Config (receiver/awskinesisreceiver/config.go): Validate as `validate`.
-- Receiver.Batch (receiver/awskinesisreceiver/poller_records.go and sink.go): handleRecord,
--   maybeDeadLetter and the sinks, which differ in the payload type only.
-- Receiver.Poller (poller.go and poller_lease.go of the same directory): one pass of runPoll as
--   `poll_pass` with all it calls. Receiver.Poller.Run has runPoll itself, its loop on fuel, one
--   unit for each pass; the loop of a live poller need not end. Receiver.Poller.Session has run and
--   runHeartbeat: the lease writes of both goroutines and the calls of other workers interleave as
--   a step relation, each write one step because leaseMu is held.
-- Receiver.Worker (workerid.go): resolveWorkerID over a Host, with the standard library's
--   TrimSpace, LastIndex and ValidString on bytes (Receiver.Worker.Text).
-- Receiver.Discovery (shard_discovery.go): listing, seeding, observations and orphan cleanup; one
--   unit of fuel for each page of ListShards.
-- Receiver.Coordinator (coordinator.go): reconcile, tryAcquire, startPoller with the exit of a
--   poller, releasePoller and drainAndStop. Critical sections are steps, and
--   Receiver.Coordinator.Shutdown interleaves the steps of all goroutines. A number given out once
--   stands for the identity of an activePoller pointer.
-- Receiver.Discovery.Backed takes the in-memory store for the coordinator's lease table.
-- Base: lists, strings as lists of bytes, UTF-8, Go maps as association lists, sort.Strings, and
--   integers.
--
-- What the code calls and this repository does not hold (the AWS clients, contexts and clocks,
-- pdata, the compression libraries, the consumers downstream, regexp) is a parameter: a field of an
-- `Env` record, or an argument. What is assumed of it is a named record of laws (IsHonest,
-- CountsItems, HasUuids, AcquiresShard, IsTable, IsDynamodb, IsBacked, Flows).
--
-- Not modelled: coordinator.go's start and run, the ticker loop around discoverShards and
-- reconcile; factory.go, client.go and telemetry.go of the exporter; receiver.go, deadletter.go,
-- factory.go, client.go and telemetry.go of the receiver, which wire the parts to the collector and
-- to AWS; internal/encoding/codec.go and the OTLP wrappers, which call libraries; cmd and perf. The
-- program's own logging and instruments are left out everywhere.
pub mod Base
pub mod Lease
pub mod Encoding
pub mod Exporter
pub mod Receiver
