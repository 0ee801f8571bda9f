-- ===== src/Lib.antt =====
-- StreamFlow: a streaming platform with a log broker, a write-ahead log for raft, stream
-- processing and a schema registry. This development models the parts of the Go program that keep
-- and change state, and proves what makes them correct.
--
-- How the parts interact: the broker (broker/broker.go) holds topics, a topic holds segments
-- (broker/types.go), and a segment holds a log file of frames, an offset index, a time index and
-- the two index files. Producing appends a frame to a topic's last segment and persists the
-- indexes; consuming reads frames by offset. Consumer groups (broker/consumer_group.go) deal
-- partitions out to members. The raft package (broker/internal/raft) frames entries for its
-- write-ahead log and serves them to the raft library.
--
-- Which file models what:
-- - Prelude and its children: tests, lists, keys of maps, signed integers, and the actions of methods
--   that change an object and may fail. Dict: Go maps. Sort: the sort package. Time: package time.
--   File: what is used of package os, every write with an outcome, done or failed after some bytes.
-- - Int64: int64 as a bit pattern, and the big-endian codings (int64ToBytes, bytesToInt64).
-- - Segment and its children: broker/types.go. Segment.append is Append, Segment.Read.read_range is
--   ReadRange, Segment.Open.new_segment is newSegment, Segment.Index the index files.
-- - Broker and its children: broker/broker.go. Broker.Topics.create_topic, Broker.Produce.produce,
--   Broker.Consume.consume, fetch and fetch_raw are the methods of these names.
--   Broker.Offsets is CommitOffset and LoadOffset, Broker.Idempotent broker/idempotent.go, and
--   Broker.Transactions broker/transactions.go. Broker.SparseIndex is
--   sparse_index_mmap.go, Broker.Tenants multitenant.go and Broker.RawFetch sendfile.go and
--   sendfile_linux.go.
-- - BrokerServer: apps/broker/main.go, of which cmd/broker/main.go is a copy: the handlers of the
--   broker's own server.
-- - Decimal: the printing and scanning of an int64 by package fmt.
-- - Groups: broker/consumer_group.go.
-- - Raft.Wal: broker/internal/raft/wal.go, a directory as a map from names to bytes. Raft.Node: the
--   write-ahead log as Node.Start and its loop use it (node.go, persistent_mem.go), and Raft.Node.Loop
--   the whole start and one round of the loop, with the messages and the snapshot. Raft.Snapshots:
--   SaveSnapshot and LoadSnapshot with the offload store, and the ticks of checkpoint_scheduler.go.
-- - Offload: broker/storage/offload.go, the interface and both implementations.
-- - Raft.Transport: transport_inproc.go, channels as bounded queues that are closed once.
-- - Raft.Entries: marshalEntries and unmarshalEntries of broker/internal/raft/node.go. Raft.Isr:
--   isr.go. Raft.Adapter: persistent_storage.go.
-- - Processor.Operators and Processor.Aggregates: processor/op.go, on finite streams.
--   Processor.Windows and Processor.Cep: the windows, the watermark, the join by time and
--   the pattern machine of processor/advanced_streaming.go. Schema.Registry and
--   Schema.Advanced: schema/registry.go and schema/advanced_registry.go.
-- - Management and its children: management/api/server.go, a function for each handler over the
--   broker and the metrics. Text: what the code uses of packages strings and strconv.
-- - StreamQl: streamql, the queries behind their regular expression (Queries), the conditions
--   (Predicates), and the operators of a plan and its run (Execution).
-- - Sdk: the client of the server and the producer and consumer of sdk (client.go, sdk.go).
--   Sdk.Delivery puts the client and the server together.
-- - Tests: the theorems at concrete inputs.
--
-- Numbers: an int64 is a number below 2 ^ 64, its two's complement, with wrap-around written out and
-- signed comparison in Int64.less. Theorems state the bounds that they need, such as positions and
-- offsets below 2 ^ 63. A time is a signed number of nanoseconds.
--
-- Fuel: the loops that decode files take the length of what is left as fuel, and each round takes at
-- least four bytes (frames) or sixteen (index entries); the round trips show that this is enough.
-- The loop of the sliding windows, which may go on for ever, is given any number of rounds.
-- ReadWAL's loop takes the length of the file in the same way. The loop of Fetch recurs on the
-- number of records that it may still add, and the loops that send a file on a list of rounds, of
-- which one for each byte is enough.
--
-- Parameters: the JSON coding of records (encoding/json) is a pair of functions, and a theorem that
-- reads a record back takes as a hypothesis that this record round-trips; the protobuf coding of raft
-- entries and messages is a parameter in the same way, and so are the text in base64 that JSON has for
-- bytes, the client of the object store, the clock and the outcomes of file operations.
--
-- Not modelled: the library's memory storage, reads that fail inside a file, aliasing of names that
-- are not plain path elements, the raft algorithm (a library), the tickers and channels of a node,
-- network transports over gRPC, TLS, what a regular expression matches,
-- clients of external services and command line programs.
pub mod Prelude
pub mod Dict
pub mod Sort
pub mod Time
pub mod Int64
pub mod File
pub mod Decimal
pub mod Segment
pub mod Broker
pub mod Groups
pub mod Raft
pub mod Processor
pub mod Schema
pub mod Sdk
pub mod Offload
pub mod BrokerServer
pub mod Text
pub mod StreamQl
pub mod Management
mod Tests
