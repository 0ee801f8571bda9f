-- ===== src/Raft.antt =====
-- broker/internal/raft: the write-ahead log, its entries and what the node does with them. The raft
-- algorithm itself is the library go.etcd.io/etcd/raft, and its entries and their protobuf coding
-- are a parameter.
pub mod Entries
pub mod Wal
pub mod Node
pub mod Isr
pub mod Adapter
pub mod Transport
pub mod Snapshots
