-- ===== src/Lib.antt =====
-- A verification library of the pub/sub broker: the parts that decide where messages and offsets go and
-- what the replicas agree on, translated from the Go sources, with the theorems that make them correct.
--
-- The program. A producer sends a message to the broker, which refuses duplicates by a window of
-- sequence numbers per client, assigns a partition to the message, appends it to that partition's log,
-- and dispatches it to the consumer groups of its topic. A group gives each partition to one of its
-- consumers; a message that no retry delivers goes to the dead-letter queue. Committed offsets live in a
-- store that a log on disk makes durable. Requests come as frames of bytes, from clients whose keys give
-- them roles. The brokers of a cluster keep a registry of members, elect a leader, spread the partitions
-- over the members, wait for the replicas that are in sync, and agree on metadata by Raft.
--
-- Which file models which part (every path is from the repository's root):
--   Base and its children: shared names, Boolean tests, lists over native numbers, maps, words, bytes,
--     signed integers. A Go map is an association list whose writes replace the binding in place.
--   Raft and its children: internal/cluster/raft (state.go, rpc.go, store.go, log.go, election.go,
--     replication.go, node.go). The node is one record, and each handler one function from a node to a
--     node with the messages it sends. Raft/Steps has the event loop as a step relation, whose steps are
--     a message, a timer, a proposal and a truncation; reachability is a run of steps.
--   Offsets and its children: internal/partition/partition.go and internal/wal/wal_offset.go.
--     Offsets/Partitioner has HashPartitioner, Offsets/Keys the keys of offsets, Offsets/Store the
--     OffsetStore and the OffsetWAL.
--   Dedup and its children: internal/producer/dedup.go.
--   Dlq and its children: the DeadLetterQueue of internal/consumer/consumer.go, with DLQReplay of its
--     manager, and Message of pkg/types/types.go.
--   Groups and its children: Consumer, Group and Manager of internal/consumer/consumer.go.
--     Groups/Members has the consumers and a group, Groups/Dispatch the dispatch of a message with its
--     retries, Groups/Manager the manager, whose operations lend a group the store
--     and the queue that all groups share.
--   Topics and its children: the TopicWAL of internal/wal/wal_topic.go, with TopicConfig of
--     pkg/types/types.go, and in Topics/Manager the Manager of internal/topic/manager.go.
--   Storage and its children: internal/storage/record.go, segment.go and partition_log.go. Storage/Record has
--     encodeRecord and decodeRecord, Storage/Segment a Segment over the bytes of its log and its index,
--     Storage/Partition a PartitionLog. Storage/Contract states what a log promises as a list of messages.
--   Wal and its children: the log file of internal/wal/wal.go, which the offset log and the topic log write.
--     Wal/File has its operations, Wal/Refinement a plain list of data that it refines, crashes included.
--   Frames and its children: the codec of internal/protocol/protocol.go.
--   Auth and its children: internal/auth/rbac.go and auth.go, with APIKeyEntry of internal/config/config.go.
--   Cluster and its children: internal/cluster outside raft. Cluster/Registry has Member and Membership,
--     Cluster/Bully the Election of election.go and its event loop as a step relation in Cluster/Leaders,
--     Cluster/InSync the ISRTracker of isr.go and WaitForQuorum of quorum.go, Cluster/Ownership the
--     PartitionMap of partition_map.go.
--
-- How the code is modelled. A method that holds a lock is one function on the state. An error is a value
-- of the result. A read out of range or of a nil pointer is `none` where the code could reach it. Words
-- keep their width: terms, indices and the counters of the partitioner wrap. The loops are structural on
-- the list or the index they walk, or count down the retries. The loops that read records from a file
-- have fuel, one more than the bytes of the file: a record takes at least its header, so that it is
-- always enough, which is proved of every file (Wal/Totality, Storage/Totality). The bytes of a file are
-- a list; a crash in the middle of an append is a step that leaves a part of the record. A channel is
-- its buffered messages with its capacity and whether it is closed; a send that would block is a full
-- channel, and one on a closed channel a panic.
--
-- Parameters, for code that is not in the repository or only calls such code (internal/compress): JSON
-- encoding, the decimal printing and reading of fmt and strconv, CRC-32, SHA-256, decompression, the
-- FNV-1a hash, sort.Strings, the clock (an argument), the outcome of each system call of the Raft store
-- (a Boolean), and what other goroutines do to a consumer during a retry's sleep (a function). The
-- theorems name what they need of them: that decoding gives back what was encoded, that a printed number
-- has no slash, that sorting keeps the number of strings and adds none.
--
-- Not modelled: sockets and TLS, HTTP and the dashboard, metrics, logging and tracing, configuration,
-- the client library and the command-line tools, which decide nothing about messages; compression; and
-- for now compaction by key, the copying of raw segments to sockets, failures of the files under the
-- logs, the producer around the deduplication, the rate limiter, the replicator between brokers, and the
-- handlers of the broker itself.
pub mod Base
pub mod Dedup
pub mod Dlq
pub mod Raft
pub mod Cluster
pub mod Topics
pub mod Wal
pub mod Frames
pub mod Groups
pub mod Offsets
pub mod Storage
pub mod Auth
