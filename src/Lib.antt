-- ===== src/Lib.antt =====
-- IBR-DTN, an implementation of the bundle protocol (RFC 5050): the formats of a bundle's parts, the
-- containers that hold bundles, the storage in memory, the connections over TCP and over datagrams, and
-- the retransmission of bundles that could not be sent.
--
-- How the parts go together. All numbers travel as SDNVs, and all texts behind their length. EIDs
-- name nodes and applications; a bundle's EIDs stand once each in its dictionary, and the blocks
-- refer to them by their positions. A bundle is known by its source, its timestamp, its sequence
-- number and, for a fragment, its offset; the lists and the storages compare these. The clock says
-- when a bundle expires; the bundle list takes out what has expired and tells the storage, which is
-- built upon it. The serializer writes a bundle with its dictionary and its blocks, of which the
-- last one is marked. Peers on a TCP connection exchange contact headers and then segments, each of
-- which is acknowledged or refused, and keep the ones without an answer in two queues; a datagram
-- connection cuts its stream into numbered datagrams, which the peer acknowledges. What a peer did
-- not take is queued again by the retransmission extension of the daemon. Neighbours tell each other
-- in a handshake which bundles they have and have purged.
--
-- Files, and the sources they follow:
--   Base            shared names, lists, results and sets; Base/Sets is std::set as a sorted list
--   Sdnv            ibrdtn/ibrdtn/data/SDNV.cpp and SDNV.h; Sdnv/Stream has the stream operators
--   BundleText      ibrdtn/ibrdtn/data/BundleString.cpp
--   Decimal         how the standard library prints and reads numbers, as EID.cpp uses it
--   Eid             ibrdtn/ibrdtn/data/EID.cpp, and the trimming of ibrdtn/ibrdtn/utils/Utils.cpp;
--                   Eid/Cbhe has the EIDs of compressed headers
--   BundleId        ibrdtn/ibrdtn/data/BundleID.cpp
--   Flags           the words of flags of ibrdtn/ibrdtn/data/Block.cpp and PrimaryBlock.cpp
--   DtnTime         ibrdtn/ibrdtn/data/DTNTime.cpp
--   Blocks          ibrdtn/ibrdtn/data/Block.cpp and Bundle.cpp: a bundle's blocks on a heap
--   Clock           ibrdtn/ibrdtn/utils/Clock.cpp
--   MetaBundle      ibrdtn/ibrdtn/data/MetaBundle.h and MetaBundle.cpp
--   BundleList      ibrdtn/ibrdtn/data/BundleList.cpp and BundleList.h
--   PrimaryBlock    ibrdtn/ibrdtn/data/PrimaryBlock.cpp and PrimaryBlock.h
--   Dictionary      ibrdtn/ibrdtn/data/Dictionary.cpp and Dictionary.h
--   Primary         the primary block in a stream: ibrdtn/ibrdtn/data/Serializer.cpp
--   Bundles         secondary blocks and whole bundles in a stream: ibrdtn/ibrdtn/data/Serializer.cpp;
--                   Bundles/Reader has the reader and `deserialize` of PayloadBlock.cpp and
--                   ExtensionBlock.cpp, Bundles/Lengths `getLength` of the serializer
--   Fields          single characters and fields under a flag, for the two administrative records
--   StatusReport    ibrdtn/ibrdtn/data/StatusReportBlock.cpp and StatusReportBlock.h
--   Custody         ibrdtn/ibrdtn/data/CustodySignalBlock.cpp and CustodySignalBlock.h
--   HopLimit        ibrdtn/ibrdtn/data/ScopeControlHopLimitBlock.cpp
--   Segment         ibrdtn/ibrdtn/streams/StreamDataSegment.cpp and StreamDataSegment.h
--   ContactHeader   ibrdtn/ibrdtn/streams/StreamContactHeader.cpp
--   Connection      ibrdtn/ibrdtn/streams/StreamConnection.cpp, StreamConnection.h and
--                   StreamBuffer.cpp; Connection/Receive is `underflow`, Connection/Shutdown the
--                   handshake and the shutdown, Connection/Expected and Connection/Wire the steps of a
--                   sender and of two peers, whose segments and answers are read from the bytes that
--                   the calls of the other side have written; the other files have the proofs
--   Datagram        daemon/src/net/DatagramConnection.cpp and DatagramConnection.h; Datagram/Delivery
--                   has the bytes that `queue` hands to `underflow`, Datagram/Waking how the two wait
--                   for each other
--   Retransmission  daemon/src/routing/RetransmissionExtension.cpp
--   Handshake       daemon/src/routing/NodeHandshake.cpp and NodeHandshake.h, with the stream
--                   operators of SummaryVector.cpp and the handlers of NodeHandshakeExtension.cpp
--   Storage         daemon/src/core/MemoryBundleStorage.cpp and MemoryBundleStorage.h
--   Tests           the theorems at concrete inputs
--
-- State and errors. An object is a record, and an operation that changes it returns the new one; a
-- stream is the list of the bytes not read yet. Operations keep their names in the spelling of this
-- library (getHost is get_host); operators are named after what they do (id_lt, write_id, read_id).
-- An exception is an error of `Result` or `none`. Two errors are no exceptions of the sources: a read
-- behind the end of a stream, after which the sources go on with an indeterminate byte, and a write
-- behind the end of an array. A stream that is in a failed state is modelled for the dictionary,
-- which reads on after a failure, and for connections, whose calls return how they end together with
-- what they leave.
--
-- Integers. size_t and u_int64_t have 64 bits and wrap around where the sources compute; a char is a
-- number below 256, and the sign of a char is written out where the sources depend on it.
--
-- Loops. Most are recursion on the list that they walk. The loops that divide a number recurse on the
-- well-foundedness of the order. The two loops over the dictionary's bytes take the length of the bytes
-- plus one as fuel, which is enough since each round passes a NUL and the last may stand at the end;
-- the loop of SDNV.cpp that collects the bytes of a number has the room of its array, ten bytes; the
-- reader of a bundle takes one round for each byte, since each block has one at least; the loop over the
-- queue of retransmissions takes the number of its elements, and the one that repeats a datagram has its
-- five rounds, as in the sources. The loops of `underflow` take the bytes left in the stream, and the
-- bytes left in the segment, plus one: each round reads a byte. The loop over the EIDs of a block has a
-- counter of 32 bits: from 2 ^ 32 EIDs on it is given one round more than there are bytes, which ends it
-- with an error, as the end of the stream does.
--
-- Parameters. The clock is a record with the system time, the offset of the time zone and the quality
-- of the time, which is a float of the sources: the model has whether it is zero, and the function from
-- lifetimes that the sources compute from it. The validator of a reader is a function of the block. The
-- reader of a bundle is given the copy of bytes into a BLOB, which block types have a factory, and the
-- `deserialize` of the classes that are not modelled; the storage is given what the age block and the
-- hop limit block of a bundle hold at the time of each call, the microseconds that its age blocks have
-- counted by then, and which bundles a Bloom filter matches. The stream of a datagram
-- connection has, for each datagram, whether `stream_send` returns or throws, and `stream_send` the
-- acknowledgements that come in each of its rounds. A flush of a connection is given whether the stream
-- below can be flushed, and a keepalive whether it gets the lock.
--
-- Not modelled: how `get<T>` goes on with an item that it could not read; an exception while the reader of a bundle reads a block with a factory, after which the
-- sources read on; an exception of the callback that sends a datagram; the storages on disk, the
-- convergence layers but for the two connections, the time that a shutdown waits for the last answers, and the routing decisions; the float versions of
-- SDNV.cpp; whatever needs sockets, threads, files or cryptography.
pub mod Base
pub mod Blocks
pub mod BundleId
pub mod BundleList
pub mod BundleText
pub mod Bundles
pub mod Clock
pub mod Connection
pub mod ContactHeader
pub mod Custody
pub mod Datagram
pub mod Decimal
pub mod Dictionary
pub mod DtnTime
pub mod Eid
pub mod Fields
pub mod Flags
pub mod Handshake
pub mod HopLimit
pub mod MetaBundle
pub mod Primary
pub mod PrimaryBlock
pub mod Retransmission
pub mod Sdnv
pub mod Segment
pub mod StatusReport
pub mod Storage
pub mod Tests
