-- ===== src/Lib.antt =====
-- A vector database: vectors with JSON payloads, kept in partitions around centroids, searched by
-- distance under a filter written as the WHERE clause of SQL.
--
-- A query's filter is parsed into a predicate. The statistics of a partition, which every insertion
-- updates, rule out the partitions that hold no match. Those that are left are ordered by the
-- distance of their centroids, and the nearest are scanned: codes of one bit for each coordinate
-- give an estimate of the distance, and the best estimates are computed again from the vectors.
-- Index files have a header, sections and a manifest with a checksum. A database is a directory of
-- such files, one for each version, and a manifest that names the last; a server speaks a binary
-- protocol over a connection.
--
-- The parts, by file of the repository:
--   src/sql.rs: Sql/Predicate and Sql/Eval (`SqlPredicate`, `eval`, `compare`), Sql/Token/Lexer
--     (`tokenize`), Sql/Parser (`Parser`), Sql/Filter (`parse_sql_filter`), Sql/Pushdown
--     (`can_partition_match`).
--   src/index_ivf_rq.rs: Payload (`Payload`), Stats/Defs (`PartitionStats`), Quantizer
--     (`RabitqQuantizer` and the codes), Index/Sq8 (`Sq8Data`), Index/Defs and Index/Search
--     (`IvfRabitqIndex`), Index/Kmeans (`kmeans`), Index/Build (`build`).
--   src/simd.rs: Simd, the portable code.
--   src/search.rs: Search/Defs (the scans of a partition), Search/Run (`search`).
--   src/storage.rs: Storage/Header (`Header`, `PartitionMeta`, `Manifest`), Storage/Checksum (`crc32`),
--     Storage/Save (`save_index`), Storage/Load (`load_index`, `load_index_mmap`); from_parts of
--     src/index_ivf_rq.rs is in Index/Parts.
--   src/mmap_index.rs: Storage/Checksum (`verify_checksum_streaming`), Mmap/Chunks
--     (`ChunkedMmapStorage`).
--   src/vdb.rs: Vdb/Disk (the directory and its changes), Vdb/Defs (`Database`).
--   src/thread_pool.rs: Pool/Defs (`ThreadPool` as steps of its threads).
--   src/hybrid.rs: Hybrid/Defs (`reciprocal_rank_fusion`, `weighted_fusion`).
--   src/sys_info.rs: SysInfo (the recommended sizes).
--   src/nng_server.rs: Nng/Wire (the payloads), Nng/Server (the handlers, the loop of a connection).
--   src/http_server.rs: Http/Defs (the handlers, and `route`, the choice among them).
-- Prelude has what they share; Tests has concrete inputs.
--
-- Floating-point numbers are the interface Prelude/Float: an order in which NaN compares with
-- nothing, and arithmetic of which nothing is assumed. Text is a list of code points, bytes are
-- numbers, maps are association lists. Code that may panic returns an option, and `none` is the
-- panic. An index file is the list of its bytes.
--
-- Fuel: the parser takes three calls for each token and three more; the scan in batches takes one
-- step for each entry, the checksum and the connection one for each byte, and so does a read; the
-- eviction takes one for each chunk in the queue. The theorems on the first four show that this is
-- enough; the eviction's counter ends its loop by itself.
--
-- Not modelled: the random rotation and the numbers that k-means draws, which are arguments; the
-- intrinsics of particular processors, which stand in for the portable code; sockets, files and
-- memory maps; the threads of a search, but for the order in which their results arrive;
-- serde_json, the Unicode classes and the parser of numbers, which are parameters; writes that
-- fail, and MmapDatabase of src/vdb.rs; the event loop and the headers of the HTTP server, full
-- text, GPU, the command line and the benchmarks.
pub mod Prelude
pub mod Payload
pub mod Simd
pub mod Quantizer
pub mod Index
pub mod Stats
pub mod Sql
pub mod Storage
pub mod Nng
pub mod Http
pub mod Vdb
pub mod Pool
pub mod Mmap
pub mod Hybrid
pub mod SysInfo
pub mod Search
mod Tests
