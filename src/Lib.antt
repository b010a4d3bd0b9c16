-- ===== src/Lib.antt =====
-- Verification of the storage library of ChuSQL (chusql-core/storage/src), the Rust part of the
-- database: slotted heap pages, the page cache and its journal, the B+ tree, the write-ahead log,
-- the multi-version store and the catalog.
--
-- The parts and how they interact. A table is a file of pages; a heap page keeps its tuples behind
-- a slot directory, and an index is a file whose pages are the nodes of a B+ tree. Both reach their
-- pages through a page cache that writes back what it evicts and what is flushed. The catalog gives
-- tables their object numbers and schema versions. A statement's changes are first appended to the
-- write-ahead log as one group with a commit mark; after a crash the log is read, its committed
-- records are chosen and replayed. The version store decides which version of a row a transaction
-- sees, which locks it may take and which versions can go.
--
-- Which file models what:
--   Base, with child modules: lists, results, bytes, little-endian numbers and strings.
--   Base/Assoc: association lists with numbers as keys, which stand for maps.
--   Page: `Page` of chusql-core/storage/src/page.rs. Page/PageFile: `PageFile`, its methods under
--     their own names over a file as a list of bytes; its children Images, View and Refinement set
--     the cache against a plain map from pages to contents, Reads and Writes go through the
--     methods, Refusals is about what the journal refuses behind a read, Capacity is about the size
--     of the pool.
--   BTree: btree.rs. BTree/Layout has the constants, the sizes and `validate_layout` of config.rs,
--     BTree/Node `put_node` and `get_node`, BTree/Keys the order of keys, BTree/Search the searches
--     in a node, BTree/Disk the methods of `DiskBTree` but for the scan, which is BTree/Scan.
--     BTree/Codec and RoundTrip, Slots, Split, Meta and Chain are proofs on these.
--   Heap: heap.rs. Heap/Fields has the numbers in a page and the packed positions, Heap/Slotted the
--     functions of `HeapPage` under their own names; its children prove one operation each, over
--     the shape `IsPage` of Heap/Slotted/Layout.
--   Protocol: the records of protocol.rs that the log and the version store carry; Protocol/Names
--     the checks of names, Protocol/Requests the requests, `Request::valid_columns` and
--     `Request::table`.
--   PageWal: page_wal.rs. The frames of page images, `prepare`, `reset`, `checkpoint` and
--     `recover`; PageWal/Frames is on reading one frame back, PageWal/Replay is about a journal of
--     them, over PageWal/Contents, the pages and versions behind a run of images; PageWal/Rounds is
--     about the loop.
--   Wal: wal.rs. Wal/Op has `WalOp`, its payloads and the interface to serde_json, Wal/Codec
--     `encode` and `decode_body`, Wal/Log the methods of `Wal`, `committed_ops` and
--     `records_after`.
--   Mvcc: mvcc.rs. The data, `visible`, `prune`, `prune_durable`, `abort` and the methods
--     `begin_selected`, `oldest_snapshot`, `finish` and `fail_all`; `attempt` is one round of the
--     loop of `lock_inner` at one key, without the search for a cycle and the timeout, which end in
--     `abort`. Mvcc/Validate has `validate`, Mvcc/Publish `publish` and `publish_changed`; the
--     children of the latter go from one chain of versions (Chains, Rows) over the loops (Loops,
--     Isolation) to the store (Snapshots).
--   Catalog: catalog.rs, the methods of `Catalog` on tables, numbers, columns, indexes and
--     generations; Catalog/Names is on its map of names, Objects, Changes and Renames on the
--     numbers of its tables.
--   Tests: concrete inputs for the theorems.
--
-- How code becomes definitions. Numbers are natural numbers; where the source works in a fixed
-- width the bound or the wrap-around is written out, but for the counts of hits and misses. Bytes
-- are numbers in lists. A function that can panic on an index returns an option, one that fails
-- returns a result. A method that changes its object takes it and returns it, also when it fails. A
-- B-tree map is an association list in the order of its keys (in the catalog, in any order), a hash
-- map one in any order.
--
-- Fuel. `parse_loop` takes a number of rounds; each round consumes four bytes at least, so `parse`
-- gives it the length of the file and one. `recover_loop` goes by frames of 40 bytes at least and
-- `recover` gives it the length of the journal and one. The ways down a tree (`insert_rec`,
-- `delete_rec`, `descend`, `leftmost_empty`) take the depth of the tree as fuel, `walk` one round
-- for each leaf of the chain and one more; the source has no bound there, and a fuel that runs out
-- is an error of the model. `is_power_of_two` halves 17 times, enough for numbers up to 65536.
--
-- Outside the model: serde_json is the parameter `Serde`. A theorem that reads a payload back
-- takes, for the operations that it is about, that serde_json reads back what it wrote of them
-- (`ReadsBack`, a field of `Fits`); this excludes floating point numbers that come back a little
-- off. Files succeed on every call; a crash is a file that ends early. The mutex of the version
-- store makes each method one step. Not modelled: the opening of files, the tables over heap pages,
-- statistics, type names and older formats in the catalog, the reading of settings, logging, the
-- request dispatch of runtime.rs, the Haskell engine and server in front of the library.
pub mod Base
pub mod Page
pub mod Heap
pub mod Protocol
pub mod Wal
pub mod PageWal
pub mod BTree
pub mod Mvcc
pub mod Catalog
pub mod Tests
