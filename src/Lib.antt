-- ===== src/Lib.antt =====
-- Garland: a rope of bytes with marks, whose every revision and fork stays readable.
--
-- The program's parts and the files that model them:
--   Base, Result   shared tests, lists and options; the errors of errors.go and results
--   Utf8           byteToRuneOffset, runeToByteOffset and alignToRuneBoundary (tree.go)
--   Address        decorations, line starts and ValidDecorationKey (address.go)
--   Node           createLeafSnapshot, createInternalSnapshot, partitionDecorations, and the
--                  versions of a node: snapshotAt and setSnapshot (node.go)
--   Heap           the fields of Garland that hold the tree, and concatenate (tree.go); Represents
--                  says which rope a node stands for at a version, Sound which order the registry
--                  keeps; Queue: the pending updates of nodes; Quiet: a leaf that node_manipulations
--                  does not count
--   Rope           Search, Split, Insert, Delete, Balance: the other operations of tree.go;
--                  Build: buildBalancedSubtree, Read: readBytesRangeInternal, Mark:
--                  addDecorationInternal, removeDecorationsInternal and removeDecorationDirect
--                  (garland.go)
--   Coalesce       the runs of adjacent edits (coalesce.go)
--   Cursor         a cursor, its adjustment and its history (cursor.go), with the conversions between
--                  bytes, runes and lines (garland.go)
--   History        recordMutation, createForkFromCurrent, UndoSeek, ForkSeek and the transactions;
--                  Shows says which text a document shows; Transaction/Inside: what a
--                  transaction comes to; Prune: Prune, DeleteFork and
--                  garbageCollectSnapshots (garland.go)
--   Edit           insertBytesAt, deleteBytesAt, overwriteBytesAtInternal, copyBytesAt, truncateAt
--                  and deleteRunesAt, with the cursors (garland.go); Sequence: one behind the other;
--                  Typing: at the end of a run
--   Region         ByteBufferRegion, and the marks of a region's handle (optimized_region.go)
--   Source, Rebase changes of the source file and the trust in its blocks (source_change.go), and
--                  the map of positions of a rebase (rebase.go)
--   Codec          formatUint64, parseUint64, encodeDecorations and decodeDecorations (garland.go)
--   Examples       small documents, and the theorems applied to them
--
-- An edit reads the tree of the current fork and revision, path-copies it with fresh nodes, and
-- calls recordMutation, which files the new root under a revision: the current one when the edit
-- continues a run, a new one otherwise, in a new fork when the document is not at its newest
-- revision. A node keeps its snapshots by fork and revision, and a fork sees those of its parent up
-- to the revision where it branched off. So the operations on the tree are steps on Heap.Heap, which
-- return a result and the registry that they leave, and the operations on versions are functions on
-- History.State, which contains it. An entry point of Edit takes an Edit.Document, the state with the
-- cursors: it asks Coalesce whether the edit goes on the run, changes the tree, counts and moves the
-- cursors, and calls recordMutation.
--
-- The state and the operations have the source's names in snake case. Maps are functions into
-- Option, but the history of a node is a list of entries. A nil dereference is the error `panic`.
-- Sizes, positions, node numbers and versions are natural numbers: the code's int64 and uint64 hold
-- them as long as the text and the counters are below 2^63, and the tests for negative arguments
-- have nothing to reject. A file offset of -1 is `none`.
--
-- Fuel: an operation that descends a tree takes fuel for its depth, and the height of the rope is
-- enough. Edit and Cursor give one more than the number of the root: in a registry in order
-- (Heap.Sound) parents are numbered above their children, so the height is at most that.
-- mark_reachable and walk_reaches take the number of the node and of the fork plus one, for the same
-- reason. snapshot_from takes the number of the fork plus one, since a fork is numbered above its
-- parent. scan_lines takes the length of the data, for each round takes a byte.
-- find_revision_info has the code's own limit of 1000 rounds.
--
-- Not modelled: leaves that were moved to cold or warm storage (ensureLeafDataResident does nothing
-- to a leaf in memory), hashes and access times; locks and the goroutines of saving and maintenance;
-- the bytes that a stream may still bring behind the end of the text; in the versions, the positions
-- of cursors that a seek gives back, the cache of decorations, open optimized regions and the emacs
-- lock; and the parts of the repository that the list above does not name.
pub mod Base
pub mod Result
pub mod Utf8
pub mod Address
pub mod Node
pub mod Heap
pub mod Rope
pub mod Coalesce
pub mod History
pub mod Cursor
pub mod Edit
pub mod Rebase
pub mod Source
pub mod Region
pub mod Codec
pub mod Examples
