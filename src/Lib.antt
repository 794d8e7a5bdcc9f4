-- ===== src/Lib.antt =====
-- Verification of embeddenator-fs: a file system that keeps files as chunks encoded in vectors, with
-- corrections that make every chunk exact again, deltas that change chunks in place, versioned
-- stores with optimistic locking and a write-ahead journal.
--
-- Parts, and the files that model them:
-- * Prelude and its children: Boolean tests, lists over native numbers, little-endian words, the laws
--   of exclusive or, association lists for hash maps, and functions that may panic.
-- * Correction models src/fs/correction.rs. `compute_correction` chooses between bit flips, a block
--   and the verbatim data (Correction), and `ChunkCorrection::apply` undoes the errors of a vector.
--   Correction/Store is CorrectionStore, Correction/Verifier is ReconstructionVerifier. Diff, Exact,
--   Strategy, Store/RoundTrip, Store/Counters and Verifier/Perfect hold the proofs.
-- * Types models src/fs/versioned/types.rs.
-- * Delta models src/fs/delta.rs: `analyze_delta`, which finds the chunks that a change of a file
--   touches. Delta/Estimate has the metadata and the estimate; Delta/Group, Delta/Ranges, Delta/Appended
--   and Delta/Chunks hold the proofs.
-- * ChunkStore models src/fs/versioned/chunk.rs and src/fs/versioned/chunk_store.rs: `insert` is
--   VersionedChunkStore::insert and so on; `put` in its text is the insertion of a hash map.
-- * VersionedCorrections models src/fs/versioned/corrections.rs: update_versioned is `update`,
--   batch_insert_corrections is `batch_insert_new`, remove_correction is `remove`.
-- * Transaction models src/fs/versioned/transaction.rs, Engram src/fs/versioned/engram.rs. The
--   engram opens and logs transactions. `bundle_chunk` reads the root, reads the version and swaps in
--   three steps, and Engram/Threads lets other threads act between them; Engram/Race
--   interleaves two calls.
-- * Manifest models the manifest of src/fs/versioned/manifest.rs, Manifest/Entry its file entries, and
--   Manifest/Entry/Offsets the index of chunk offsets with the reads of ranges. Manifest/Spec says
--   what a manifest promises, Manifest/Consistent has the invariant of the path index, and
--   Manifest/Refines the refinement; Ranges holds the proof about the reads.
-- * EmbrFs models src/fs/versioned_embrfs.rs, the file system over the manifest, the chunk store and the
--   corrections: EmbrFs the state, reads and deletion, EmbrFs/Write the writes, EmbrFs/Range the reads
--   of ranges. Mends, Encoded, RoundTrip, Written and ReadBack follow a file from the write to the
--   read: a correction mends a longer decoding, the loop encodes chunks that it mends, the stores keep
--   them, the commit records them, the read returns them; Slice is about the reads of ranges.
--   EmbrFs/Patch cuts a delta into changes of single chunks, EmbrFs/Patch/Apply is apply_delta with
--   every type of delta, and EmbrFs/Patched is about what a changed chunk reads as.
-- * Streaming models src/fs/streaming.rs: Streaming/Buffer is the loop that cuts the buffer into
--   chunks, Streaming/Ingester the ingester with its commit, Streaming/Decoder the decoder over the
--   engram that EmbrFs models. Slices and Ingester/Laws are about input that comes in pieces; Pieces,
--   Remaining and Reads about what the decoder has still to give.
-- * LargeFile models src/fs/large_file.rs, the writes of large files over the same stores;
--   LargeFile/Levels compares the write in levels with the flat one.
-- * Fuse models src/fs/fuse_shim.rs, the file system that the kernel calls: Fuse/Path the functions on
--   paths, Fuse/State the maps of inodes and the lookups, Fuse/Insert the inserts, Fuse/Request the
--   callbacks with their replies. Sound, Linked, Ensured, AddNode and Operations are about the tables
--   after inserts, Ancestors about `ensure_directory`, Readback about what was inserted, Reply about
--   the entries of a directory.
-- * Journal models src/fs/versioned/journal.rs: the checksum (Crc), record headers (Record), the
--   operations (Op), the recovery (Replay) and the writer (Writer), each with its proofs in child
--   modules. The disk of the writer is a file, a position and the buffer of 8192 bytes in front of it,
--   and a call gives the journal that it leaves; a group commit's wait is not modelled, and the
--   background thread is a call of flush_pending between two others.
-- * Partition models the types of partitions of src/disk/partition.rs and its table of the master boot
--   record, over any block device; `raw_read_at` is the read of a raw image (src/disk/raw.rs).
--   Partition/Chain is about the end of the walk along extended boot records.
-- The modules named Runs hold tests and the theorems at concrete inputs.
--
-- How state is modelled: a struct is a record, and a method takes the state and returns the new one
-- beside its result. A method of a versioned store holds its locks from its first line to its last
-- and so is one step. A hash map is an association list. Numbers are natural numbers, and where
-- the source adds in 64 bits the sum is taken modulo 2^64, as in a release build; a slice out of
-- order is a panic, in Prelude/Run.
--
-- Fuel: the recovery takes the length of the file as the fuel of its loop over the records, and the
-- length of a payload as that of the loop over its operations. A record has at least 32 bytes and an
-- operation at least one, so that this is enough. The cutting of a file into chunks takes its length as
-- fuel, and each chunk takes a byte at least; the bisection of the offset index takes the number of
-- entries, and halves them. The walk along extended boot records has no result where its fuel is used
-- up, as the code may not end there. `ensure_directory` calls itself on the parent of its path, which
-- is shorter: its fuel is the length of the path and one more, and without fuel it answers an error
-- that the code does not have. The buffer of the ingester takes its
-- length as fuel, and a round takes a byte at least. A read of the decoder takes the number of chunks
-- and two more, since a round ends the read or loads the next chunk. The levels of a large file take
-- the number of vectors, as a level has fewer than the one before it; with a bundle size of one, the
-- code does not end, and the write has no result. All other loops recurse on a
-- list or on a count.
--
-- Parameters, for code that is not of the repository: the digest of the sha2 crate, from_utf8_lossy of
-- the standard library, the clock, the vectors of the vector library with their bundling, and for the
-- file system the record `Codec` of encoders, decoders and compression. IsCodec names what the file
-- system relies on in the encoders, and EmbrFs/Runs has a codec with which it holds. The buffer of a
-- directory's reply is fuser's, and `readdir` takes its `add` as a parameter.
--
-- Not modelled: the encoding of data in vectors (a library); the first file system,
-- src/fs/embrfs.rs; of src/fs/versioned_embrfs.rs the storage of whole files in holographic chunks,
-- the statistics, and calls that run at the same time; of FUSE the mounting, the times, owner and group
-- of a file, and the second adapter, src/fs/versioned_fuse.rs, which keeps the same tables; of
-- streaming the running digest, which nothing reads, the adaptive settings, which only print, and the
-- asynchronous ingester, which hands its calls on; the entropy of a large file; signals; disk images
-- (src/disk) but for what is named above; the command line, and errors of the
-- operating system. Times and floating-point ratios are left out.
pub mod Prelude
pub mod Correction
pub mod Journal
pub mod Types
pub mod ChunkStore
pub mod LargeFile
pub mod Manifest
pub mod VersionedCorrections
pub mod Transaction
pub mod EmbrFs
pub mod Engram
pub mod Delta
pub mod Partition
pub mod Fuse
pub mod Streaming
