-- ===== src/Journal.antt =====
-- src/fs/versioned/journal.rs: the write-ahead journal, its record format and its recovery.
-- A file and a payload are lists of bytes; `usize` has 64 bits.
pub mod Crc
pub mod Result
pub mod Record
pub mod Op
pub mod Replay
pub mod Writer
mod Runs
